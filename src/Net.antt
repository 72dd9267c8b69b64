-- ===== src/Net.antt =====
-- net/stack.c with the numbers of net/netstack.h: ARP, IPv4, ICMP echo, UDP and TCP over a network card.
-- The machine is little-endian, as all that the kernel runs on are: a field of a packed structure is
-- its bytes, the lowest first. What is printed is left out.
pub mod Run
pub mod Wire
pub mod Checksum
pub mod Link
pub mod Ip
pub mod Tcp
pub mod Poll
mod Tests
