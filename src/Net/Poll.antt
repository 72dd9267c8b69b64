-- ===== src/Net/Poll.antt =====
-- Reception in net/stack.c: the frames of the card, dispatched by their type and protocol.
pub mod Safety
pub mod Ends
use obsidian_kernel.Base.{
  ℕ, zero, suc, ◌+◌, ◌-◌, ◌*◌, ◌/◌, ◌%◌, ◌^◌, ◌==◌, ltb, leb, not, Bool, List, [], ◌∷◌, ◌++◌,
  Option, none, some, if◌then◌else◌, length, drop, u16, bit_and,
}
use obsidian_kernel.Net.Run.{Run, done, unfinished, ◌>>=◌}
use obsidian_kernel.Net.Wire.{
  Ipv4Hdr, ipv4_read, ipv4_size, arp_read, arp_size, read16, swap_type, swap32,
}
use obsidian_kernel.Net.Link.{Nic, Net, arp_rx, ethertype_arp, ethertype_ipv4, eth_size}
use obsidian_kernel.Net.Ip.{icmp_rx, proto_icmp}
use obsidian_kernel.Net.Tcp.{tcp_rx, proto_tcp}

module _ {N : Type 0} (nic : Nic N) where
  -- `pkt` is what stands in the receive buffer from the IPv4 header on, of which `len` bytes have
  -- arrived. A UDP datagram is only printed.
  pub ipv4_rx : (Net N → Run (Net N)) → List ℕ → ℕ → Net N → Run (Net N)
  ipv4_rx net_poll pkt len s =
      let ip = ipv4_read pkt in
      let hlen = bit_and ip.ver_ihl 0xF * 4 in
      let src = swap32 ip.src in
      let left = u16 (len + 2 ^ 16 - hlen) in
      if ltb len ipv4_size
      then done s
      else if not (ip.ver_ihl / 2 ^ 4 == 4)
      then done s
      else if ip.proto == proto_icmp
      then icmp_rx nic net_poll (drop hlen pkt) left src s
      else if ip.proto == proto_tcp
      then tcp_rx nic net_poll (drop hlen pkt) left src ip s
      else done s

  -- One frame of `got` bytes at the start of the receive buffer.
  pub frame_rx : (Net N → Run (Net N)) → ℕ → Net N → Run (Net N)
  frame_rx net_poll got s =
      let kind = swap_type (read16 s.rxbuf 12) in
      if kind == ethertype_arp
      then if leb (eth_size + arp_size) got
        then done (arp_rx nic (arp_read (drop eth_size s.rxbuf)) s)
        else done s
      else if kind == ethertype_ipv4
      then ipv4_rx net_poll (drop eth_size s.rxbuf) (u16 (got - eth_size)) s
      else done s

  -- The frame is stored over the start of the buffer, and what it does not reach stays.
  pub received : List ℕ → N → Net N → Net N
  received frame card s = record s { card = card; rxbuf = frame ++ drop (length frame) s.rxbuf }

  -- A round of the loop: the frame of `e1000_poll` if it has one, and the rounds after it.
  pub poll_round : (Net N → Run (Net N)) → Net N → Option (List ℕ) × N → Run (Net N)
  poll_round net_poll s (none, card) = done (record s { card = card })
  poll_round net_poll s (some frame, card) =
      if leb (length frame) eth_size
      then done (received frame card s)
      else frame_rx net_poll (length frame) (received frame card s) >>= net_poll

  -- The fuel bounds the frames of this call and of those inside it.
  pub net_poll : ℕ → Net N → Run (Net N)
  net_poll zero s = unfinished
  net_poll (suc fuel) s = poll_round (net_poll fuel) s (nic.e1000_poll s.card)
