-- ===== src/Net/Ip.antt =====
-- IPv4 transmission, ICMP echo and UDP of net/stack.c.
pub mod Header
pub mod Send
pub mod Echo
use obsidian_kernel.Base.{
  ℕ, ◌+◌, ◌-◌, ◌*◌, ◌/◌, ◌%◌, ◌^◌, ◌==◌, ltb, not, Bool, true, false, List, [], ◌∷◌, ◌++◌, Option,
  none, some, if◌then◌else◌, length, set, take, u8, u16, bit_and,
}
use obsidian_kernel.Net.Run.{Run, done, overrun, ◌>>=◌}
use obsidian_kernel.Net.Wire.{
  Ipv4Hdr, ipv4_bytes, ipv4_size, UdpHdr, udp_bytes, udp_size, read8, read16, swap16, swap32,
}
use obsidian_kernel.Net.Checksum.{inet_csum}
use obsidian_kernel.Net.Link.{Nic, Net, eth_send, ethertype_ipv4, arp_resolve}

abbrev pub proto_icmp : ℕ
proto_icmp = 1

abbrev pub proto_udp : ℕ
proto_udp = 17

-- The header that `ipv4_send` builds for a segment of `seg_len` bytes, with its checksum field 0.
pub ipv4_fields : ℕ → ℕ → ℕ → ℕ → Ipv4Hdr
ipv4_fields local_ip dst proto seg_len = record {
  ver_ihl = 0x45;
  tos = 0;
  len = swap16 (seg_len + ipv4_size);
  id = 0;
  frag = 0;
  ttl = 64;
  proto = proto;
  csum = 0;
  src = swap32 local_ip;
  dst = swap32 dst;
}

pub ipv4_header : ℕ → ℕ → ℕ → ℕ → Ipv4Hdr
ipv4_header local_ip dst proto seg_len =
    let ip = ipv4_fields local_ip dst proto seg_len in
    record ip { csum = inet_csum (ipv4_bytes ip) [] }

-- What `udp_rx` prints: the number of bytes and the port they come from.
pub udp_rx : List ℕ → ℕ → Option (ℕ × ℕ)
udp_rx seg len = if ltb len udp_size then none else some (len - udp_size, swap16 (read16 seg 0))

pub udp_header : ℕ → ℕ → ℕ → UdpHdr
udp_header sport dport len = record {
  sport = swap16 sport;
  dport = swap16 dport;
  len = swap16 (u16 (len + 8));
  csum = 0;
}

-- The body of the reply to an echo request, before its checksum is put in.
pub echo_body : List ℕ → ℕ → List ℕ
echo_body body len = set (set (set (take len body) 0 0) 2 0) 3 0

pub echo_reply : List ℕ → ℕ → List ℕ
echo_reply body len =
    let reply = echo_body body len in
    let c = inet_csum reply [] in set (set reply 2 (u8 (c / 2 ^ 8))) 3 (u8 c)

unfoldable pub next_hop : {N : Type 0} → ℕ → Net N → ℕ
next_hop dst s =
    if bit_and dst 0xFFFFFFC0 == bit_and s.local_ip 0xFFFFFFC0 then dst else s.gateway_ip

module _ {N : Type 0} (nic : Nic N) (net_poll : Net N → Run (Net N)) where
  -- Once the address is known.
  unfoldable pub ipv4_transmit : ℕ → ℕ → List ℕ → Option (List ℕ) × Net N → Run (Bool × Net N)
  ipv4_transmit dst proto seg (none, s) = done (false, s)
  ipv4_transmit dst proto seg (some mac, s) =
      if ltb 1480 (length seg)
      then done (false, s)
      else done (
          eth_send nic ethertype_ipv4 mac
            (ipv4_bytes (ipv4_header s.local_ip dst proto (length seg)) ++ seg) s)

  unfoldable pub ipv4_send : ℕ → ℕ → List ℕ → Net N → Run (Bool × Net N)
  ipv4_send dst proto seg s = do
    resolved ← arp_resolve nic net_poll (next_hop dst s) s
    ipv4_transmit dst proto seg resolved

  -- `body` is what stands in the receive buffer from the message on. The reply has 1500 bytes of
  -- room; the header that the code builds beside it is not sent.
  unfoldable pub icmp_rx : List ℕ → ℕ → ℕ → Net N → Run (Net N)
  icmp_rx body len src s =
      if ltb len 8
      then done s
      else if not (read8 body 0 == 8)
      then done s
      else if ltb 1500 len
      then overrun
      else (do (ok, s) ← ipv4_send src proto_icmp (echo_reply body len) s; done s)

  -- True for the result 0.
  pub udp_send : ℕ → ℕ → ℕ → List ℕ → Net N → Run (Bool × Net N)
  udp_send dst dport sport bytes s =
      let len = length bytes in
      if ltb 1400 len
      then done (false, s)
      else ipv4_send dst proto_udp (udp_bytes (udp_header sport dport len) ++ bytes) s
