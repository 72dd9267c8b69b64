-- ===== src/Net/Tcp/Payload.antt =====
-- What stands on the wire of a TCP segment with a payload.
use obsidian_kernel.Base.{
  ℕ, ◌+◌, ◌*◌, ◌/◌, ◌%◌, ◌^◌, ◌<◌, ◌≤◌, true, List, ◌++◌, ◌≡◌, refl, ap, length, AreBytes, arith,
  u32, bit_or, ge→ltb,
}
use obsidian_kernel.Net.Run.{Run, done}
use obsidian_kernel.Net.Wire.{TcpHdr, tcp_bytes, swap16, swap32, ipv4_bytes}
use obsidian_kernel.Net.Checksum.Laws.{words_sum, inet_csum-words_sum}
use obsidian_kernel.Net.Link.{Nic, Net, eth_send, ethertype_ipv4, tcp_established}
use obsidian_kernel.Net.Ip.{ipv4_header, next_hop}
use obsidian_kernel.Net.Ip.Send.{ipv4_send-cached}
use obsidian_kernel.Net.Tcp.{
  tcp_checksum, pseudo_header, with_checksum, tcp_fields, tcp_send, same_state, proto_tcp, tcp_ack,
  tcp_psh, window,
}

header-AreBytes : (t : TcpHdr) → AreBytes (tcp_bytes t)
unfolding tcp_bytes
header-AreBytes t = omega arith

pseudo-AreBytes : (local_ip peer n : ℕ) → AreBytes (pseudo_header local_ip peer n)
unfolding pseudo_header
pseudo-AreBytes local_ip peer n = omega arith

-- The fields of the header that `tcp_send` builds, with its checksum 0.
abbrev pub sent_fields : {N : Type 0} → Net N → TcpHdr
sent_fields s =
    tcp_fields (swap16 s.lport) (swap16 s.rport_want) s.lseq s.rseq (bit_or tcp_ack tcp_psh) window

-- The checksum of that header, as a number.
abbrev pub sent_checksum : {N : Type 0} → ℕ → List ℕ → Net N → ℕ
sent_checksum ip payload s = tcp_checksum s.local_ip (swap32 ip) (sent_fields s) payload

-- The segment.
abbrev pub sent_segment : {N : Type 0} → ℕ → List ℕ → Net N → List ℕ
sent_segment ip payload s =
    tcp_bytes (record (sent_fields s) { csum = sent_checksum ip payload s }) ++ payload

-- A checksum stands with its low byte first, where a word has its high byte first.
words_sum-segment :
    (t : TcpHdr) (c : ℕ) (payload : List ℕ)
    → t.csum ≡ 0
    → c < 2 ^ 16
    → words_sum (tcp_bytes (record t { csum = c }) ++ payload)
      ≡ words_sum (tcp_bytes t) + (c % 256 * 256 + c / 256) + words_sum payload
unfolding words_sum tcp_bytes
words_sum-segment t c payload z h = omega (arith, z)

length-segment :
    (t : TcpHdr) (payload : List ℕ) → length (tcp_bytes t ++ payload) ≡ 20 + length payload
unfolding tcp_bytes
length-segment t payload = omega arith

length-pseudo_header : (local_ip peer n : ℕ) → length (pseudo_header local_ip peer n) ≡ 12
unfolding pseudo_header
length-pseudo_header local_ip peer n = refl

length-tcp_bytes : (t : TcpHdr) → length (tcp_bytes t) ≡ 20
unfolding tcp_bytes
length-tcp_bytes t = refl

received_sum :
    {N : Type 0} (ip : ℕ) (payload : List ℕ) (s : Net N)
    → (words_sum (pseudo_header s.local_ip (swap32 ip) (length payload))
          + words_sum (sent_segment ip payload s))
        % 65535
      ≡ (255 * sent_checksum ip payload s + words_sum payload) % 65535
unfolding tcp_checksum tcp_fields
received_sum ip payload s =
    let t = sent_fields s in
    let pseudo = pseudo_header s.local_ip (swap32 ip) (length payload) in
    let len = length-pseudo_header s.local_ip (swap32 ip) (length payload) in
    let size = length-tcp_bytes t in
    let sum =
      inet_csum-words_sum (tcp_bytes t) pseudo (header-AreBytes t)
        (pseudo-AreBytes s.local_ip (swap32 ip) (length payload)) (omega (arith, len))
        (omega (arith, size)) (omega (arith, len)) in
    let wire = words_sum-segment t (sent_checksum ip payload s) payload refl sum.1 in
    omega (arith, sum, wire)

-- On an established connection, with the address of the next hop known, `tcp_send` of at most 1400
-- bytes hands one frame to that hop, of an IPv4 header and a segment with the payload. What a
-- receiver adds up of the pseudo header and that segment has the remainder by 65535 of 255 times the
-- checksum and the words of the payload, where a good segment has 0: the checksum leaves the payload
-- out, and its bytes stand in the wrong order.
pub tcp_send-received :
    {N : Type 0} (nic : Nic N) (net_poll : Net N → Run (Net N)) (ip : ℕ) (payload : List ℕ)
    (s : Net N)
    → s.st ≡ tcp_established
    → length payload ≤ 1400
    → s.arp_spa ≡ next_hop ip s
    → (let seg = sent_segment ip payload s in
        (tcp_send nic net_poll ip payload s
          ≡ done (
              eth_send nic ethertype_ipv4 s.arp_tha
                (ipv4_bytes (ipv4_header s.local_ip ip proto_tcp (length seg)) ++ seg)
                (record s { lseq = u32 (s.lseq + length payload) })))
        × ((words_sum (pseudo_header s.local_ip (swap32 ip) (length payload)) + words_sum seg)
              % 65535
            ≡ (255 * sent_checksum ip payload s + words_sum payload) % 65535))
unfolding tcp_send with_checksum next_hop
tcp_send-received nic net_poll ip payload s open_state small hop =
    let header = record (sent_fields s) { csum = sent_checksum ip payload s } in
    let len = length-segment header payload in
    let is_open : same_state s.st tcp_established ≡ true =
      ap (λ st. same_state st tcp_established) open_state in
    (
      rw (is_open, ge→ltb 1400 (length payload) small)
          (ipv4_send-cached nic net_poll ip proto_tcp (sent_segment ip payload s)
            (record s { lseq = u32 (s.lseq + length payload) }) hop (omega (arith, len, small))),
      received_sum ip payload s,
    )
