-- ===== src/Net/Ip/Header.antt =====
-- What stands on the wire of the IPv4 header that `ipv4_send` builds.
use obsidian_kernel.Base.{
  ℕ, ◌+◌, ◌*◌, ◌/◌, ◌%◌, ◌^◌, ◌<◌, [], ◌++◌, ◌≡◌, ◌↔◌, refl, ap, sym, take, drop, length, replicate,
  drop-append, AreBytes, reverse, arith, ◌∙◌,
}
use obsidian_kernel.Net.Wire.{Ipv4Hdr, ipv4_bytes, arp_bytes, le32}
use obsidian_kernel.Net.Wire.Laws.{le32-swap32}
use obsidian_kernel.Net.Checksum.{inet_csum}
use obsidian_kernel.Net.Checksum.Laws.{words_sum, inet_csum-words_sum}
use obsidian_kernel.Net.Link.{Net, arp_request}
use obsidian_kernel.Net.Ip.{ipv4_fields, ipv4_header}

fields-AreBytes : (h : Ipv4Hdr) → AreBytes (ipv4_bytes h)
unfolding ipv4_bytes
fields-AreBytes h = omega arith

words_sum-csum :
    (h : Ipv4Hdr) (c : ℕ)
    → h.csum ≡ 0
    → c < 2 ^ 16
    → words_sum (ipv4_bytes (record h { csum = c }))
      ≡ words_sum (ipv4_bytes h) + (c % 256 * 256 + c / 256)
unfolding words_sum ipv4_bytes
words_sum-csum h c z s = omega (arith, z)

ipv4_length : (h : Ipv4Hdr) → length (ipv4_bytes h) ≡ 20
unfolding ipv4_bytes
ipv4_length h = refl

ipv4_csum : (local_ip dst proto seg_len : ℕ) → (ipv4_fields local_ip dst proto seg_len).csum ≡ 0
unfolding ipv4_fields
ipv4_csum local_ip dst proto seg_len = refl

-- The header's words add up to a multiple of 65535, as a receiver demands, exactly if the two bytes of
-- the checksum are equal: the code stores them in the opposite order.
pub ipv4_header_checked :
    (local_ip dst proto seg_len : ℕ)
    → (words_sum (ipv4_bytes (ipv4_header local_ip dst proto seg_len)) % 65535 ≡ 0) ↔ (
        (ipv4_header local_ip dst proto seg_len).csum / 256
        ≡ (ipv4_header local_ip dst proto seg_len).csum % 256)
unfolding ipv4_header words_sum ipv4_bytes
ipv4_header_checked local_ip dst proto seg_len =
    let h = ipv4_fields local_ip dst proto seg_len in
    let c = inet_csum (ipv4_bytes h) [] in
    let sum =
      inet_csum-words_sum (ipv4_bytes h) [] (fields-AreBytes h) (tt) (omega arith)
        (omega (arith, ipv4_length h)) (omega arith) in
    let wire = words_sum-csum h c (ipv4_csum local_ip dst proto seg_len) sum.1 in
    omega (arith, sum, wire)

-- The source address of the header has the bytes of `local_ip` in the opposite order from the sender's
-- address in an ARP request of the same state.
pub ipv4_header_source :
    {N : Type 0} (s : Net N) (ip dst proto seg_len : ℕ)
    → s.local_ip < 2 ^ 32
    → length s.local_mac ≡ 6
    → take 4 (drop 12 (ipv4_bytes (ipv4_header s.local_ip dst proto seg_len)))
      ≡ reverse (take 4 (drop 14 (arp_bytes (arp_request ip s))))
unfolding ipv4_header ipv4_fields ipv4_bytes arp_bytes
ipv4_header_source s ip dst proto seg_len h m = rw m_drop (le32-swap32 s.local_ip h)
  where
    m_drop :
        drop 6 (s.local_mac ++ (le32 s.local_ip ++ (replicate 6 0 ++ le32 ip)))
        ≡ le32 s.local_ip ++ (replicate 6 0 ++ le32 ip)
    m_drop =
        ap (λ n. drop n (s.local_mac ++ (le32 s.local_ip ++ (replicate 6 0 ++ le32 ip)))) (sym m)
        ∙ drop-append s.local_mac (le32 s.local_ip ++ (replicate 6 0 ++ le32 ip))
