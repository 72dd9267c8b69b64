-- ===== src/Net/Poll/Safety.antt =====
-- Packets whose handling writes past the end of a buffer.
use obsidian_kernel.Base.{
  ℕ, ◌+◌, ◌-◌, ◌*◌, ◌/◌, ◌^◌, ◌%◌, ◌≤◌, ◌<◌, List, drop, u16, bit_and, ◌≡◌, ◌⊎◌, inl, inr, refl,
  ge→ltb, lt→ltb, ==_iff, bit_and_mask, arith,
}
use obsidian_kernel.Net.Run.{Run, overrun}
use obsidian_kernel.Net.Wire.{ipv4_read, read8, swap32}
use obsidian_kernel.Net.Link.{Nic, Net}
use obsidian_kernel.Net.Ip.{icmp_rx}
use obsidian_kernel.Net.Poll.{ipv4_rx}

module _ {N : Type 0} (nic : Nic N) (net_poll : Net N → Run (Net N)) where
  icmp_rx-overrun :
      (body : List ℕ) (len src : ℕ) (s : Net N)
      → 1500 < len
      → read8 body 0 ≡ 8
      → icmp_rx nic net_poll body len src s ≡ overrun
  unfolding icmp_rx
  icmp_rx-overrun body len src s h e =
      rw (ge→ltb len 8 (omega arith), (==_iff (read8 body 0) 8).1 e, lt→ltb 1500 len h) refl

  -- An IPv4 packet of 20 to 65535 bytes that carries an echo request writes past the end of the reply
  -- if its header claims to be longer than the packet, or leaves more than 1500 bytes.
  pub ipv4_rx-overrun :
      (pkt : List ℕ) (len hlen : ℕ) (s : Net N)
      → 20 ≤ len
      → len < 2 ^ 16
      → (ipv4_read pkt).ver_ihl / 16 ≡ 4
      → bit_and (ipv4_read pkt).ver_ihl 0xF * 4 ≡ hlen
      → (ipv4_read pkt).proto ≡ 1
      → read8 (drop hlen pkt) 0 ≡ 8
      → (len < hlen) ⊎ (hlen + 1500 < len)
      → ipv4_rx nic net_poll pkt len s ≡ overrun
  unfolding ipv4_rx
  ipv4_rx-overrun pkt len hlen s h k v e p t o =
      let ip = ipv4_read pkt in
      let mask : bit_and ip.ver_ihl 0xF ≡ ip.ver_ihl % 16 = bit_and_mask 4 ip.ver_ihl in
      let much : 1500 < u16 (len + 2 ^ 16 - hlen) = elim o [
        | inl q ↦ omega (arith, e, mask)
        | inr q ↦ omega arith
      ] in
      rw (ge→ltb len 20 h, (==_iff (ip.ver_ihl / 16) 4).1 v, (==_iff ip.proto 1).1 p, e)
        (icmp_rx-overrun (drop hlen pkt) (u16 (len + 2 ^ 16 - hlen)) (swap32 ip.src) s much t)
