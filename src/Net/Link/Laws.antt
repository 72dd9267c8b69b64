-- ===== src/Net/Link/Laws.antt =====
-- Address resolution: what a cached address gives, and what becomes of the packets of other hosts.
use obsidian_kernel.Base.{
  ℕ, List, some, ◌≡◌, ◌⊎◌, refl, get_or, ==_iff, arith, ◌-◌, ◌++◌, ltb, length, Bool-cases, inl,
  inr,
}
use obsidian_kernel.Net.Run.{Run, done}
use obsidian_kernel.Net.Wire.{arp_read, le16, swap_type}
use obsidian_kernel.Net.Link.{Nic, Net, arp_resolve, arp_cached, arp_rx, eth_send, eth_size}

module _ {N : Type 0} (nic : Nic N) where
  pub arp_resolve-cached :
      (net_poll : Net N → Run (Net N)) (ip : ℕ) (s : Net N)
      → s.arp_spa ≡ ip
      → arp_resolve nic net_poll ip s ≡ done (some s.arp_tha, s)
  unfolding arp_resolve arp_cached
  arp_resolve-cached net_poll ip s e = rw ((==_iff s.arp_spa ip).1 e) refl

  -- A packet whose operation is 1 or 2 in network order, a request or a reply of another host,
  -- changes nothing and is not answered.
  pub arp_rx-network_order :
      (b : List ℕ) (s : Net N)
      → get_or b 6 0 ≡ 0
      → (get_or b 7 0 ≡ 1) ⊎ (get_or b 7 0 ≡ 2)
      → arp_rx nic (arp_read b) s ≡ s
  unfolding arp_rx arp_read
  arp_rx-network_order b s z o = grind arith

  -- Sending changes the card only.
  pub eth_send-card :
      (kind : ℕ) (mac b : List ℕ) (s : Net N)
      → (card : N) × ((eth_send nic kind mac b s).1 ≡ record s { card = card })
  unfolding eth_send
  eth_send-card kind mac b s = elim (Bool-cases (ltb (1600 - eth_size) (length b))) [
    | inl e ↦ (s.card, rw e refl)
    | inr e ↦ (
      (nic.e1000_send (mac ++ (s.local_mac ++ (le16 (swap_type kind) ++ b))) s.card).1,
      rw e refl,
    )
  ]
