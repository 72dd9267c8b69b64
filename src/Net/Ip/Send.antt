-- ===== src/Net/Ip/Send.antt =====
-- Sending to a hop whose address is known.
use obsidian_kernel.Base.{
  ℕ, ltb, Bool, false, List, ◌++◌, length, ◌≡◌, refl, ap, Bool-cases, inl, inr, ge→ltb, ◌≤◌,
}
use obsidian_kernel.Net.Run.{Run, done}
use obsidian_kernel.Net.Wire.{ipv4_bytes}
use obsidian_kernel.Net.Link.{Nic, Net, eth_send, ethertype_ipv4}
use obsidian_kernel.Net.Link.Laws.{arp_resolve-cached, eth_send-card}
use obsidian_kernel.Net.Ip.{ipv4_send, ipv4_transmit, ipv4_header, next_hop}

module _ {N : Type 0} (nic : Nic N) (net_poll : Net N → Run (Net N)) where
  -- No frame is received meanwhile: only the card changes.
  pub ipv4_send-card :
      (dst proto : ℕ) (seg : List ℕ) (s : Net N)
      → s.arp_spa ≡ next_hop dst s
      → (ok : Bool) × (card : N) × (ipv4_send nic net_poll dst proto seg s
          ≡ done (ok, record s { card = card }))
  unfolding ipv4_send ipv4_transmit
  ipv4_send-card dst proto seg s c = elim (Bool-cases (ltb 1480 (length seg))) [
    | inl e ↦ (false, s.card, rw (arp_resolve-cached nic net_poll (next_hop dst s) s c, e) refl)
    | inr e ↦
        (let frame = ipv4_bytes (ipv4_header s.local_ip dst proto (length seg)) ++ seg in
          let sent = eth_send nic ethertype_ipv4 s.arp_tha frame s in
          let (card, kept) = eth_send-card nic ethertype_ipv4 s.arp_tha frame s in
          (
            sent.0,
            card,
            rw (arp_resolve-cached nic net_poll (next_hop dst s) s c, e)
                (ap (λ t. done (sent.0, t)) kept),
          ))
  ]

  -- A segment that fits is handed over behind its header.
  pub ipv4_send-cached :
      (dst proto : ℕ) (seg : List ℕ) (s : Net N)
      → s.arp_spa ≡ next_hop dst s
      → length seg ≤ 1480
      → ipv4_send nic net_poll dst proto seg s
        ≡ done (
            eth_send nic ethertype_ipv4 s.arp_tha
              (ipv4_bytes (ipv4_header s.local_ip dst proto (length seg)) ++ seg)
              s)
  unfolding ipv4_send ipv4_transmit
  ipv4_send-cached dst proto seg s c fits =
      rw (arp_resolve-cached nic net_poll (next_hop dst s) s c, ge→ltb 1480 (length seg) fits) refl
