-- ===== src/Net/Tcp/States.antt =====
-- The states of the connection.
use obsidian_kernel.Base.{
  ℕ, ◌+◌, ◌&&◌, Bool, true, false, List, [], bit_or, u32, if◌then◌else◌, ◌≡◌, ◌≤◌, refl, ◌∙◌,
  Bool-cases, inl, inr, ge→ltb, arith,
}
use obsidian_kernel.Net.Run.{Run, done, ◌>>=◌}
use obsidian_kernel.Net.Wire.{Ipv4Hdr, TcpHdr, tcp_bytes, tcp_read, swap16, swap32}
use obsidian_kernel.Net.Link.{Nic, Net, TcpState, tcp_closed, tcp_syn_sent, tcp_established}
use obsidian_kernel.Net.Ip.Send.{ipv4_send-card}
use obsidian_kernel.Net.Ip.{next_hop}
use obsidian_kernel.Net.Tcp.{
  same_state, has_flag, tcp_fin, tcp_syn, tcp_rst, tcp_ack, tcp_close, tcp_accept, tcp_receive,
  tcp_rx, with_checksum, tcp_fields, proto_tcp, window,
}

-- The state after a segment with these flags.
abbrev pub next_state : TcpState → ℕ → TcpState
next_state st flags =
    if same_state st tcp_syn_sent && has_flag flags tcp_syn
    then tcp_established
    else if has_flag flags tcp_rst
    then tcp_closed
    else if same_state st tcp_established && has_flag flags tcp_fin
    then tcp_closed
    else st

module _ {N : Type 0} (nic : Nic N) (net_poll : Net N → Run (Net N)) where
  -- A result in a state of the connection.
  abbrev pub EndsIn : Run (Net N) → TcpState → Type 0
  EndsIn r st = (t : Net N) × (r ≡ done t) × (t.st ≡ st)

  tcp_close-EndsIn :
      (ip : ℕ) (s : Net N)
      → s.arp_spa ≡ next_hop ip s
      → (ok : Bool) × (t : Net N) × (tcp_close nic net_poll ip s ≡ done (ok, t))
        × (t.st ≡ (if same_state s.st tcp_established then tcp_closed else s.st))
  unfolding tcp_close
  tcp_close-EndsIn ip s c = elim (Bool-cases (same_state s.st tcp_established)) [
    | inl e ↦
        (let t = with_checksum s.local_ip (swap32 ip) [] (
            tcp_fields (swap16 s.lport) (swap16 s.rport_want) s.lseq s.rseq (bit_or tcp_fin tcp_ack)
              0) in
          let (ok, card, sent) = ipv4_send-card nic net_poll ip proto_tcp (tcp_bytes t) s c in
          (true, record s { card = card; st = tcp_closed }, rw (e, sent) refl, rw e refl))
    | inr e ↦ (false, s, rw e refl, rw e refl)
  ]

  tcp_accept-EndsIn :
      (t : TcpHdr) (src : ℕ) (ip : Ipv4Hdr) (s : Net N)
      → s.arp_spa ≡ next_hop src s
      → EndsIn (tcp_accept nic net_poll t src ip s) tcp_established
  unfolding tcp_accept next_hop
  tcp_accept-EndsIn t src ip s c =
      let r =
        with_checksum s.local_ip ip.src []
          (tcp_fields t.dport t.sport (swap32 t.ack) (u32 (swap32 t.seq + 1)) tcp_ack window) in
      let u = record s { rseq = u32 (swap32 t.seq + 1); lseq = swap32 t.ack } in
      let (ok, card, sent) = ipv4_send-card nic net_poll src proto_tcp (tcp_bytes r) u c in
      (record u { card = card; st = tcp_established }, rw sent refl, refl)

  -- The test for FIN, in the state after the acknowledgement is noted.
  finish_receive :
      (t : TcpHdr) (src : ℕ) (s u : Net N)
      → has_flag t.flags tcp_rst ≡ false
      → u.st ≡ s.st
      → u.arp_spa ≡ next_hop src u
      → tcp_receive nic net_poll t src s ≡ (
          if has_flag t.flags tcp_fin
          then tcp_close nic net_poll src u >>= (λ r. done r.1)
          else done u)
      → EndsIn (tcp_receive nic net_poll t src s) (
          if has_flag t.flags tcp_rst
          then tcp_closed
          else if same_state s.st tcp_established && has_flag t.flags tcp_fin
          then tcp_closed
          else s.st)
  finish_receive t src s u e same c eq = elim (Bool-cases (has_flag t.flags tcp_fin)) [
    | inl f ↦
        (let (ok, w, r, st) = tcp_close-EndsIn src u c in
          (w, eq ∙ rw (f, r) refl, rw (e, f) (ground (arith, st, same))))
    | inr f ↦ (u, eq ∙ rw f refl, rw (e, f) (ground (arith, same)))
  ]

  tcp_receive-EndsIn :
      (t : TcpHdr) (src : ℕ) (s : Net N)
      → s.arp_spa ≡ next_hop src s
      → EndsIn (tcp_receive nic net_poll t src s) (
          if has_flag t.flags tcp_rst
          then tcp_closed
          else if same_state s.st tcp_established && has_flag t.flags tcp_fin
          then tcp_closed
          else s.st)
  unfolding tcp_receive next_hop
  tcp_receive-EndsIn t src s c = elim (Bool-cases (has_flag t.flags tcp_rst)) [
    | inl e ↦ (record s { st = tcp_closed }, rw e refl, rw e refl)
    | inr e ↦ elim (Bool-cases (has_flag t.flags tcp_ack)) [
      | inl a ↦ finish_receive t src s (record s { rseq = swap32 t.seq }) e refl c (rw (e, a) refl)
      | inr a ↦ finish_receive t src s s e refl c (rw (e, a) refl)
    ]
  ]

  -- With the address of the next hop known, a segment of at least a header takes the connection to the
  -- next state of its state and the segment's flags.
  pub tcp_rx-next_state :
      (seg : List ℕ) (len src : ℕ) (ip : Ipv4Hdr) (s : Net N)
      → s.arp_spa ≡ next_hop src s
      → 20 ≤ len
      → EndsIn (tcp_rx nic net_poll seg len src ip s) (next_state s.st (tcp_read seg).flags)
  unfolding tcp_rx
  tcp_rx-next_state seg len src ip s c h =
      let t = tcp_read seg in
      rw (ge→ltb len 20 h)
        (elim (Bool-cases (same_state s.st tcp_syn_sent && has_flag t.flags tcp_syn)) [
          | inl e ↦ rw e (tcp_accept-EndsIn t src ip s c)
          | inr e ↦ rw e (tcp_receive-EndsIn t src s c)
        ])
