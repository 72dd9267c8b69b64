-- ===== src/Net/Poll/Ends.antt =====
-- `net_poll` comes to an end when the card runs out of frames, although a frame's handling polls again.
use obsidian_kernel.Base.{
  ℕ, zero, suc, ◌+◌, ◌-◌, ◌≤◌, ◌<◌, ◌==◌, ltb, leb, ◌&&◌, not, Bool, true, false, List, ◌++◌,
  Option, none, some, if◌then◌else◌, length, replicate, u16, bit_and, ◌*◌, ◌/◌, ◌^◌, drop, ◌≡◌,
  refl, arith, Bool-cases, inl, inr,
}
use obsidian_kernel.Net.Run.{Run, done, overrun, unfinished, ◌>>=◌}
use obsidian_kernel.Net.Wire.{
  ArpPkt, Ipv4Hdr, TcpHdr, arp_bytes, arp_size, arp_read, le16, swap_type, swap32, ipv4_bytes,
  ipv4_read, ipv4_size, read8, read16, tcp_read, tcp_size,
}
use obsidian_kernel.Net.Link.{
  Nic, Net, eth_send, arp_rx, arp_spin, arp_spins, arp_cached, arp_resolve, tcp_closed,
  tcp_established, tcp_syn_sent, eth_size, ethertype_arp, ethertype_ipv4, arp_request, arp_reply,
}
use obsidian_kernel.Net.Ip.{
  ipv4_transmit, ipv4_send, icmp_rx, ipv4_header, next_hop, proto_icmp, echo_reply,
}
use obsidian_kernel.Net.Tcp.{
  proto_tcp, same_state, has_flag, tcp_ack, tcp_rst, tcp_fin, tcp_syn, tcp_close, tcp_accept,
  tcp_receive, tcp_rx,
}
use obsidian_kernel.Net.Poll.{ipv4_rx, frame_rx, poll_round, received, net_poll}

-- A card with a number of frames that it still delivers: a frame delivered lowers it, and nothing
-- else raises it.
pub record IsFinite {N : Type 0} (nic : Nic N) (waiting : N → ℕ) : Type 0 where
  pub polled : (c d : N) (f : List ℕ) → nic.e1000_poll c ≡ (some f, d) → waiting d < waiting c
  pub idle : (c d : N) → nic.e1000_poll c ≡ (none, d) → waiting d ≤ waiting c
  pub sent : (c : N) (f : List ℕ) → waiting (nic.e1000_send f c).1 ≤ waiting c

abbrev pub here : {N : Type 0} → Net N → Net N
here s = s

abbrev pub beside : {N A : Type 0} → A × Net N → Net N
beside r = r.1

-- The run does not stop for want of fuel, and leaves at most `n` frames waiting.
abbrev pub Ends : {N A : Type 0} → (N → ℕ) → (A → Net N) → ℕ → Run A → Type 0
Ends waiting state n (done a) = waiting (state a).card ≤ n
Ends waiting state n overrun = Unit
Ends waiting state n unfinished = ⊥

module _ {N : Type 0} (nic : Nic N) (waiting : N → ℕ) (finite : IsFinite nic waiting) where
  bind-Ends :
      {A : Type 0} {B : Type 0} (p : A → Net N) (q : B → Net N) (n : ℕ) (m : Run A) (f : A → Run B)
      → Ends waiting p n m
      → ((a : A) → waiting (p a).card ≤ n → Ends waiting q n (f a))
      → Ends waiting q n (m >>= f)
  bind-Ends p q n (done a) f h k = k a h
  bind-Ends p q n overrun f h k = tt
  bind-Ends p q n unfinished f h k = elim h [ ]

  if-Ends :
      {A : Type 0} (p : A → Net N) (n : ℕ) (b : Bool) (x y : Run A)
      → Ends waiting p n x
      → Ends waiting p n y
      → Ends waiting p n (if b then x else y)
  if-Ends p n true x y h k = h
  if-Ends p n false x y h k = k

  eth_send-waiting :
      (kind : ℕ) (mac b : List ℕ) (s : Net N) (n : ℕ)
      → waiting s.card ≤ n
      → waiting (eth_send nic kind mac b s).1.card ≤ n
  unfolding eth_send
  eth_send-waiting kind mac b s n h =
      let frame = mac ++ (s.local_mac ++ (le16 (swap_type kind) ++ b)) in
      let less = finite.sent s.card frame in
      elim (Bool-cases (ltb (1600 - eth_size) (length b))) [
        | inl e ↦ rw e h
        | inr e ↦ rw e (omega (arith, less))
      ]

  arp_rx-waiting :
      (a : ArpPkt) (s : Net N) (n : ℕ) → waiting s.card ≤ n → waiting (arp_rx nic a s).card ≤ n
  unfolding arp_rx
  arp_rx-waiting a s n h = elim (Bool-cases (a.op == 1)) [
    | inl e ↦ rw e (eth_send-waiting ethertype_arp a.sha (arp_bytes (arp_reply a s)) s n h)
    | inr e ↦ rw e (elim (Bool-cases (a.op == 2)) [ inl f ↦ rw f h | inr f ↦ rw f h ])
  ]

  module _ (n : ℕ) (poll : Net N → Run (Net N))
      (ends : (s : Net N) → waiting s.card ≤ n → Ends waiting here n (poll s)) where
    arp_spin-Ends :
        (k : ℕ) (s : Net N) → waiting s.card ≤ n → Ends waiting here n (arp_spin k poll s)
    unfolding arp_spin
    arp_spin-Ends zero s h = h
    arp_spin-Ends (suc k) s h =
        if-Ends here n (s.arp_spa == 0) (poll s >>= arp_spin k poll) (done s)
          (bind-Ends here here n (poll s) (arp_spin k poll) (ends s h) (arp_spin-Ends k)) h

    arp_resolve-Ends :
        (ip : ℕ) (s : Net N)
        → waiting s.card ≤ n
        → Ends waiting beside n (arp_resolve nic poll ip s)
    unfolding arp_resolve arp_cached
    arp_resolve-Ends ip s h =
        let asked = record s { arp_spa = 0 } in
        let request = arp_bytes (arp_request ip s) in
        elim (Bool-cases (s.arp_spa == ip)) [
          | inl e ↦ rw e h
          | inr e ↦ rw e (
              bind-Ends here beside n
                (arp_spin arp_spins poll
                  (eth_send nic ethertype_arp (replicate 6 0xFF) request asked).1)
                (λ t. done (arp_cached ip t))
                (arp_spin-Ends arp_spins
                  (eth_send nic ethertype_arp (replicate 6 0xFF) request asked).1
                  (eth_send-waiting ethertype_arp (replicate 6 0xFF) request asked n h))
                (arp_cached-waiting ip))
        ]
      where
        arp_cached-waiting :
            (ip : ℕ) (t : Net N) → waiting t.card ≤ n → waiting (arp_cached ip t).1.card ≤ n
        arp_cached-waiting ip t h = elim (Bool-cases (t.arp_spa == ip)) [
          | inl e ↦ rw e h
          | inr e ↦ rw e h
        ]

    transmit-Ends :
        (dst proto : ℕ) (seg : List ℕ) (r : Option (List ℕ) × Net N)
        → waiting r.1.card ≤ n
        → Ends waiting beside n (ipv4_transmit nic poll dst proto seg r)
    unfolding ipv4_transmit
    transmit-Ends dst proto seg (none, s) h = h
    transmit-Ends dst proto seg (some mac, s) h = elim (Bool-cases (ltb 1480 (length seg))) [
      | inl e ↦ rw e h
      | inr e ↦ rw e (
          eth_send-waiting ethertype_ipv4 mac
            (ipv4_bytes (ipv4_header s.local_ip dst proto (length seg)) ++ seg) s n h)
    ]

    ipv4_send-Ends :
        (dst proto : ℕ) (seg : List ℕ) (s : Net N)
        → waiting s.card ≤ n
        → Ends waiting beside n (ipv4_send nic poll dst proto seg s)
    unfolding ipv4_send
    ipv4_send-Ends dst proto seg s h =
        bind-Ends beside beside n (arp_resolve nic poll (next_hop dst s) s)
          (ipv4_transmit nic poll dst proto seg) (arp_resolve-Ends (next_hop dst s) s h)
          (transmit-Ends dst proto seg)

    -- What goes on with the state after something is sent.
    after_send-Ends :
        {B : Type 0} (q : B → Net N) (dst proto : ℕ) (seg : List ℕ) (s : Net N)
        (f : Bool × Net N → Run B)
        → waiting s.card ≤ n
        → ((r : Bool × Net N) → waiting r.1.card ≤ n → Ends waiting q n (f r))
        → Ends waiting q n (ipv4_send nic poll dst proto seg s >>= f)
    after_send-Ends q dst proto seg s f h k =
        bind-Ends beside q n (ipv4_send nic poll dst proto seg s) f
          (ipv4_send-Ends dst proto seg s h) k

    icmp_rx-Ends :
        (body : List ℕ) (len src : ℕ) (s : Net N)
        → waiting s.card ≤ n
        → Ends waiting here n (icmp_rx nic poll body len src s)
    unfolding icmp_rx
    icmp_rx-Ends body len src s h =
        let send =
          after_send-Ends here src proto_icmp (echo_reply body len) s (λ r. done r.1) h
            (λ r k. k) in
        if-Ends here n (ltb len 8) _ _ h (
          if-Ends here n (not (read8 body 0 == 8)) _ _ h
            (if-Ends here n (ltb 1500 len) _ _ tt send))

    tcp_close-Ends :
        (ip : ℕ) (s : Net N) → waiting s.card ≤ n → Ends waiting beside n (tcp_close nic poll ip s)
    unfolding tcp_close
    tcp_close-Ends ip s h = if-Ends beside n (not (same_state s.st tcp_established)) _ _ h (
        after_send-Ends beside ip proto_tcp _ s (λ r. done (true, record r.1 { st = tcp_closed })) h
          (λ r k. k))

    tcp_accept-Ends :
        (t : TcpHdr) (src : ℕ) (ip : Ipv4Hdr) (s : Net N)
        → waiting s.card ≤ n
        → Ends waiting here n (tcp_accept nic poll t src ip s)
    unfolding tcp_accept
    tcp_accept-Ends t src ip s h =
        after_send-Ends here src proto_tcp _ _ (λ r. done (record r.1 { st = tcp_established })) h
          (λ r k. k)

    tcp_receive-Ends :
        (t : TcpHdr) (src : ℕ) (s : Net N)
        → waiting s.card ≤ n
        → Ends waiting here n (tcp_receive nic poll t src s)
    unfolding tcp_receive
    tcp_receive-Ends t src s h =
        let noted = if has_flag t.flags tcp_ack then record s { rseq = swap32 t.seq } else s in
        let same : waiting noted.card ≤ n = elim (Bool-cases (has_flag t.flags tcp_ack)) [
          | inl e ↦ rw e h
          | inr e ↦ rw e h
        ] in
        if-Ends here n (has_flag t.flags tcp_rst) _ _ h (
          if-Ends here n (has_flag t.flags tcp_fin) _ _
            (bind-Ends beside here n (tcp_close nic poll src noted) (λ r. done r.1)
              (tcp_close-Ends src noted same) (λ r k. k))
            same)

    tcp_rx-Ends :
        (seg : List ℕ) (len src : ℕ) (ip : Ipv4Hdr) (s : Net N)
        → waiting s.card ≤ n
        → Ends waiting here n (tcp_rx nic poll seg len src ip s)
    unfolding tcp_rx
    tcp_rx-Ends seg len src ip s h =
        let t = tcp_read seg in
        if-Ends here n (ltb len tcp_size) _ _ h (
          if-Ends here n (same_state s.st tcp_syn_sent && has_flag t.flags tcp_syn) _ _
            (tcp_accept-Ends t src ip s h) (tcp_receive-Ends t src s h))

    ipv4_rx-Ends :
        (pkt : List ℕ) (len : ℕ) (s : Net N)
        → waiting s.card ≤ n
        → Ends waiting here n (ipv4_rx nic poll pkt len s)
    unfolding ipv4_rx
    ipv4_rx-Ends pkt len s h =
        let ip = ipv4_read pkt in
        let hlen = bit_and ip.ver_ihl 0xF * 4 in
        let src = swap32 ip.src in
        let left = u16 (len + 2 ^ 16 - hlen) in
        if-Ends here n (ltb len ipv4_size) _ _ h (
          if-Ends here n (not (ip.ver_ihl / 2 ^ 4 == 4)) _ _ h (
            if-Ends here n (ip.proto == proto_icmp) _ _ (icmp_rx-Ends (drop hlen pkt) left src s h)
              (if-Ends here n (ip.proto == proto_tcp) _ _
                (tcp_rx-Ends (drop hlen pkt) left src ip s h) h)))

    frame_rx-Ends :
        (got : ℕ) (s : Net N) → waiting s.card ≤ n → Ends waiting here n (frame_rx nic poll got s)
    unfolding frame_rx
    frame_rx-Ends got s h =
        let kind = swap_type (read16 s.rxbuf 12) in
        if-Ends here n (kind == ethertype_arp) _ _
          (if-Ends here n (leb (eth_size + arp_size) got) _ _
            (arp_rx-waiting (arp_read (drop eth_size s.rxbuf)) s n h) h)
          (if-Ends here n (kind == ethertype_ipv4) _ _
            (ipv4_rx-Ends (drop eth_size s.rxbuf) (u16 (got - eth_size)) s h) h)

  -- More frames allowed for is no worse.
  Ends-le : (m n : ℕ) (r : Run (Net N)) → m ≤ n → Ends waiting here m r → Ends waiting here n r
  Ends-le m n (done s) h e = omega arith
  Ends-le m n overrun h e = tt
  Ends-le m n unfinished h e = elim e [ ]

  round-Ends :
      (fuel : ℕ) (s : Net N) (r : Option (List ℕ) × N)
      → nic.e1000_poll s.card ≡ r
      → waiting s.card < suc fuel
      → ((t : Net N)
          → waiting t.card < fuel
          → Ends waiting here (waiting t.card) (net_poll nic fuel t))
      → Ends waiting here (waiting s.card) (poll_round nic (net_poll nic fuel) s r)
  unfolding poll_round received
  round-Ends fuel s (none, card) e h ih = finite.idle s.card card e
  round-Ends fuel s (some frame, card) e h ih =
      let fewer = finite.polled s.card card frame e in
      let n = waiting card in
      let arrived = received nic frame card s in
      let poll = net_poll nic fuel in
      let again : (t : Net N) → waiting t.card ≤ n → Ends waiting here n (poll t) =
        λ t k. Ends-le (waiting t.card) n (poll t) k (ih t (omega arith)) in
      if-Ends here (waiting s.card) (leb (length frame) eth_size) _ _ (omega arith) (
        Ends-le n (waiting s.card) (frame_rx nic poll (length frame) arrived >>= poll) (omega arith)
          (bind-Ends here here n (frame_rx nic poll (length frame) arrived) poll
            (frame_rx-Ends n poll again (length frame) arrived (omega arith)) again))

  -- With more fuel than the card has frames waiting, `net_poll` does not run out of it: it returns with
  -- no more frames waiting than before, or a reply is written past the end of its buffer.
  pub net_poll-Ends :
      (fuel : ℕ) (s : Net N)
      → waiting s.card < fuel
      → Ends waiting here (waiting s.card) (net_poll nic fuel s)
  unfolding net_poll
  net_poll-Ends zero s h = absurd (omega arith)
  net_poll-Ends (suc fuel) s h =
      round-Ends fuel s (nic.e1000_poll s.card) refl h (net_poll-Ends fuel)
