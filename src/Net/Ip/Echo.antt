-- ===== src/Net/Ip/Echo.antt =====
-- The reply to an ICMP echo request.
use obsidian_kernel.Base.{
  ℕ, zero, suc, ◌+◌, ◌/◌, ◌%◌, ◌^◌, ◌<◌, ◌≤◌, List, [], ◌∷◌, ◌++◌, ◌≡◌, refl, take, length, get_or,
  set, length-take, length-set, get_or-set_ne, get_or-set_self, AreBytes, u8, arith, ge→ltb, ==_iff,
}
use obsidian_kernel.Net.Run.{Run, done}
use obsidian_kernel.Net.Wire.{ipv4_bytes, read8}
use obsidian_kernel.Net.Checksum.{inet_csum}
use obsidian_kernel.Net.Checksum.Laws.{words_sum, inet_csum-words_sum}
use obsidian_kernel.Net.Link.{Nic, Net, eth_send, ethertype_ipv4}
use obsidian_kernel.Net.Link.Laws.{arp_resolve-cached}
use obsidian_kernel.Net.Ip.{
  echo_body, echo_reply, icmp_rx, ipv4_send, ipv4_transmit, ipv4_header, next_hop, proto_icmp,
}

pub take-AreBytes : (n : ℕ) (b : List ℕ) → AreBytes b → AreBytes (take n b)
take-AreBytes zero b h = tt
take-AreBytes (suc n) [] h = tt
take-AreBytes (suc n) (x ∷ b) h = (h.0, take-AreBytes n b h.1)

empty : words_sum [] ≡ 0
unfolding words_sum
empty = refl

-- Putting a checksum in the third and fourth byte adds it to the words.
words_sum-put :
    (r : List ℕ) (c : ℕ)
    → 4 ≤ length r
    → c < 2 ^ 16
    → get_or r 2 0 ≡ 0
    → get_or r 3 0 ≡ 0
    → words_sum (set (set r 2 (u8 (c / 2 ^ 8))) 3 (u8 c)) ≡ words_sum r + c
unfolding words_sum
words_sum-put [] c h s z y = absurd (omega arith)
words_sum-put (p ∷ []) c h s z y = absurd (omega arith)
words_sum-put (p ∷ q ∷ []) c h s z y = absurd (omega arith)
words_sum-put (p ∷ q ∷ r ∷ []) c h s z y = absurd (omega arith)
words_sum-put (p ∷ q ∷ r ∷ t ∷ rest) c h s z y = omega (arith, z, y)

set-AreBytes : (b : List ℕ) (i v : ℕ) → AreBytes b → v < 256 → AreBytes (set b i v)
set-AreBytes [] i v h k = tt
set-AreBytes (x ∷ b) zero v h k = (k, h.1)
set-AreBytes (x ∷ b) (suc i) v h k = (h.0, set-AreBytes b i v h.1 k)

-- The parts of `echo_body`: its length, its first bytes, and the bytes it keeps.
length-echo_body : (b : List ℕ) (n : ℕ) → n ≤ length b → length (echo_body b n) ≡ n
unfolding echo_body
length-echo_body b n h = grind (arith, length-set, length-take)

cleared :
    (b : List ℕ) (n : ℕ)
    → 4 ≤ n
    → n ≤ length b
    → (get_or (echo_body b n) 0 0 ≡ 0)
      × (get_or (echo_body b n) 2 0 ≡ 0)
      × (get_or (echo_body b n) 3 0 ≡ 0)
unfolding echo_body
cleared b n h k = grind (arith, length-set, length-take, get_or-set_self, get_or-set_ne)

get_or-take : (n i : ℕ) (b : List ℕ) → i < n → get_or (take n b) i 0 ≡ get_or b i 0
get_or-take zero i b h = absurd (omega arith)
get_or-take (suc n) i [] h = refl
get_or-take (suc n) zero (x ∷ b) h = refl
get_or-take (suc n) (suc i) (x ∷ b) h = get_or-take n i b (omega arith)

echo_body-kept : (b : List ℕ) (n i : ℕ) → 4 ≤ i → i < n → get_or (echo_body b n) i 0 ≡ get_or b i 0
unfolding echo_body
echo_body-kept b n i h k = grind (arith, get_or-set_ne, get_or-take n i b k)

echo_body-AreBytes : (b : List ℕ) (n : ℕ) → AreBytes b → AreBytes (echo_body b n)
unfolding echo_body
echo_body-AreBytes b n h =
    set-AreBytes (set (set (take n b) 0 0) 2 0) 3 0
      (set-AreBytes (set (take n b) 0 0) 2 0
        (set-AreBytes (take n b) 0 0 (take-AreBytes n b h) (omega arith)) (omega arith))
      (omega arith)

-- The reply to an echo request of at least eight bytes is of type 0 and as long as the request, has
-- the same bytes from the identifier on, and its words add up to a multiple of 65535, as a receiver
-- demands.
pub echo_reply_checked :
    (b : List ℕ) (n : ℕ)
    → AreBytes b
    → 8 ≤ n
    → n ≤ length b
    → n < 2 ^ 15
    → (length (echo_reply b n) ≡ n)
      × (get_or (echo_reply b n) 0 0 ≡ 0)
      × ((i : ℕ) → 4 ≤ i → i < n → get_or (echo_reply b n) i 0 ≡ get_or b i 0)
      × (words_sum (echo_reply b n) % 65535 ≡ 0)
unfolding echo_reply
echo_reply_checked b n bytes h k s =
    let body = echo_body b n in
    let c = inet_csum body [] in
    let len = length-echo_body b n k in
    let clear = cleared b n (omega arith) k in
    let sum =
      inet_csum-words_sum body [] (echo_body-AreBytes b n bytes) tt (omega arith)
        (omega (arith, len)) (omega arith) in
    (
      grind (arith, length-set, len),
      grind (arith, get_or-set_ne, clear),
      (λ i p q. grind (arith, get_or-set_ne, echo_body-kept b n i p q)),
      omega (arith, sum, words_sum-put body c (omega (arith, len)) sum.1 clear.1 clear.2, empty),
    )

length-echo_reply : (b : List ℕ) (n : ℕ) → n ≤ length b → length (echo_reply b n) ≡ n
unfolding echo_reply
length-echo_reply b n h = grind (arith, length-set, length-echo_body b n h)

-- If the next hop's address is known, an echo request of 8 to 1480 bytes is answered by one frame to
-- that hop, of an IPv4 header and the reply to the request.
pub icmp_rx-echo :
    {N : Type 0} (nic : Nic N) (net_poll : Net N → Run (Net N)) (body : List ℕ) (len src : ℕ)
    (s : Net N)
    → 8 ≤ len
    → len ≤ 1480
    → len ≤ length body
    → read8 body 0 ≡ 8
    → s.arp_spa ≡ next_hop src s
    → icmp_rx nic net_poll body len src s
      ≡ done
          (eth_send nic ethertype_ipv4 s.arp_tha
            (ipv4_bytes (ipv4_header s.local_ip src proto_icmp len) ++ echo_reply body len)
            s).1
unfolding icmp_rx ipv4_send ipv4_transmit
icmp_rx-echo nic net_poll body len src s h k m e c =
    let whole : length (echo_reply body len) ≡ len = length-echo_reply body len m in
    rw
      (
        ge→ltb len 8 h,
        (==_iff (read8 body 0) 8).1 e,
        ge→ltb 1500 len (omega arith),
        arp_resolve-cached nic net_poll (next_hop src s) s c,
        whole,
        ge→ltb 1480 len k,
      )
      refl
