-- ===== src/Net/Tests.antt =====
-- The network stack with a card that delivers the frames of a queue and keeps what is sent.
use obsidian_kernel.Base.{
  ℕ, u32, ◌*◌, ◌+◌, ◌/◌, ◌%◌, ◌^◌, ◌<◌, ◌≤◌, true, List, [], ◌∷◌, ◌++◌, Option, none, some, ◌≡◌,
  ◌↔◌, refl, length, replicate, inl, arith,
}
use obsidian_kernel.Net.Run.{done, overrun}
use obsidian_kernel.Net.Wire.{ipv4_bytes, ipv4_read, tcp_read, swap32}
use obsidian_kernel.Net.Checksum.{inet_csum}
use obsidian_kernel.Net.Checksum.Laws.{words_sum, inet_csum-words_sum}
use obsidian_kernel.Net.Link.{
  Nic, Net, boot, tcp_syn_sent, tcp_established, eth_send, ethertype_ipv4,
}
use obsidian_kernel.Net.Ip.{ipv4_header, next_hop}
use obsidian_kernel.Net.Ip.Header.{ipv4_header_checked}
use obsidian_kernel.Net.Tcp.{pseudo_header, tcp_rx, tcp_send, proto_tcp}
use obsidian_kernel.Net.Tcp.Payload.{sent_segment, sent_checksum, tcp_send-received}
use obsidian_kernel.Net.Tcp.States.{EndsIn, next_state, tcp_rx-next_state}
use obsidian_kernel.Net.Poll.{net_poll, ipv4_rx}
use obsidian_kernel.Net.Poll.Ends.{IsFinite, Ends, here, net_poll-Ends}
use obsidian_kernel.Net.Poll.Safety.{ipv4_rx-overrun}

record Card : Type 0 where
  queue : List (List ℕ)
  sent : List (List ℕ)

abbrev next_frame : List (List ℕ) → List (List ℕ) → Option (List ℕ) × Card
next_frame [] sent = (none, record { queue = []; sent = sent })
next_frame (f ∷ queue) sent = (some f, record { queue = queue; sent = sent })

abbrev card_nic : Nic Card
card_nic = record {
  e1000_send = λ f c. (true, record c { sent = f ∷ c.sent });
  e1000_poll = λ c. next_frame c.queue c.sent;
  e1000_present = λ c. true;
}

abbrev waiting : Card → ℕ
waiting c = length c.queue

polled_lem :
    (queue sent : List (List ℕ)) (d : Card) (f : List ℕ)
    → next_frame queue sent ≡ (some f, d)
    → length d.queue < length queue
polled_lem [] sent d f e = grind arith
polled_lem (g ∷ queue) sent d f e = grind arith

idle_lem :
    (queue sent : List (List ℕ)) (d : Card)
    → next_frame queue sent ≡ (none, d)
    → length d.queue ≤ length queue
idle_lem [] sent d e = grind arith
idle_lem (g ∷ queue) sent d e = grind arith

card-IsFinite : IsFinite card_nic waiting
card-IsFinite = record {
  polled = λ c d f e. polled_lem c.queue c.sent d f e;
  idle = λ c d e. idle_lem c.queue c.sent d e;
  sent = λ c f. omega arith;
}

-- A type 8 message of nine bytes.
abbrev ping : List ℕ
ping = 8 ∷ 0 ∷ 247 ∷ 255 ∷ 0 ∷ 0 ∷ 0 ∷ 0 ∷ 7 ∷ []

-- The stack where the gateway's address is known.
abbrev resolved : List (List ℕ) → Net Card
resolved queue = record (boot (record { queue = queue; sent = [] })) { arp_spa = 0x0200020A }

gateway : 0x0200020A ≡ next_hop 0x08080808 (resolved [])
unfolding next_hop
gateway = refl

inet_csum-words_sum_example :
    ((words_sum ping + words_sum [] + inet_csum ping []) % 65535 ≡ 0) × (inet_csum ping [] < 2 ^ 16)
inet_csum-words_sum_example =
    inet_csum-words_sum ping [] (omega arith) tt refl (omega arith) (omega arith)

ipv4_header_checked_example :
    (words_sum (ipv4_bytes (ipv4_header 0x0F00020A 0x0200020A 1 9)) % 65535 ≡ 0) ↔ (
      (ipv4_header 0x0F00020A 0x0200020A 1 9).csum / 256
      ≡ (ipv4_header 0x0F00020A 0x0200020A 1 9).csum % 256)
ipv4_header_checked_example = ipv4_header_checked 0x0F00020A 0x0200020A 1 9

-- An ARP reply of another host: operation 2 in network order.
abbrev announcement : List ℕ
announcement = 0 ∷ 1 ∷ 8 ∷ 0 ∷ 6 ∷ 4 ∷ 0 ∷ 2 ∷ replicate 20 9

-- The stack with an open connection.
abbrev connected : Net Card
connected = record (resolved []) { st = tcp_established }

tcp_send-received_example :
    (let seg = sent_segment 0x08080808 ping connected in
      (tcp_send card_nic (λ s. done s) 0x08080808 ping connected
        ≡ done (
            eth_send card_nic ethertype_ipv4 connected.arp_tha
              (ipv4_bytes (ipv4_header connected.local_ip 0x08080808 proto_tcp (length seg)) ++ seg)
              (record connected { lseq = u32 (connected.lseq + 9) })))
      × ((words_sum (pseudo_header connected.local_ip (swap32 0x08080808) 9) + words_sum seg)
            % 65535
          ≡ (255 * sent_checksum 0x08080808 ping connected + words_sum ping) % 65535))
unfolding next_hop
tcp_send-received_example =
    tcp_send-received card_nic (λ s. done s) 0x08080808 ping connected refl (omega arith) refl

-- The answer to a SYN of this stack.
abbrev answer : List ℕ
answer = replicate 12 1 ++ (0x50 ∷ 0x12 ∷ replicate 6 0)

abbrev asked : Net Card
asked = record (resolved []) { st = tcp_syn_sent }

tcp_rx-next_state_example :
    EndsIn card_nic
      (net_poll card_nic 3)
      (tcp_rx card_nic (net_poll card_nic 3) answer 20 0x08080808 (ipv4_read answer) asked)
      (next_state tcp_syn_sent (tcp_read answer).flags)
unfolding next_hop
tcp_rx-next_state_example =
    tcp_rx-next_state card_nic (net_poll card_nic 3) answer 20 0x08080808 (ipv4_read answer) asked
      gateway (omega arith)

net_poll-Ends_example :
    Ends waiting here 2 (net_poll card_nic 3 (resolved (announcement ∷ ping ∷ [])))
net_poll-Ends_example =
    net_poll-Ends card_nic waiting card-IsFinite 3 (resolved (announcement ∷ ping ∷ []))
      (omega arith)

-- A packet of 24 bytes whose header claims 60; what follows it in the buffer begins with 8.
abbrev claims_60 : List ℕ
claims_60 = 0x4F ∷ (replicate 8 0 ++ (1 ∷ (replicate 50 0 ++ (8 ∷ []))))

ipv4_rx-overrun_example :
    ipv4_rx card_nic (net_poll card_nic 3) claims_60 24 (resolved []) ≡ overrun
unfolding ipv4_read
ipv4_rx-overrun_example =
    ipv4_rx-overrun card_nic (net_poll card_nic 3) claims_60 24 60 (resolved []) (omega arith)
      (omega arith) refl refl refl refl (inl (omega arith))
