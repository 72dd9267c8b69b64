-- ===== src/Net/Link.antt =====
-- The state of the stack, the sending of Ethernet frames, and address resolution.
-- The card is behind the interface of drivers/net/e1000.h: a value of type `N`, and what sending,
-- polling and asking for it do with that value.
pub mod Laws
use obsidian_kernel.Base.{
  ℕ, zero, suc, ◌+◌, ◌-◌, ◌==◌, ltb, not, Bool, true, false, List, [], ◌∷◌, ◌++◌, Option, none,
  some, if◌then◌else◌, length, replicate,
}
use obsidian_kernel.Net.Run.{Run, done, ◌>>=◌}
use obsidian_kernel.Net.Wire.{ArpPkt, arp_bytes, le16, swap_type}

-- `e1000_send` is true for the result 0, and `e1000_poll` gives the frame, or `none` for 0 and -1.
pub record Nic (N : Type 0) : Type 0 where
  pub e1000_send : List ℕ → N → Bool × N
  pub e1000_poll : N → Option (List ℕ) × N
  pub e1000_present : N → Bool

pub data TcpState : Type 0 where
  tcp_closed tcp_syn_sent tcp_established tcp_fin_wait : TcpState

pub record Net (N : Type 0) : Type 0 where
  pub card : N
  pub local_mac : List ℕ
  pub local_ip : ℕ
  pub gateway_ip : ℕ
  pub arp_tha : List ℕ
  pub arp_spa : ℕ
  pub st : TcpState
  pub rseq : ℕ
  pub lseq : ℕ
  pub rport_want : ℕ
  pub lport : ℕ
  pub rxbuf : List ℕ

-- The static variables at the start.
abbrev pub boot : {N : Type 0} → N → Net N
boot card = record {
  card = card;
  local_mac = replicate 6 0;
  local_ip = 0x0F00020A;
  gateway_ip = 0x0200020A;
  arp_tha = replicate 6 0;
  arp_spa = 0;
  st = tcp_closed;
  rseq = 0;
  lseq = 0;
  rport_want = 0;
  lport = 40000;
  rxbuf = replicate 2048 0;
}

abbrev pub ethertype_arp : ℕ
ethertype_arp = 0x0806

abbrev pub ethertype_ipv4 : ℕ
ethertype_ipv4 = 0x0800

abbrev pub arp_spins : ℕ
arp_spins = 200000

-- `sizeof(struct eth_hdr)`
abbrev pub eth_size : ℕ
eth_size = 14

module _ {N : Type 0} where
  pub net_stack_set_mac : List ℕ → Net N → Net N
  net_stack_set_mac mac s = record s { local_mac = mac }

  pub net_stack_set_ip : ℕ → ℕ → Net N → Net N
  net_stack_set_ip ip gw s = record s { local_ip = ip; gateway_ip = gw }

  pub net_ip_addr : Net N → ℕ
  net_ip_addr s = s.local_ip

  pub net_mac_addr : Net N → List ℕ
  net_mac_addr s = s.local_mac

  -- With the address of `netdev_mac_first`, if there is one.
  pub net_stack_init : Option (List ℕ) → Net N → Net N
  net_stack_init none s = s
  net_stack_init (some mac) s = net_stack_set_mac mac s

  pub arp_reply : ArpPkt → Net N → ArpPkt
  arp_reply a s = record {
    htype = a.htype;
    ptype = a.ptype;
    hlen = 6;
    plen = 4;
    op = 0x0002;
    sha = s.local_mac;
    spa = s.local_ip;
    tha = a.sha;
    tpa = a.spa;
  }

  abbrev pub arp_request : ℕ → Net N → ArpPkt
  arp_request ip s = record {
    htype = 0x0100;
    ptype = 0x0008;
    hlen = 6;
    plen = 4;
    op = 0x0001;
    sha = s.local_mac;
    spa = s.local_ip;
    tha = replicate 6 0;
    tpa = ip;
  }

  unfoldable pub arp_cached : ℕ → Net N → Option (List ℕ) × Net N
  arp_cached ip s = if s.arp_spa == ip then (some s.arp_tha, s) else (none, s)

  -- `for (spin = 0; spin < 200000 && !arp_spa; spin++) net_poll();`, with the rounds left.
  unfoldable pub arp_spin : ℕ → (Net N → Run (Net N)) → Net N → Run (Net N)
  arp_spin zero net_poll s = done s
  arp_spin (suc n) net_poll s =
      if s.arp_spa == 0 then net_poll s >>= arp_spin n net_poll else done s

  module _ (nic : Nic N) where
    unfoldable pub eth_send : ℕ → List ℕ → List ℕ → Net N → Bool × Net N
    eth_send ethertype dst payload s =
        let frame = dst ++ (s.local_mac ++ (le16 (swap_type ethertype) ++ payload)) in
        let (ok, card) = nic.e1000_send frame s.card in
        if ltb (1600 - eth_size) (length payload)
        then (false, s)
        else (ok, record s { card = card })

    unfoldable pub arp_rx : ArpPkt → Net N → Net N
    arp_rx a s =
        if a.op == 0x0001
        then (eth_send ethertype_arp a.sha (arp_bytes (arp_reply a s)) s).1
        else if a.op == 0x0002
        then record s { arp_tha = a.sha; arp_spa = a.spa }
        else s

    -- The address, or `none` for the result false. `net_poll` is the function of that name.
    unfoldable pub arp_resolve : (Net N → Run (Net N)) → ℕ → Net N → Run (Option (List ℕ) × Net N)
    arp_resolve net_poll ip s = if s.arp_spa == ip then done (arp_cached ip s) else (do
      let broadcast = replicate 6 0xFF
      let asked = record s { arp_spa = 0 }
      let request = arp_bytes (arp_request ip s)
      s ← arp_spin arp_spins net_poll (eth_send ethertype_arp broadcast request asked).1
      done (arp_cached ip s))
