-- ===== src/Net/Wire.antt =====
-- The packed structures of net/stack.c as bytes, and the changes of byte order.
pub mod Laws
pub use obsidian_kernel.Base.{le16, le32, read8, read16, read32}
use obsidian_kernel.Base.{
  ℕ, ◌+◌, ◌*◌, ◌/◌, ◌%◌, ◌^◌, List, [], ◌∷◌, ◌++◌, get_or, take, drop, u8, u16, u32, bit_and,
  bit_or,
}

-- `(u16)((x >> 8) | (x << 8))`
pub swap_type : ℕ → ℕ
swap_type x = u16 (bit_or (x / 2 ^ 8) (x * 2 ^ 8))

-- `((x & 0xFF) << 8) | (x >> 8)` of a 16-bit `x`
pub swap16 : ℕ → ℕ
swap16 x = u16 (bit_or (bit_and x 0xFF * 2 ^ 8) (x / 2 ^ 8))

-- The four fields of a 32-bit `x` in the opposite order.
pub swap32 : ℕ → ℕ
swap32 x =
    bit_or
      (bit_or (bit_or (u32 (bit_and x 0xFF * 2 ^ 24)) (u32 (bit_and x 0xFF00 * 2 ^ 8)))
        (bit_and (x / 2 ^ 8) 0xFF00))
      (bit_and (x / 2 ^ 24) 0xFF)

-- `struct arp_pkt`
pub record ArpPkt : Type 0 where
  pub htype : ℕ
  pub ptype : ℕ
  pub hlen : ℕ
  pub plen : ℕ
  pub op : ℕ
  pub sha : List ℕ
  pub spa : ℕ
  pub tha : List ℕ
  pub tpa : ℕ

abbrev pub arp_size : ℕ
arp_size = 28

unfoldable pub arp_bytes : ArpPkt → List ℕ
arp_bytes a =
    le16 a.htype
    ++ (le16 a.ptype
        ++ (u8 a.hlen
            ∷ u8 a.plen
            ∷ (le16 a.op ++ (a.sha ++ (le32 a.spa ++ (a.tha ++ le32 a.tpa))))))

unfoldable pub arp_read : List ℕ → ArpPkt
arp_read b = record {
  htype = read16 b 0;
  ptype = read16 b 2;
  hlen = read8 b 4;
  plen = read8 b 5;
  op = read16 b 6;
  sha = take 6 (drop 8 b);
  spa = read32 b 14;
  tha = take 6 (drop 18 b);
  tpa = read32 b 24;
}

-- `struct ipv4_hdr`
pub record Ipv4Hdr : Type 0 where
  pub ver_ihl : ℕ
  pub tos : ℕ
  pub len : ℕ
  pub id : ℕ
  pub frag : ℕ
  pub ttl : ℕ
  pub proto : ℕ
  pub csum : ℕ
  pub src : ℕ
  pub dst : ℕ

abbrev pub ipv4_size : ℕ
ipv4_size = 20

unfoldable pub ipv4_bytes : Ipv4Hdr → List ℕ
ipv4_bytes h =
    u8 h.ver_ihl
    ∷ u8 h.tos
    ∷ (le16 h.len
        ++ (le16 h.id
            ++ (le16 h.frag
                ++ (u8 h.ttl ∷ u8 h.proto ∷ (le16 h.csum ++ (le32 h.src ++ le32 h.dst))))))

unfoldable pub ipv4_read : List ℕ → Ipv4Hdr
ipv4_read b = record {
  ver_ihl = read8 b 0;
  tos = read8 b 1;
  len = read16 b 2;
  id = read16 b 4;
  frag = read16 b 6;
  ttl = read8 b 8;
  proto = read8 b 9;
  csum = read16 b 10;
  src = read32 b 12;
  dst = read32 b 16;
}

-- `struct udp_hdr`
pub record UdpHdr : Type 0 where
  pub sport : ℕ
  pub dport : ℕ
  pub len : ℕ
  pub csum : ℕ

abbrev pub udp_size : ℕ
udp_size = 8

pub udp_bytes : UdpHdr → List ℕ
udp_bytes h = le16 h.sport ++ (le16 h.dport ++ (le16 h.len ++ le16 h.csum))

-- `struct tcp_hdr`
pub record TcpHdr : Type 0 where
  pub sport : ℕ
  pub dport : ℕ
  pub seq : ℕ
  pub ack : ℕ
  pub off_res : ℕ
  pub flags : ℕ
  pub win : ℕ
  pub csum : ℕ
  pub urg : ℕ

abbrev pub tcp_size : ℕ
tcp_size = 20

unfoldable pub tcp_bytes : TcpHdr → List ℕ
tcp_bytes h =
    le16 h.sport
    ++ (le16 h.dport
        ++ (le32 h.seq
            ++ (le32 h.ack
                ++ (u8 h.off_res ∷ u8 h.flags ∷ (le16 h.win ++ (le16 h.csum ++ le16 h.urg))))))

unfoldable pub tcp_read : List ℕ → TcpHdr
tcp_read b = record {
  sport = read16 b 0;
  dport = read16 b 2;
  seq = read32 b 4;
  ack = read32 b 8;
  off_res = read8 b 12;
  flags = read8 b 13;
  win = read16 b 14;
  csum = read16 b 16;
  urg = read16 b 18;
}
