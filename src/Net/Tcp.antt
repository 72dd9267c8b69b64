-- ===== src/Net/Tcp.antt =====
-- The TCP of net/stack.c: one connection, opened from this side.
pub mod Payload
pub mod States
use obsidian_kernel.Base.{
  ℕ, zero, suc, ◌+◌, ◌-◌, ◌*◌, ◌/◌, ◌%◌, ◌^◌, ◌==◌, ltb, ◌&&◌, ◌||◌, not, Bool, true, false, List,
  [], ◌∷◌, ◌++◌, if◌then◌else◌, length, u8, u16, u32, bit_and, bit_or,
}
use obsidian_kernel.Net.Run.{Run, done, ◌>>=◌}
use obsidian_kernel.Net.Wire.{
  Ipv4Hdr, TcpHdr, tcp_bytes, tcp_read, tcp_size, le16, le32, swap16, swap32,
}
use obsidian_kernel.Net.Checksum.{inet_csum}
use obsidian_kernel.Net.Link.{
  Nic, Net, TcpState, tcp_closed, tcp_syn_sent, tcp_established, tcp_fin_wait,
}
use obsidian_kernel.Net.Ip.{ipv4_send}

abbrev pub tcp_fin : ℕ
tcp_fin = 0x01

abbrev pub tcp_syn : ℕ
tcp_syn = 0x02

abbrev pub tcp_rst : ℕ
tcp_rst = 0x04

abbrev pub tcp_psh : ℕ
tcp_psh = 0x08

abbrev pub tcp_ack : ℕ
tcp_ack = 0x10

abbrev pub proto_tcp : ℕ
proto_tcp = 6

-- `((4096 & 0xFF) << 8) | 0x00`
abbrev pub window : ℕ
window = bit_or (bit_and 4096 0xFF * 2 ^ 8) 0

abbrev pub same_state : TcpState → TcpState → Bool
same_state tcp_closed tcp_closed = true
same_state tcp_syn_sent tcp_syn_sent = true
same_state tcp_established tcp_established = true
same_state tcp_fin_wait tcp_fin_wait = true
same_state _ _ = false

abbrev pub has_flag : ℕ → ℕ → Bool
has_flag flags f = not (bit_and flags f == 0)

-- The pseudo header, for `plen` bytes of payload.
pub pseudo_header : ℕ → ℕ → ℕ → List ℕ
pseudo_header local_ip peer plen =
    le32 (swap32 local_ip) ++ (le32 peer ++ (0 ∷ proto_tcp ∷ le16 (swap16 (tcp_size + plen))))

pub tcp_checksum : ℕ → ℕ → TcpHdr → List ℕ → ℕ
tcp_checksum local_ip peer t payload =
    inet_csum (tcp_bytes t) (pseudo_header local_ip peer (length payload))

-- A header after `memset` and the assignments of its fields but the checksum.
pub tcp_fields : ℕ → ℕ → ℕ → ℕ → ℕ → ℕ → TcpHdr
tcp_fields sport dport seq ack flags win = record {
  sport = sport;
  dport = dport;
  seq = seq;
  ack = ack;
  off_res = 0x50;
  flags = flags;
  win = win;
  csum = 0;
  urg = 0;
}

pub with_checksum : ℕ → ℕ → List ℕ → TcpHdr → TcpHdr
with_checksum local_ip peer payload t = record t { csum = tcp_checksum local_ip peer t payload }

module _ {N : Type 0} (nic : Nic N) (net_poll : Net N → Run (Net N)) where
  -- `for (spin = 0; spin < 500000 && st == TCP_SYN_SENT; spin++) net_poll();`
  pub tcp_spin : ℕ → Net N → Run (Net N)
  tcp_spin zero s = done s
  tcp_spin (suc n) s = if same_state s.st tcp_syn_sent then net_poll s >>= tcp_spin n else done s

  abbrev pub tcp_spins : ℕ
  tcp_spins = 500000

  -- After the SYN has been handed over.
  pub tcp_wait : Bool × Net N → Run (Bool × Net N)
  tcp_wait (false, s) = done (false, s)
  tcp_wait (true, s) = do s ← tcp_spin tcp_spins s; done (same_state s.st tcp_established, s)

  -- True for the result 0, as in the functions after it.
  pub tcp_connect : ℕ → ℕ → Net N → Run (Bool × Net N)
  tcp_connect ip port s =
      if not (same_state s.st tcp_closed) || not (nic.e1000_present s.card)
      then done (false, s)
      else (do
        let t =
            with_checksum s.local_ip (swap32 ip) []
              (tcp_fields (swap16 s.lport) (swap16 port) 1000 0 tcp_syn window)
        let s = record s { rport_want = port; lseq = 1000; rseq = 0; st = tcp_syn_sent }
        sent ← ipv4_send nic net_poll ip proto_tcp (tcp_bytes t) s
        tcp_wait sent)

  pub tcp_send : ℕ → List ℕ → Net N → Run (Bool × Net N)
  tcp_send ip payload s =
      if not (same_state s.st tcp_established)
      then done (false, s)
      else if ltb 1400 (length payload)
      then done (false, s)
      else (let t = with_checksum s.local_ip (swap32 ip) payload (
            tcp_fields (swap16 s.lport) (swap16 s.rport_want) s.lseq s.rseq (bit_or tcp_ack tcp_psh)
              window) in
          ipv4_send nic net_poll ip proto_tcp (tcp_bytes t ++ payload)
            (record s { lseq = u32 (s.lseq + length payload) }))

  unfoldable pub tcp_close : ℕ → Net N → Run (Bool × Net N)
  tcp_close ip s = if not (same_state s.st tcp_established) then done (false, s) else (do
    let t =
        with_checksum s.local_ip (swap32 ip) [] (
          tcp_fields (swap16 s.lport) (swap16 s.rport_want) s.lseq s.rseq (bit_or tcp_fin tcp_ack)
            0)
    (ok, s) ← ipv4_send nic net_poll ip proto_tcp (tcp_bytes t) s
    done (true, record s { st = tcp_closed }))

  -- The answer to a SYN: the acknowledgement, and the connection is established.
  unfoldable pub tcp_accept : TcpHdr → ℕ → Ipv4Hdr → Net N → Run (Net N)
  tcp_accept t src ip s = do
    let rseq = u32 (swap32 t.seq + 1)
    let lseq = swap32 t.ack
    let r = with_checksum s.local_ip ip.src [] (tcp_fields t.dport t.sport lseq rseq tcp_ack window)
    (ok, s) ←
        ipv4_send nic net_poll src proto_tcp (tcp_bytes r) (record s { rseq = rseq; lseq = lseq })
    done (record s { st = tcp_established })

  -- The rest of `tcp_rx`, in a state where no SYN is awaited or the segment has none.
  unfoldable pub tcp_receive : TcpHdr → ℕ → Net N → Run (Net N)
  tcp_receive t src s =
      let s1 = if has_flag t.flags tcp_ack then record s { rseq = swap32 t.seq } else s in
      if has_flag t.flags tcp_rst
      then done (record s { st = tcp_closed })
      else if has_flag t.flags tcp_fin
      then (do (ok, s) ← tcp_close src s1; done s)
      else done s1

  unfoldable pub tcp_rx : List ℕ → ℕ → ℕ → Ipv4Hdr → Net N → Run (Net N)
  tcp_rx seg len src ip s =
      let t = tcp_read seg in
      if ltb len tcp_size
      then done s
      else if same_state s.st tcp_syn_sent && has_flag t.flags tcp_syn
      then tcp_accept t src ip s
      else tcp_receive t src s
