-- ===== src/Nic/Packet.antt =====
-- What nic/tcp.c and nic/udp.c have in common: the addresses and the payload, the IPv4 header and the
-- Ethernet header.
use modules.Common.{
  ℕ, ◌+◌, ◌-◌, ◌≡◌, List, [], ◌∷◌, ◌++◌, ℤ, pos, set, codes, is_neg, if◌then◌else◌, Outcome, done,
  oops, arith, ap,
}
use modules.Nic.Skb.{Skb, copy_to, be16}

abbrev pub payload : List ℕ
payload = codes "i want to send a packet within kernel" ++ 0 ∷ []

abbrev pub dstmac : List ℕ
dstmac = 0xd4 ∷ 0x3d ∷ 0x7e ∷ 0x12 ∷ 0x49 ∷ 0x06 ∷ []

abbrev pub srcmac : List ℕ
srcmac = 0x44 ∷ 0x37 ∷ 0xe6 ∷ 0xa6 ∷ 0xd6 ∷ 0xe0 ∷ []

abbrev pub dstip : List ℕ
dstip = 10 ∷ 0 ∷ 3 ∷ 58 ∷ []

abbrev pub srcip : List ℕ
srcip = 10 ∷ 0 ∷ 1 ∷ 199 ∷ []

abbrev pub sport : ℕ
sport = 5320

abbrev pub dport : ℕ
dport = 5321

-- ETH_P_IP, IPPROTO_TCP and IPPROTO_UDP of the kernel's headers.
abbrev pub eth_p_ip : ℕ
eth_p_ip = 0x0800

abbrev pub ipproto_tcp : ℕ
ipproto_tcp = 6

abbrev pub ipproto_udp : ℕ
ipproto_udp = 17

-- The kernel's checksum functions: over the bytes of a buffer from an offset on, over a header, and
-- with the pseudo header.
pub record Checksums : Type 0 where
  pub skb_checksum : List ℕ → ℕ
  pub ip_fast_csum : List ℕ → ℕ
  pub csum_tcpudp_magic : (saddr daddr : List ℕ) → (len proto csum : ℕ) → ℕ

-- The stores to the fields of struct iphdr but `check`. The field `id` is not stored to.
abbrev pub fill_iphdr : (protocol ttl tot_len : ℕ) → List ℕ → List ℕ
fill_iphdr protocol ttl tot_len ih =
    let versioned = set ih 0 0x45 in
    let unfragmented = copy_to 6 (0 ∷ 0 ∷ []) versioned in
    let typed = set (set unfragmented 9 protocol) 1 0 in
    let addressed = copy_to 16 dstip (copy_to 12 srcip typed) in
    copy_to 2 (be16 tot_len) (set addressed 8 ttl)

-- The stores to struct ethhdr.
abbrev pub fill_ethhdr : List ℕ → List ℕ
fill_ethhdr eh = copy_to 6 srcmac (copy_to 0 dstmac (copy_to 12 (be16 eth_p_ip) eh))

-- What the modules keep: `seq` and `ack_seq`; the references to eth0 that the module holds; and the packets that were sent.
pub record Sender : Type 0 where
  pub seq : ℕ
  pub ack_seq : ℕ
  pub dev_refs : ℕ
  pub sent : List (List ℕ)

-- `dev_queue_xmit` takes the buffer in any case, so that `kfree_skb` after it frees it twice.
unfoldable pub transmit : (List ℕ → ℤ) → Sender → Skb → Outcome (ℤ × Sender)
transmit dev_queue_xmit w skb =
    if is_neg (dev_queue_xmit skb.bytes)
    then oops
    else done (pos 0, record w { dev_refs = w.dev_refs - 1; sent = w.sent ++ skb.bytes ∷ [] })

-- The reference that was taken before is given back with a packet that goes out.
pub transmit_lem :
    (dev_queue_xmit : List ℕ → ℤ) (w : Sender) (skb : Skb)
    → transmit dev_queue_xmit (record w { dev_refs = w.dev_refs + 1 }) skb ≡ (
        if is_neg (dev_queue_xmit skb.bytes)
        then oops
        else done (pos 0, record w { sent = w.sent ++ skb.bytes ∷ [] }))
unfolding transmit
transmit_lem dev_queue_xmit w skb =
    ap
      (λ refs.
        if is_neg (dev_queue_xmit skb.bytes)
        then oops
        else done (pos 0, record w { dev_refs = refs; sent = w.sent ++ skb.bytes ∷ [] }))
      (omega arith)
