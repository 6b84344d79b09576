-- ===== src/Nic/Tcp.antt =====
-- nic/tcp.c: one TCP packet, built by hand and sent through eth0.
pub mod Frame
use modules.Common.{
  ℕ, suc, ◌+◌, ◌-◌, ◌*◌, ◌/◌, ◌%◌, ◌^◌, ◌≤◌, ◌≡◌, Option, none, some, List, [], ◌∷◌, ◌++◌, ℤ, pos,
  negsuc, neg_enomem, set, take, drop, length, le16, le32, get_or, is_neg, if◌then◌else◌, Outcome,
  done, oops, ◌>>=◌,
}
use modules.Nic.Skb.{Skb, NetDevice, SkbApi, copy_to, be16, or_oops}
use modules.Nic.Packet.{
  payload, srcip, dstip, sport, dport, ipproto_tcp, Checksums, Sender, fill_iphdr, fill_ethhdr,
  transmit,
}

-- The stores to struct tcphdr up to the checksum. `seq` and `ack_seq` are stored as they are in
-- memory, and cut to 32 bits; the upper half of byte 12 is `doff`. The flags and the urgent pointer
-- are not stored to.
abbrev pub fill_tcphdr : (seq ack_seq : ℕ) → List ℕ → List ℕ
fill_tcphdr seq ack_seq th =
    let ported = copy_to 2 (be16 dport) (copy_to 0 (be16 sport) th) in
    let numbered = copy_to 8 (le32 ack_seq) (copy_to 4 (le32 seq) ported) in
    let sized = set numbered 12 (0x50 + get_or numbered 12 0 % 16) in
    copy_to 16 (0 ∷ 0 ∷ []) (copy_to 14 (be16 5840) sized)

-- The header with its checksum. `skb->csum` is that of what follows the IPv4 header, which is the
-- TCP header alone at that time.
abbrev pub check_tcphdr : Checksums → List ℕ → List ℕ
check_tcphdr sums th =
    let csum = sums.skb_checksum th in
    copy_to 16 (le16 (sums.csum_tcpudp_magic srcip dstip (length th) ipproto_tcp csum % 2 ^ 16)) th

-- From the first `skb_put` to the Ethernet header.
pub fill_skb : SkbApi → Checksums → (seq ack_seq : ℕ) → Skb → Outcome Skb
fill_skb api sums seq ack_seq skb = do
  s₁ ← or_oops (api.skb_put skb 20)
  let ih = copy_to 10 (0 ∷ 0 ∷ []) (fill_iphdr ipproto_tcp 0x20 (length payload + 20 + 20) s₁.bytes)
  s₂ ← or_oops (api.skb_put (record s₁ { bytes = ih }) 20)
  let th = check_tcphdr sums (fill_tcphdr seq ack_seq (drop 20 s₂.bytes))
  s₃ ← or_oops (api.skb_put (record s₂ { bytes = take 20 s₂.bytes ++ th }) (length payload))
  s₄ ← or_oops (api.skb_push (record s₃ { bytes = copy_to 40 payload s₃.bytes }) 14)
  done (record s₄ { bytes = fill_ethhdr s₄.bytes })

pub with_skb :
    SkbApi → Checksums → (List ℕ → ℤ) → NetDevice → Option Skb → Sender → Outcome (ℤ × Sender)
unfolding fill_skb transmit
with_skb api sums dev_queue_xmit dev none w = done (neg_enomem, w)
with_skb api sums dev_queue_xmit dev (some skb) w = do
  full ← fill_skb api sums w.seq w.ack_seq (api.skb_reserve skb dev.reserved_space)
  transmit dev_queue_xmit (record w { seq = (w.seq + 1) % 2 ^ 64 }) full

-- `dev_get_by_name` is the device eth0, and takes a reference to it.
unfoldable pub create_new_skb :
    SkbApi → Checksums → (List ℕ → ℤ) → Option NetDevice → Sender → Outcome (ℤ × Sender)
unfolding with_skb
create_new_skb api sums dev_queue_xmit none w = done (negsuc 0, w)
create_new_skb api sums dev_queue_xmit (some dev) w =
    with_skb api sums dev_queue_xmit dev
      (api.alloc_skb (length payload + dev.reserved_space + 20 + 20 + dev.needed_tailroom))
      (record w { dev_refs = w.dev_refs + 1 })

-- It returns 0 whatever `create_new_skb` returns.
pub skbinit : SkbApi → Checksums → (List ℕ → ℤ) → Option NetDevice → Sender → Outcome (ℤ × Sender)
skbinit api sums dev_queue_xmit dev w =
    create_new_skb api sums dev_queue_xmit dev w >>= λ r. done (pos 0, r.1)

-- It only prints.
pub skbexit : Sender → Sender
skbexit w = w
