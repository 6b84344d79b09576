-- ===== src/Nic/Udp.antt =====
-- nic/udp.c: one UDP packet, built by hand and sent through eth0.
pub mod Frame
use modules.Common.{
  ℕ, suc, ◌+◌, ◌-◌, ◌*◌, ◌/◌, ◌%◌, ◌^◌, ◌≤◌, ◌≡◌, Option, none, some, List, [], ◌∷◌, ◌++◌, ℤ, pos,
  negsuc, neg_enomem, set, take, drop, length, le16, le32, get_or, is_neg, if◌then◌else◌, Outcome,
  done, oops, ◌>>=◌,
}
use modules.Nic.Skb.{Skb, NetDevice, SkbApi, copy_to, be16, or_oops}
use modules.Nic.Packet.{
  payload, srcip, dstip, sport, dport, ipproto_udp, Checksums, Sender, fill_iphdr, fill_ethhdr,
  transmit,
}

-- The IPv4 header. Its checksum is that of the header as it is then, with whatever stands in `check`.
abbrev pub check_iphdr : Checksums → List ℕ → List ℕ
check_iphdr sums ih = copy_to 10 (le16 (sums.ip_fast_csum ih % 2 ^ 16)) ih

-- The stores to struct udphdr up to the checksum.
abbrev pub fill_udphdr : List ℕ → List ℕ
fill_udphdr uh =
    let ported = copy_to 2 (be16 dport) (copy_to 0 (be16 sport) uh) in
    copy_to 6 (0 ∷ 0 ∷ []) (copy_to 4 (be16 (8 + length payload)) ported)

-- The header with its checksum. `skb->csum` is that of what follows the IPv4 header, which is the
-- UDP header alone at that time.
abbrev pub check_udphdr : Checksums → List ℕ → List ℕ
check_udphdr sums uh =
    let csum = sums.skb_checksum uh in
    copy_to 6 (le16 (sums.csum_tcpudp_magic srcip dstip (length uh) ipproto_udp csum % 2 ^ 16)) uh

-- From the first `skb_put` to the Ethernet header.
pub fill_skb : SkbApi → Checksums → Skb → Outcome Skb
fill_skb api sums skb = do
  s₁ ← or_oops (api.skb_put skb 20)
  let ih = check_iphdr sums (fill_iphdr ipproto_udp 0x40 (length payload + 20 + 8) s₁.bytes)
  s₂ ← or_oops (api.skb_put (record s₁ { bytes = ih }) 8)
  let uh = check_udphdr sums (fill_udphdr (drop 20 s₂.bytes))
  s₃ ← or_oops (api.skb_put (record s₂ { bytes = take 20 s₂.bytes ++ uh }) (length payload))
  s₄ ← or_oops (api.skb_push (record s₃ { bytes = copy_to 28 payload s₃.bytes }) 14)
  done (record s₄ { bytes = fill_ethhdr s₄.bytes })

pub with_skb :
    SkbApi → Checksums → (List ℕ → ℤ) → NetDevice → Option Skb → Sender → Outcome (ℤ × Sender)
unfolding fill_skb transmit
with_skb api sums dev_queue_xmit dev none w = done (neg_enomem, w)
with_skb api sums dev_queue_xmit dev (some skb) w = do
  full ← fill_skb api sums (api.skb_reserve skb dev.reserved_space)
  transmit dev_queue_xmit w full

-- `dev_get_by_name` is the device eth0, and takes a reference to it. `seq` and `ack_seq` stay.
unfoldable pub create_new_skb :
    SkbApi → Checksums → (List ℕ → ℤ) → Option NetDevice → Sender → Outcome (ℤ × Sender)
unfolding with_skb
create_new_skb api sums dev_queue_xmit none w = done (negsuc 0, w)
create_new_skb api sums dev_queue_xmit (some dev) w =
    with_skb api sums dev_queue_xmit dev
      (api.alloc_skb (length payload + dev.reserved_space + 20 + 8 + dev.needed_tailroom))
      (record w { dev_refs = w.dev_refs + 1 })

-- It returns 0 whatever `create_new_skb` returns.
pub skbinit : SkbApi → Checksums → (List ℕ → ℤ) → Option NetDevice → Sender → Outcome (ℤ × Sender)
skbinit api sums dev_queue_xmit dev w =
    create_new_skb api sums dev_queue_xmit dev w >>= λ r. done (pos 0, r.1)

-- It only prints.
pub skbexit : Sender → Sender
skbexit w = w
