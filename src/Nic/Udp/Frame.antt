-- ===== src/Nic/Udp/Frame.antt =====
-- The packet of nic/udp.c, and what becomes of the buffer and of the device.
use modules.Common.{
  Bool-cases, Option, Outcome, ◌>>=◌, ℕ, ◌+◌, ◌-◌, ◌%◌, ◌^◌, ◌≤◌, ◌≡◌, refl, ap, ◌⊎◌, inl, inr,
  none, some, List, [], ◌∷◌, ◌++◌, ℤ, pos, neg_enomem, take, drop, length, le16, le32, is_neg,
  if◌then◌else◌, done, oops, arith, Option-cases, ◌∙◌,
}
use modules.Nic.Skb.{Skb, NetDevice, SkbApi, Documented, listed, reserved-room, copy_to}
use modules.Nic.Packet.{
  payload, srcip, dstip, srcmac, dstmac, sport, dport, eth_p_ip, ipproto_udp, Checksums, fill_iphdr,
  fill_ethhdr, transmit_lem, Sender,
}
use modules.Nic.Parse.{EtherFrame, Ipv4, Udp, parse_ether, parse_ipv4, parse_udp}
use modules.Nic.Udp.{
  check_iphdr, fill_udphdr, check_udphdr, fill_skb, with_skb, create_new_skb, skbinit, skbexit,
}

-- What a receiver finds in the frame. The IPv4 checksum is taken over two old bytes in its own place,
-- and that of UDP over a header of 8 bytes with nothing behind it.
pub record IsUdpPacket (sums : Checksums) (frame : List ℕ) : Type 0 where
  pub ether : EtherFrame
  pub ip : Ipv4
  pub udp : Udp
  pub ether_found : parse_ether frame ≡ some ether
  pub ip_found : parse_ipv4 ether.body ≡ some ip
  pub udp_found : parse_udp ip.body ≡ some udp
  pub macs : (ether.destination ≡ dstmac) × (ether.source ≡ srcmac) × (ether.ether_type ≡ eth_p_ip)
  pub addresses : (ip.source ≡ srcip) × (ip.destination ≡ dstip) × (ip.protocol ≡ ipproto_udp)
  pub old : List ℕ
  pub two : length old ≡ 2
  pub checked :
      ip.header_checksum ≡ le16 (sums.ip_fast_csum (copy_to 10 old (take 20 ether.body)) % 2 ^ 16)
  pub ports : (udp.source_port ≡ sport) × (udp.destination_port ≡ dport)
  pub checksum :
      udp.checksum
      ≡ le16 (
          sums.csum_tcpudp_magic srcip dstip 8 ipproto_udp
            (sums.skb_checksum (copy_to 6 (0 ∷ 0 ∷ []) (take 8 ip.body)))
          % 2 ^ 16)
  pub text : udp.body ≡ payload

-- The two headers as they are in the buffer, over what the memory held.
abbrev ip_header : Checksums → (ℕ → ℕ) → List ℕ
ip_header sums a = check_iphdr sums (fill_iphdr ipproto_udp 0x40 66 (listed 20 a))

abbrev udp_header : Checksums → (ℕ → ℕ) → List ℕ
udp_header sums b = check_udphdr sums (fill_udphdr (listed 8 b))

frame-IsUdpPacket :
    (sums : Checksums) (a b e : ℕ → ℕ)
    → IsUdpPacket sums
        (fill_ethhdr (listed 14 e) ++ (ip_header sums a ++ (udp_header sums b ++ payload)))
unfolding le16 le32
frame-IsUdpPacket sums a b e =
    let th = udp_header sums b in
    record {
      ether = record {
        destination = dstmac;
        source = srcmac;
        ether_type = eth_p_ip;
        body = ip_header sums a ++ (th ++ payload);
      };
      ip = record {
        ttl = 0x40;
        protocol = ipproto_udp;
        header_checksum = take 2 (drop 10 (ip_header sums a));
        source = srcip;
        destination = dstip;
        body = th ++ payload;
      };
      udp = record {
        source_port = sport;
        destination_port = dport;
        checksum = take 2 (drop 6 th);
        body = payload;
      };
      ether_found = refl;
      ip_found = refl;
      udp_found = refl;
      macs = (refl, refl, refl);
      addresses = (refl, refl, refl);
      old = a 10 ∷ a 11 ∷ [];
      two = refl;
      checked = refl;
      ports = (refl, refl);
      checksum = refl;
      text = refl;
    }

-- From the first `skb_put` on, when the kernel's functions give what they are documented to.
fill_skb-runs :
    (api : SkbApi) (sums : Checksums) (h t : ℕ) (a b c e : ℕ → ℕ)
    → let th = udp_header sums b in
      let s : (List ℕ → ℕ → ℕ → Skb) =
        λ bytes front back. record { headroom = front; bytes = bytes; tailroom = back } in
      api.skb_put (s [] h t) 20 ≡ some (s (listed 20 a) h (t - 20))
      → api.skb_put (s (ip_header sums a) h (t - 20)) 8
        ≡ some (s (ip_header sums a ++ listed 8 b) h (t - 20 - 8))
      → api.skb_put (s (ip_header sums a ++ th) h (t - 20 - 8)) 38
        ≡ some (s (ip_header sums a ++ (th ++ listed 38 c)) h (t - 20 - 8 - 38))
      → api.skb_push (s (ip_header sums a ++ (th ++ payload)) h (t - 20 - 8 - 38)) 14
        ≡ some (s (listed 14 e ++ (ip_header sums a ++ (th ++ payload))) (h - 14) (t - 20 - 8 - 38))
      → fill_skb api sums (s [] h t)
        ≡ done (
            s
              (fill_ethhdr (listed 14 e) ++ (ip_header sums a ++ (th ++ payload)))
              (h - 14)
              (t - 20 - 8 - 38))
unfolding fill_skb le16 le32
fill_skb-runs api sums h t a b c e put₁ put₂ put₃ push = rw (put₁, put₂, put₃, push) refl

-- Into an empty buffer with enough room in front and behind.
fill_skb-empty :
    (api : SkbApi) (sums : Checksums) (h t : ℕ)
    → Documented api
    → 14 ≤ h
    → 66 ≤ t
    → (full : Skb) × (fill_skb api sums (record { headroom = h; bytes = []; tailroom = t })
        ≡ done full)
      × IsUdpPacket sums full.bytes
unfolding le16 le32
fill_skb-empty api sums h t d front back =
    let (a, put₁) =
      d.puts (record { headroom = h; bytes = []; tailroom = t }) 20 (omega (arith, back)) in
    let (b, put₂) =
      d.puts (record { headroom = h; bytes = ip_header sums a; tailroom = t - 20 }) 8
        (omega (arith, back)) in
    let th = udp_header sums b in
    let (c, put₃) =
      d.puts (record { headroom = h; bytes = ip_header sums a ++ th; tailroom = t - 20 - 8 }) 38
        (omega (arith, back)) in
    let (e, push) =
      d.pushes
        (record {
          headroom = h;
          bytes = ip_header sums a ++ (th ++ payload);
          tailroom = t - 20 - 8 - 38;
        })
        14 front in
    (_, fill_skb-runs api sums h t a b c e put₁ put₂ put₃ push, frame-IsUdpPacket sums a b e)

pub fill_skb_lem :
    (api : SkbApi) (sums : Checksums) (skb : Skb)
    → Documented api
    → skb.bytes ≡ []
    → 14 ≤ skb.headroom
    → 66 ≤ skb.tailroom
    → (full : Skb) × (fill_skb api sums skb ≡ done full) × IsUdpPacket sums full.bytes
fill_skb_lem api sums skb d empty front back =
    let (full, runs, good) = fill_skb-empty api sums skb.headroom skb.tailroom d front back in
    (full, ap (λ bytes. fill_skb api sums (record skb { bytes = bytes })) empty ∙ runs, good)

-- Where the kernel's functions do what is documented and at least 14 bytes are reserved for eth0:
-- without memory the result is -ENOMEM and the reference to eth0 is kept; otherwise one frame is
-- built that is such a packet. If it is refused the buffer is freed twice; else it is sent, the
-- result is 0 and the references and `seq` are as before.
create_new_skb-IsUdpPacket :
    (api : SkbApi) (sums : Checksums) (dev_queue_xmit : List ℕ → ℤ) (dev : NetDevice) (w : Sender)
    → Documented api
    → 14 ≤ dev.reserved_space
    → let run = create_new_skb api sums dev_queue_xmit (some dev) w in
      let alloc = api.alloc_skb (38 + dev.reserved_space + 20 + 8 + dev.needed_tailroom) in
      (alloc ≡ none × (run ≡ done (neg_enomem, record w { dev_refs = w.dev_refs + 1 })))
      ⊎ ((frame : List ℕ) × IsUdpPacket sums frame
          × (run ≡ (
              if is_neg (dev_queue_xmit frame)
              then oops
              else done (pos 0, record w { sent = w.sent ++ frame ∷ [] }))))
unfolding create_new_skb with_skb
create_new_skb-IsUdpPacket api sums dev_queue_xmit dev w d share =
    elim (Option-cases (api.alloc_skb (38 + dev.reserved_space + 20 + 8 + dev.needed_tailroom))) [
      | inl missing ↦ inl (missing, rw missing refl)
      | inr (skb, given) ↦
          let (empty, front, back) = reserved-room api dev 8 skb d share given in
          let (full, runs, good) =
            fill_skb_lem api sums (api.skb_reserve skb dev.reserved_space) d empty front back in
          inr (full.bytes, good, rw (given, runs) (transmit_lem dev_queue_xmit w full))
    ]

-- The module loaded and unloaded, where the kernel's functions do what is documented and at least 14
-- bytes are reserved for eth0. Without eth0 nothing happens and the result is 0; without memory nothing
-- is sent, the result is 0 and the reference to eth0 is kept. Otherwise one frame is built that is such
-- a packet; if it is refused the buffer is freed twice, and else it is sent, the result is 0 and the
-- references and `seq` are as before.
pub skbinit-IsUdpPacket :
    (api : SkbApi) (sums : Checksums) (dev_queue_xmit : List ℕ → ℤ) (eth : Option NetDevice)
    (w : Sender)
    → Documented api
    → ((dev : NetDevice) → eth ≡ some dev → 14 ≤ dev.reserved_space)
    → let run : Outcome (ℤ × Sender) =
        skbinit api sums dev_queue_xmit eth w >>= λ r. done (r.0, skbexit r.1) in
      ((eth ≡ none) × (run ≡ done (pos 0, w)))
      ⊎ ((dev : NetDevice) × (eth ≡ some dev)
          × (let alloc = api.alloc_skb (38 + dev.reserved_space + 20 + 8 + dev.needed_tailroom) in
              (alloc ≡ none × (run ≡ done (pos 0, record w { dev_refs = w.dev_refs + 1 })))
              ⊎ ((frame : List ℕ) × IsUdpPacket sums frame
                  × (run ≡ (
                      if is_neg (dev_queue_xmit frame)
                      then oops
                      else done (pos 0, record w { sent = w.sent ++ frame ∷ [] }))))))
unfolding skbinit skbexit create_new_skb
skbinit-IsUdpPacket api sums dev_queue_xmit none w d share = inl (refl, refl)
skbinit-IsUdpPacket api sums dev_queue_xmit (some dev) w d share = inr (
  dev,
  refl,
  elim (create_new_skb-IsUdpPacket api sums dev_queue_xmit dev w d (share dev refl)) [
    | inl (missing, fails) ↦ inl (missing, rw fails refl)
    | inr (frame, good, runs) ↦ inr (
      frame,
      good,
      elim (Bool-cases (is_neg (dev_queue_xmit frame))) [
        | inl refused ↦ rw (runs, refused) refl
        | inr taken ↦ rw (runs, taken) refl
      ],
    )
  ],
)
