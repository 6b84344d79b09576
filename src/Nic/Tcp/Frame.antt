-- ===== src/Nic/Tcp/Frame.antt =====
-- The packet of nic/tcp.c, and what becomes of the buffer and of the device.
use modules.Common.{
  Bool-cases, Option, Outcome, ◌>>=◌, ℕ, ◌+◌, ◌-◌, ◌*◌, ◌/◌, ◌%◌, ◌^◌, ◌≤◌, ◌≡◌, refl, ap, ◌⊎◌, inl,
  inr, none, some, List, [], ◌∷◌, ◌++◌, ℤ, pos, neg_enomem, take, drop, le16, le32, is_neg,
  if◌then◌else◌, done, oops, arith, Option-cases, ◌∙◌,
}
use modules.Nic.Skb.{Skb, NetDevice, SkbApi, Documented, listed, reserved-room, copy_to}
use modules.Nic.Packet.{
  payload, srcip, dstip, srcmac, dstmac, sport, dport, eth_p_ip, ipproto_tcp, Checksums, fill_iphdr,
  fill_ethhdr, transmit_lem, Sender,
}
use modules.Nic.Parse.{EtherFrame, Ipv4, Tcp, parse_ether, parse_ipv4, parse_tcp}
use modules.Nic.Tcp.{
  fill_tcphdr, check_tcphdr, fill_skb, with_skb, create_new_skb, skbinit, skbexit,
}

-- What a receiver finds in the frame. The IPv4 header has no checksum, the checksum of TCP is that
-- of a header of 20 bytes with nothing behind it, and the numbers are in the order of the host.
pub record IsTcpPacket (sums : Checksums) (seq ack_seq : ℕ) (frame : List ℕ) : Type 0 where
  pub ether : EtherFrame
  pub ip : Ipv4
  pub tcp : Tcp
  pub ether_found : parse_ether frame ≡ some ether
  pub ip_found : parse_ipv4 ether.body ≡ some ip
  pub tcp_found : parse_tcp ip.body ≡ some tcp
  pub macs : (ether.destination ≡ dstmac) × (ether.source ≡ srcmac) × (ether.ether_type ≡ eth_p_ip)
  pub addresses : (ip.source ≡ srcip) × (ip.destination ≡ dstip) × (ip.protocol ≡ ipproto_tcp)
  pub unchecked : ip.header_checksum ≡ 0 ∷ 0 ∷ []
  pub ports : (tcp.source_port ≡ sport) × (tcp.destination_port ≡ dport)
  pub sequence : tcp.sequence ≡ le32 seq
  pub acknowledgment : tcp.acknowledgment ≡ le32 ack_seq
  pub checksum :
      tcp.checksum
      ≡ le16 (
          sums.csum_tcpudp_magic srcip dstip 20 ipproto_tcp
            (sums.skb_checksum (copy_to 16 (0 ∷ 0 ∷ []) (take 20 ip.body)))
          % 2 ^ 16)
  pub text : tcp.body ≡ payload

-- The two headers as they are in the buffer, over what the memory held.
abbrev ip_header : (ℕ → ℕ) → List ℕ
ip_header a = copy_to 10 (0 ∷ 0 ∷ []) (fill_iphdr ipproto_tcp 0x20 78 (listed 20 a))

abbrev tcp_header : Checksums → (seq ack_seq : ℕ) → (ℕ → ℕ) → List ℕ
tcp_header sums seq ack_seq b = check_tcphdr sums (fill_tcphdr seq ack_seq (listed 20 b))

doff_lem : (n : ℕ) → (0x50 + n % 16) / 16 * 4 ≡ 20
doff_lem n = omega arith

frame-IsTcpPacket :
    (sums : Checksums) (seq ack_seq : ℕ) (a b e : ℕ → ℕ)
    → IsTcpPacket sums seq ack_seq
        (fill_ethhdr (listed 14 e) ++ (ip_header a ++ (tcp_header sums seq ack_seq b ++ payload)))
unfolding le16 le32
frame-IsTcpPacket sums seq ack_seq a b e =
    let th = tcp_header sums seq ack_seq b in
    record {
      ether = record {
        destination = dstmac;
        source = srcmac;
        ether_type = eth_p_ip;
        body = ip_header a ++ (th ++ payload);
      };
      ip = record {
        ttl = 0x20;
        protocol = ipproto_tcp;
        header_checksum = 0 ∷ 0 ∷ [];
        source = srcip;
        destination = dstip;
        body = th ++ payload;
      };
      tcp = record {
        source_port = sport;
        destination_port = dport;
        sequence = le32 seq;
        acknowledgment = le32 ack_seq;
        window = 5840;
        checksum = take 2 (drop 16 th);
        body = payload;
      };
      ether_found = refl;
      ip_found = refl;
      tcp_found = rw (doff_lem (b 12)) refl;
      macs = (refl, refl, refl);
      addresses = (refl, refl, refl);
      unchecked = refl;
      ports = (refl, refl);
      sequence = refl;
      acknowledgment = refl;
      checksum = refl;
      text = refl;
    }

-- From the first `skb_put` on, when the kernel's functions give what they are documented to.
fill_skb-runs :
    (api : SkbApi) (sums : Checksums) (seq ack_seq h t : ℕ) (a b c e : ℕ → ℕ)
    → let th = tcp_header sums seq ack_seq b in
      let s : (List ℕ → ℕ → ℕ → Skb) =
        λ bytes front back. record { headroom = front; bytes = bytes; tailroom = back } in
      api.skb_put (s [] h t) 20 ≡ some (s (listed 20 a) h (t - 20))
      → api.skb_put (s (ip_header a) h (t - 20)) 20
        ≡ some (s (ip_header a ++ listed 20 b) h (t - 20 - 20))
      → api.skb_put (s (ip_header a ++ th) h (t - 20 - 20)) 38
        ≡ some (s (ip_header a ++ (th ++ listed 38 c)) h (t - 20 - 20 - 38))
      → api.skb_push (s (ip_header a ++ (th ++ payload)) h (t - 20 - 20 - 38)) 14
        ≡ some (s (listed 14 e ++ (ip_header a ++ (th ++ payload))) (h - 14) (t - 20 - 20 - 38))
      → fill_skb api sums seq ack_seq (s [] h t)
        ≡ done (
            s
              (fill_ethhdr (listed 14 e) ++ (ip_header a ++ (th ++ payload)))
              (h - 14)
              (t - 20 - 20 - 38))
unfolding fill_skb le16 le32
fill_skb-runs api sums seq ack_seq h t a b c e put₁ put₂ put₃ push =
    rw (put₁, put₂, put₃, push) refl

-- Into an empty buffer with enough room in front and behind.
fill_skb-empty :
    (api : SkbApi) (sums : Checksums) (seq ack_seq h t : ℕ)
    → Documented api
    → 14 ≤ h
    → 78 ≤ t
    → (full : Skb) × (fill_skb api sums seq ack_seq
          (record { headroom = h; bytes = []; tailroom = t })
        ≡ done full)
      × IsTcpPacket sums seq ack_seq full.bytes
unfolding le16 le32
fill_skb-empty api sums seq ack_seq h t d front back =
    let (a, put₁) =
      d.puts (record { headroom = h; bytes = []; tailroom = t }) 20 (omega (arith, back)) in
    let (b, put₂) =
      d.puts (record { headroom = h; bytes = ip_header a; tailroom = t - 20 }) 20
        (omega (arith, back)) in
    let th = tcp_header sums seq ack_seq b in
    let (c, put₃) =
      d.puts (record { headroom = h; bytes = ip_header a ++ th; tailroom = t - 20 - 20 }) 38
        (omega (arith, back)) in
    let (e, push) =
      d.pushes
        (record {
          headroom = h;
          bytes = ip_header a ++ (th ++ payload);
          tailroom = t - 20 - 20 - 38;
        })
        14 front in
    (
      _,
      fill_skb-runs api sums seq ack_seq h t a b c e put₁ put₂ put₃ push,
      frame-IsTcpPacket sums seq ack_seq a b e,
    )

pub fill_skb_lem :
    (api : SkbApi) (sums : Checksums) (seq ack_seq : ℕ) (skb : Skb)
    → Documented api
    → skb.bytes ≡ []
    → 14 ≤ skb.headroom
    → 78 ≤ skb.tailroom
    → (full : Skb) × (fill_skb api sums seq ack_seq skb ≡ done full)
      × IsTcpPacket sums seq ack_seq full.bytes
fill_skb_lem api sums seq ack_seq skb d empty front back =
    let (full, runs, good) =
      fill_skb-empty api sums seq ack_seq skb.headroom skb.tailroom d front back in
    (
      full,
      ap (λ bytes. fill_skb api sums seq ack_seq (record skb { bytes = bytes })) empty ∙ runs,
      good,
    )

-- Where the kernel's functions do what is documented and at least 14 bytes are reserved for eth0:
-- without memory the result is -ENOMEM and the reference to eth0 is kept; otherwise one frame is
-- built that is such a packet, with the numbers as they are. If it is refused the buffer is freed
-- twice; else it is sent, the result is 0, `seq` grows by one in 64 bits and the references are as
-- before.
create_new_skb-IsTcpPacket :
    (api : SkbApi) (sums : Checksums) (dev_queue_xmit : List ℕ → ℤ) (dev : NetDevice) (w : Sender)
    → Documented api
    → 14 ≤ dev.reserved_space
    → let run = create_new_skb api sums dev_queue_xmit (some dev) w in
      let alloc = api.alloc_skb (38 + dev.reserved_space + 20 + 20 + dev.needed_tailroom) in
      (alloc ≡ none × (run ≡ done (neg_enomem, record w { dev_refs = w.dev_refs + 1 })))
      ⊎ ((frame : List ℕ) × IsTcpPacket sums w.seq w.ack_seq frame
          × (run ≡ (
              if is_neg (dev_queue_xmit frame)
              then oops
              else done
                  (pos 0, record w { seq = (w.seq + 1) % 2 ^ 64; sent = w.sent ++ frame ∷ [] }))))
unfolding create_new_skb with_skb
create_new_skb-IsTcpPacket api sums dev_queue_xmit dev w d share =
    elim (Option-cases (api.alloc_skb (38 + dev.reserved_space + 20 + 20 + dev.needed_tailroom))) [
      | inl missing ↦ inl (missing, rw missing refl)
      | inr (skb, given) ↦
          let (empty, front, back) = reserved-room api dev 20 skb d share given in
          let (full, runs, good) =
            fill_skb_lem api sums w.seq w.ack_seq (api.skb_reserve skb dev.reserved_space) d empty
              front back in
          inr (
            full.bytes,
            good,
            rw (given, runs)
                (transmit_lem dev_queue_xmit (record w { seq = (w.seq + 1) % 2 ^ 64 }) full),
          )
    ]

-- The module loaded and unloaded, where the kernel's functions do what is documented and at least 14
-- bytes are reserved for eth0. Without eth0 nothing happens and the result is 0; without memory nothing
-- is sent, the result is 0 and the reference to eth0 is kept. Otherwise one frame is built that is such
-- a packet, with the numbers as they are; if it is refused the buffer is freed twice, and else it is
-- sent, the result is 0, `seq` grows by one in 64 bits and the references are as before.
pub skbinit-IsTcpPacket :
    (api : SkbApi) (sums : Checksums) (dev_queue_xmit : List ℕ → ℤ) (eth : Option NetDevice)
    (w : Sender)
    → Documented api
    → ((dev : NetDevice) → eth ≡ some dev → 14 ≤ dev.reserved_space)
    → let run : Outcome (ℤ × Sender) =
        skbinit api sums dev_queue_xmit eth w >>= λ r. done (r.0, skbexit r.1) in
      ((eth ≡ none) × (run ≡ done (pos 0, w)))
      ⊎ ((dev : NetDevice) × (eth ≡ some dev)
          × (let alloc = api.alloc_skb (38 + dev.reserved_space + 20 + 20 + dev.needed_tailroom) in
              (alloc ≡ none × (run ≡ done (pos 0, record w { dev_refs = w.dev_refs + 1 })))
              ⊎ ((frame : List ℕ) × IsTcpPacket sums w.seq w.ack_seq frame
                  × (run ≡ (
                      if is_neg (dev_queue_xmit frame)
                      then oops
                      else done (
                        pos 0,
                        record w { seq = (w.seq + 1) % 2 ^ 64; sent = w.sent ++ frame ∷ [] },
                      ))))))
unfolding skbinit skbexit create_new_skb
skbinit-IsTcpPacket api sums dev_queue_xmit none w d share = inl (refl, refl)
skbinit-IsTcpPacket api sums dev_queue_xmit (some dev) w d share = inr (
  dev,
  refl,
  elim (create_new_skb-IsTcpPacket api sums dev_queue_xmit dev w d (share dev refl)) [
    | inl (missing, fails) ↦ inl (missing, rw fails refl)
    | inr (frame, good, runs) ↦ inr (
      frame,
      good,
      elim (Bool-cases (is_neg (dev_queue_xmit frame))) [
        | inl refused ↦ rw (runs, refused) refl
        | inr taken ↦ rw (runs, taken) refl
      ],
    )
  ],
)
