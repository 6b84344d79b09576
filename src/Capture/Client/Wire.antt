-- ===== src/Capture/Client/Wire.antt =====
-- What netlink/user_client.c shows of a message that netlink/netlink.c made of a packet. How a message
-- is laid out when it is received is a parameter.
use modules.Common.{
  ℕ, zero, suc, ◌+◌, ◌-◌, ◌≤◌, ◌^◌, ◌≡◌, ap, ap₂, ◌∙◌, some, List, ◌∷◌, ◌++◌, append_assoc, take,
  replicate, length, length-append, length-take, length-replicate, arith,
}
use modules.Nlmsg.{SkBuff, Packet, SkbApi}
use modules.Capture.Client.{max_payload}
use modules.Capture.Client.Receiving.{Shown, recv_from_kernel, recv_from_kernel_lem, take-zeros}

-- The size of struct nlmsghdr, NLMSG_ALIGN, and the bytes that a message is received as.
pub record Wire : Type 0 where
  pub hdrlen : ℕ
  pub nlmsg_align : ℕ → ℕ
  pub on_wire : SkBuff → List ℕ

-- What is documented: lengths are rounded up, within reason; and a message is received as a header,
-- its payload, and zeros up to its length.
pub record IsWire (w : Wire) : Type 0 where
  pub rounds_up : (n : ℕ) → n ≤ w.nlmsg_align n
  pub monotone : (m n : ℕ) → m ≤ n → w.nlmsg_align m ≤ w.nlmsg_align n
  pub small : w.nlmsg_align (w.hdrlen + max_payload) ≤ 2 ^ 31
  pub carries :
      (skb : SkBuff)
      → w.hdrlen + length skb.payload ≤ skb.len
      → (header : List ℕ) × (length header ≡ w.hdrlen)
        × (w.on_wire skb
            ≡ header ++ (skb.payload ++ replicate (skb.len - (w.hdrlen + length skb.payload)) 0))

-- The lengths that `nlmsg_new` and `nlmsg_put` are documented to give.
pub record IsSkbApi (w : Wire) (api : SkbApi) : Type 0 where
  pub empty : (size : ℕ) (skb : SkBuff) → api.nlmsg_new size ≡ some skb → skb.len ≡ 0
  pub grows :
      (skb msg : SkBuff) (portid seq type len flags : ℕ)
      → api.nlmsg_put skb portid seq type len flags ≡ some msg
      → msg.len ≡ skb.len + w.nlmsg_align (w.hdrlen + len)

-- NLMSG_SPACE
abbrev pub nlmsg_space : Wire → ℕ → ℕ
nlmsg_space w n = w.nlmsg_align (w.hdrlen + n)

-- What the user program shows of a message, and what it should show of a packet: the length rounded
-- up, and the first twelve bytes.
abbrev pub shown : Wire → SkBuff → Shown
shown w skb = (recv_from_kernel (nlmsg_space w) w.hdrlen (some (w.on_wire skb))).0

abbrev pub expected : Wire → Packet → Shown
expected w pkt = record {
  len = w.nlmsg_align (w.hdrlen + pkt.len) - w.hdrlen;
  payload = take 12 (take pkt.len pkt.bytes ++ replicate 12 0);
}

replicate-append : (m n : ℕ) → replicate m 0 ++ replicate n 0 ≡ replicate {A = ℕ} (m + n) 0
replicate-append zero n = ap (λ k. replicate k 0) (omega arith)
replicate-append (suc m) n =
    ap (λ xs. 0 ∷ xs) (replicate-append m n)
    ∙ ap (λ k. replicate k 0) {x = suc (m + n)} {y = suc m + n} (omega arith)

module _ (w : Wire) (laws : IsWire w) where
  -- A message with a packet that fits is shown as it should be.
  pub shown_lem :
      (pkt : Packet) (skb : SkBuff)
      → pkt.len ≤ length pkt.bytes
      → pkt.len ≤ max_payload
      → skb.payload ≡ take pkt.len pkt.bytes
      → skb.len ≡ w.nlmsg_align (w.hdrlen + pkt.len)
      → shown w skb ≡ expected w pkt
  shown_lem pkt skb whole fits bytes size =
      let full = w.hdrlen + length skb.payload in
      let k = skb.len - full in
      let body = skb.payload ++ replicate k 0 in
      let paid : length skb.payload ≡ pkt.len =
        omega (arith, ap length bytes, length-take pkt.len pkt.bytes) in
      let up = laws.rounds_up (w.hdrlen + pkt.len) in
      let most = laws.monotone (w.hdrlen + pkt.len) (w.hdrlen + max_payload) (omega arith) in
      let (header, head, wire) = laws.carries skb (omega (arith, size, paid, up)) in
      let long : length body ≡ w.nlmsg_align (w.hdrlen + pkt.len) - w.hdrlen = omega (
        arith,
        length-append skb.payload (replicate k 0),
        length-replicate {A = ℕ} k 0,
        size,
        paid,
        up,
      ) in
      ap (λ xs. (recv_from_kernel (nlmsg_space w) w.hdrlen (some xs)).0) wire
      ∙ recv_from_kernel_lem (nlmsg_space w) w.hdrlen header body head
          (omega (arith, laws.rounds_up (w.hdrlen + max_payload))) (omega (arith, long, most, up))
          laws.small
      ∙ ap₂ {C = Shown} (λ n xs. record { len = n; payload = xs }) long
          (ap (take 12) (append_assoc skb.payload (replicate k 0) (replicate 12 0))
            ∙ ap (λ xs. take 12 (skb.payload ++ xs)) (replicate-append k 12)
            ∙ take-zeros 12 (k + 12) 12 skb.payload (omega arith) (omega arith)
            ∙ ap (λ xs. take 12 (xs ++ replicate 12 0)) bytes)
