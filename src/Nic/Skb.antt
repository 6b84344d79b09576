-- ===== src/Nic/Skb.antt =====
-- Socket buffers and devices as nic/tcp.c, nic/udp.c and nic/garp.c use them, with the kernel's
-- functions on them as parameters.
use modules.Common.{
  ℕ, zero, suc, ◌+◌, ◌-◌, ◌/◌, ◌%◌, ◌≤◌, ◌≡◌, Option, none, some, List, [], ◌∷◌, ◌++◌, ℤ, pos, take,
  drop, length, Outcome, done, oops, arith, ◌∙◌,
}

-- struct sk_buff: the bytes between `data` and `tail`, and the room before and behind them.
pub record Skb : Type 0 where
  pub headroom : ℕ
  pub bytes : List ℕ
  pub tailroom : ℕ

-- struct net_device: LL_RESERVED_SPACE of the device, and what the examples read of it.
pub record NetDevice : Type 0 where
  pub reserved_space : ℕ
  pub needed_tailroom : ℕ
  pub addr_len : ℕ
  pub hw_type : ℕ
  pub dev_addr : List ℕ
  pub broadcast : List ℕ

-- The kernel's functions. `skb_put` and `skb_push` are `none` where they stop the kernel for want of
-- room; `eth_header type daddr saddr skb` gives its result and the buffer.
pub record SkbApi : Type 0 where
  pub alloc_skb : ℕ → Option Skb
  pub skb_reserve : Skb → ℕ → Skb
  pub skb_put : Skb → ℕ → Option Skb
  pub skb_push : Skb → ℕ → Option Skb
  pub eth_header : (type : ℕ) → (daddr saddr : List ℕ) → Skb → ℤ × Skb

-- `n` bytes of a memory, from the first on.
abbrev pub listed : ℕ → (ℕ → ℕ) → List ℕ
listed zero at = []
listed (suc n) at = at 0 ∷ listed n (λ i. at (suc i))

-- A uint16_t in network byte order.
abbrev pub be16 : ℕ → List ℕ
be16 n = n / 256 % 256 ∷ n % 256 ∷ []

-- What is documented of them. The memory that a buffer grows into holds anything.
pub record Documented (api : SkbApi) : Type 0 where
  pub allocates :
      (size : ℕ) (skb : Skb)
      → api.alloc_skb size ≡ some skb
      → (skb.bytes ≡ []) × (size ≤ skb.tailroom)
  pub reserves :
      (skb : Skb) (n : ℕ)
      → n ≤ skb.tailroom
      → (api.skb_reserve skb n).bytes ≡ skb.bytes
        × ((api.skb_reserve skb n).headroom ≡ skb.headroom + n)
        × ((api.skb_reserve skb n).tailroom ≡ skb.tailroom - n)
  pub puts :
      (skb : Skb) (n : ℕ)
      → n ≤ skb.tailroom
      → (at : ℕ → ℕ) × (api.skb_put skb n
          ≡ some (record skb { bytes = skb.bytes ++ listed n at; tailroom = skb.tailroom - n }))
  pub pushes :
      (skb : Skb) (n : ℕ)
      → n ≤ skb.headroom
      → (at : ℕ → ℕ) × (api.skb_push skb n
          ≡ some (record skb { bytes = listed n at ++ skb.bytes; headroom = skb.headroom - n }))
  pub heads :
      (type : ℕ) (daddr saddr : List ℕ) (skb : Skb)
      → 14 ≤ skb.headroom
      → length daddr ≡ 6
      → length saddr ≡ 6
      → api.eth_header type daddr saddr skb ≡ (
        pos 14,
        record skb {
          bytes = (daddr ++ (saddr ++ be16 type)) ++ skb.bytes;
          headroom = skb.headroom - 14;
        },
      )

-- `memcpy` of some bytes to a place in a buffer, and the store of a uint16_t in network order.
abbrev pub copy_to : (at : ℕ) → (new bytes : List ℕ) → List ℕ
copy_to at new bytes = take at bytes ++ (new ++ drop (at + length new) bytes)

-- A call that stops the kernel when it has no result.
abbrev pub or_oops {ℓ} : {A : Type ℓ} → Option A → Outcome A
or_oops none = oops
or_oops (some a) = done a

-- The buffer that a `create_new_skb` asks for has the room, once the device's share is taken from it.
pub reserved-room :
    (api : SkbApi) (dev : NetDevice) (headers : ℕ) (skb : Skb)
    → Documented api
    → 14 ≤ dev.reserved_space
    → api.alloc_skb (38 + dev.reserved_space + 20 + headers + dev.needed_tailroom) ≡ some skb
    → let room = api.skb_reserve skb dev.reserved_space in
      (room.bytes ≡ []) × (14 ≤ room.headroom) × (38 + 20 + headers ≤ room.tailroom)
reserved-room api dev headers skb d share given =
    let (empty, big) = d.allocates _ skb given in
    let (bytes, front, back) = d.reserves skb dev.reserved_space (omega (arith, big)) in
    (bytes ∙ empty, omega (arith, front, share), omega (arith, back, big))
