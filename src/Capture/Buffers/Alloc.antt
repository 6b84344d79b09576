-- ===== src/Capture/Buffers/Alloc.antt =====
-- What cap_buffer_alloc of netlink/netlink.c returns, and what it does to the counts.
use modules.Common.{
  sym, ap₂, subst, ℕ, suc, ◌+◌, ◌-◌, ◌≡◌, refl, Bool, true, false, Option, none, some, List, [],
  ◌∷◌, arith, length, take, Outcome, done, oops, inl, inr, ◌⊎◌, ap, ◌∙◌,
}
use modules.Nlmsg.{SkBuff, Packet, SkbApi}
use modules.Capture.Buffers.{
  CapBuffer, Pool, max_skb_bufsize, obtain, give_up, put, attach, filled, cap_buffer_alloc,
}
use modules.Capture.Buffers.Account.{IsValid, in_use}

-- One for a buffer, and 0 for NULL.
abbrev pub held : Option CapBuffer → ℕ
held none = 0
held (some cb) = 1

-- NULL is returned because an allocator failed; a buffer that is returned has the message that
-- they made, filled with the packet.
abbrev pub HoldsMessage :
    SkbApi → (portid : ℕ) → Packet → (cb_data gfp_mask type : ℕ) → Option CapBuffer → Type 0
HoldsMessage api portid pkt cb_data gfp_mask type none =
    (api.nlmsg_new max_skb_bufsize ≡ none)
    ⊎ ((skb : SkBuff) × (api.nlmsg_new max_skb_bufsize ≡ some skb)
        × (api.nlmsg_put skb portid 0 type pkt.len 0 ≡ none))
HoldsMessage api portid pkt cb_data gfp_mask type (some c) =
    (skb msg : SkBuff) × (api.nlmsg_new max_skb_bufsize ≡ some skb)
    × (api.nlmsg_put skb portid 0 type pkt.len 0 ≡ some msg)
    × (c ≡ record {
      skb = some (record msg { payload = take pkt.len pkt.bytes });
      cb_data = cb_data;
      gfp_mask = gfp_mask;
    })

-- What `cap_buffer_alloc` promises of its result: the counts and the contents.
pub record Allocated (api : SkbApi) (portid : ℕ) (pkt : Packet) (cb_data gfp_mask type : ℕ)
    (p p' : Pool) (cb : Option CapBuffer) : Type 0 where
  pub valid : IsValid p'
  pub buffers : in_use p' ≡ in_use p + held cb
  pub skbs : p'.skbs_live ≡ p.skbs_live + held cb
  pub contents : HoldsMessage api portid pkt cb_data gfp_mask type cb

-- A buffer is found on the free list or made by `kmalloc`, and is then in use.
obtain_lem :
    (kmalloc_ok : Bool) (l : List CapBuffer) (p : Pool)
    → p.cap_freelist ≡ l
    → IsValid p
    → ((l ≡ []) × (kmalloc_ok ≡ false))
      ⊎ ((cb : CapBuffer) × (p' : Pool) × (obtain kmalloc_ok l p ≡ (some cb, p'))
          × IsValid p'
          × (in_use p' ≡ in_use p + 1)
          × (p'.skbs_live ≡ p.skbs_live))
unfolding obtain
obtain_lem false [] p e v = inl (refl, refl)
obtain_lem true [] p e v = inr (_, _, refl, ground arith, ground arith, refl)
obtain_lem kmalloc_ok (cb ∷ rest) p e v =
    let n : p.cap_freelist_count ≡ suc (length rest) = v.counted ∙ ap length e in
    inr (cb, _, refl, omega arith, omega arith, refl)

-- Where there is one.
pub obtained_lem :
    (kmalloc_ok : Bool) (p p' : Pool) (cb : CapBuffer)
    → IsValid p
    → obtain kmalloc_ok p.cap_freelist p ≡ (some cb, p')
    → IsValid p' × (in_use p' ≡ in_use p + 1) × (p'.skbs_live ≡ p.skbs_live)
unfolding obtain
obtained_lem kmalloc_ok p p' cb v given = elim (obtain_lem kmalloc_ok p.cap_freelist p refl v) [
  | inl (empty, fails) ↦
      let none_left : ◌≡◌ {A = Option CapBuffer × Pool} (none, p) (some cb, p') =
        sym (ap₂ (λ ok l. obtain ok l p) fails empty) ∙ given in
      absurd (cc)
  | inr (cb₁, p₁, found, v₁, more, same) ↦
      let e : ◌≡◌ {A = Option CapBuffer × Pool} (some cb₁, p₁) (some cb, p') = sym found ∙ given in
      subst (λ q. IsValid q × (in_use q ≡ in_use p + 1) × (q.skbs_live ≡ p.skbs_live))
        (ap (λ r. r.1) e) (v₁, more, same)
]

-- The state before the message is made: one buffer in use more than in `p`.
pub record Holding (p p₁ : Pool) : Type 0 where
  pub valid : IsValid p₁
  pub buffers : in_use p₁ ≡ in_use p + 1
  pub skbs : p₁.skbs_live ≡ p.skbs_live

module _ (api : SkbApi) (portid type : ℕ) (pkt : Packet) (cb_data gfp_mask : ℕ) where
  abbrev pub Gives : Pool → Outcome (Option CapBuffer × Pool) → Type 0
  Gives p o =
      (r : Option CapBuffer) × (p' : Pool) × (o ≡ done (r, p'))
      × Allocated api portid pkt cb_data gfp_mask type p p' r

  give_up_lem :
      (cb : CapBuffer) (p p₁ : Pool)
      → HoldsMessage api portid pkt cb_data gfp_mask type none
      → Holding p p₁
      → Gives p (give_up (some cb) p₁)
  unfolding give_up
  give_up_lem cb p p₁ why h = (
    none,
    _,
    refl,
    record {
      valid = ground (arith, h);
      buffers = ground (arith, h);
      skbs = ground (arith, h);
      contents = why;
    },
  )

  -- Both answers of `nlmsg_put`.
  put_lem :
      (o : Option SkBuff) (skb : SkBuff) (cb : CapBuffer) (p p₁ : Pool)
      → api.nlmsg_new max_skb_bufsize ≡ some skb
      → api.nlmsg_put skb portid 0 type pkt.len 0 ≡ o
      → cb.cb_data ≡ cb_data
      → cb.gfp_mask ≡ gfp_mask
      → Holding p p₁
      → Gives p (put o cb pkt (record p₁ { skbs_live = p₁.skbs_live + 1 }))
  unfolding put
  put_lem none skb cb p p₁ e₁ e₂ d g h =
      give_up_lem (record cb { skb = none }) p (record p₁ { skbs_live = p₁.skbs_live + 1 - 1 })
        (inr (skb, e₁, e₂))
        (record { valid = ground (arith, h); buffers = ground (arith, h); skbs = omega (arith, h) })
  put_lem (some msg) skb cb p p₁ e₁ e₂ d g h = (
    some (filled cb msg pkt),
    record p₁ { skbs_live = p₁.skbs_live + 1 },
    refl,
    record {
      valid = ground (arith, h);
      buffers = ground (arith, h);
      skbs = ground (arith, h);
      contents = (skb, msg, e₁, e₂, ground arith);
    },
  )

  -- On every path after the choice of a buffer the function returns.
  pub attach_lem :
      (o : Option SkBuff) (cb : CapBuffer) (p p₁ : Pool)
      → api.nlmsg_new max_skb_bufsize ≡ o
      → cb.cb_data ≡ cb_data
      → cb.gfp_mask ≡ gfp_mask
      → Holding p p₁
      → Gives p (attach api portid type o cb pkt p₁)
  unfolding attach
  attach_lem none cb p p₁ e d g h = give_up_lem (record cb { skb = none }) p p₁ (inl e) h
  attach_lem (some skb) cb p p₁ e d g h =
      put_lem (api.nlmsg_put skb portid 0 type pkt.len 0) skb cb p p₁ e refl d g h

  -- On a valid pool `cap_buffer_alloc` faults exactly when the free list is empty and `kmalloc`
  -- fails; otherwise it returns a buffer with the packet's message, in use and counted, or NULL,
  -- with as many buffers in use and skbs as before, and the pool stays valid.
  pub cap_buffer_alloc_lem :
      (kmalloc_ok : Bool) (p : Pool)
      → IsValid p
      → ((p.cap_freelist ≡ [])
          × (kmalloc_ok ≡ false)
          × (cap_buffer_alloc api kmalloc_ok portid pkt cb_data gfp_mask type p ≡ oops))
        ⊎ Gives p (cap_buffer_alloc api kmalloc_ok portid pkt cb_data gfp_mask type p)
  unfolding cap_buffer_alloc
  cap_buffer_alloc_lem kmalloc_ok p v = elim (obtain_lem kmalloc_ok p.cap_freelist p refl v) [
    | inl (empty, fails) ↦ inl (empty, fails, rw (empty, fails))
    | inr (cb, p₁, eq, v₁, used, skbs) ↦ inr (
        rw eq (
          attach_lem (api.nlmsg_new max_skb_bufsize)
            (record cb { cb_data = cb_data; gfp_mask = gfp_mask }) p p₁ refl refl refl
            (record { valid = v₁; buffers = used; skbs = skbs })))
  ]
