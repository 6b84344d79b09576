-- ===== src/Capture/Hooks/Queueing.antt =====
-- What hook_func_queue of netlink/netlink.c does on each of its paths.
use modules.Common.{
  ℕ, ◌+◌, ◌≡◌, refl, ◌≢◌, ◌⊎◌, inl, inr, Bool, true, false, Option, none, some, [], ◌∷◌, ◌++◌,
  arith, ◌==◌, take, Outcome, done, oops, Bool-cases, ap, ℕ_discrete,
}
use modules.Nlmsg.{SkBuff, Packet, SkbApi}
use modules.Capture.Buffers.{CapBuffer, Pool, max_skb_bufsize}
use modules.Capture.Buffers.Account
use modules.Capture.Buffers.Account.{in_use, cap_buffer_free-IsValid}
use modules.Capture.Buffers.Alloc.{HoldsMessage, Allocated, cap_buffer_alloc_lem}
use modules.Capture.Rate.{cap_rate_check}
use modules.Capture.State.{CapState, nf_accept, nlmsg_done}
use modules.Capture.Hooks.{gfp_kernel, capture, hook_func_queue}

-- What the hook leaves alone.
pub record Frame (s s' : CapState) : Type 0 where
  pub portid : s'.cap_nlk_portid ≡ s.cap_nlk_portid
  pub users : s'.users ≡ s.users
  pub sent : s'.sent ≡ s.sent
  pub backlog : s'.cap_backlog_limit ≡ s.cap_backlog_limit
  pub task : s'.kcapd_task ≡ s.kcapd_task

-- An allocator failed on the message for a packet.
abbrev pub Unmade : SkbApi → Packet → CapState → Type 0
Unmade api pkt s = HoldsMessage api s.cap_nlk_portid pkt 0 gfp_kernel nlmsg_done none

-- The ways that a call of the hook goes, with the buffers in use, the skbs and the queue after it.
pub data Hooked (api : SkbApi) (hz now : ℕ) (pkt : Packet) (s s' : CapState) : Type 0 where
  idle : s.cap_nlk_portid ≡ 0 → s' ≡ s → Hooked api hz now pkt s s'
  unallocated :
      s.cap_nlk_portid ≢ 0
      → Unmade api pkt s
      → s'.cap_skb_queue ≡ s.cap_skb_queue
      → in_use s'.pool ≡ in_use s.pool
      → s'.pool.skbs_live ≡ s.pool.skbs_live
      → Hooked api hz now pkt s s'
  limited :
      s.cap_nlk_portid ≢ 0
      → (cap_rate_check hz now s.rate).0 ≡ false
      → s'.rate ≡ (cap_rate_check hz now s.rate).1
      → s'.cap_skb_queue ≡ s.cap_skb_queue
      → in_use s'.pool ≡ in_use s.pool + 1
      → s'.pool.skbs_live ≡ s.pool.skbs_live + 1
      → Hooked api hz now pkt s s'
  queued :
      (skb fresh msg : SkBuff)
      → s.cap_nlk_portid ≢ 0
      → api.nlmsg_new max_skb_bufsize ≡ some fresh
      → api.nlmsg_put fresh s.cap_nlk_portid 0 nlmsg_done pkt.len 0 ≡ some msg
      → skb.len ≡ msg.len
      → (cap_rate_check hz now s.rate).0 ≡ true
      → s'.rate ≡ (cap_rate_check hz now s.rate).1
      → skb.payload ≡ take pkt.len pkt.bytes
      → skb.nlh.nlmsg_len ≡ skb.len
      → s'.cap_skb_queue ≡ s.cap_skb_queue ++ skb ∷ []
      → in_use s'.pool ≡ in_use s.pool
      → s'.pool.skbs_live ≡ s.pool.skbs_live + 1
      → Hooked api hz now pkt s s'

module _ (api : SkbApi) (hz now : ℕ) (pkt : Packet) where
  -- The call returned in a state that the hook may leave.
  abbrev pub Passes : CapState → Outcome CapState → Type 0
  Passes s o =
      (s' : CapState) × (o ≡ done s')
      × Account.IsValid s'.pool
      × Frame s s'
      × Hooked api hz now pkt s s'

  capture_lem :
      (cb : Option CapBuffer) (s : CapState) (pool : Pool)
      → s.cap_nlk_portid ≢ 0
      → Allocated api s.cap_nlk_portid pkt 0 gfp_kernel nlmsg_done s.pool pool cb
      → Passes s (capture hz now cb (record s { pool = pool }))
  unfolding capture
  capture_lem none s pool on a = (
    _,
    refl,
    a.valid,
    record { portid = refl; users = refl; sent = refl; backlog = refl; task = refl },
    unallocated on a.contents refl (omega (arith, a)) (omega (arith, a)),
  )
  capture_lem (some cb) s pool on a =
      let (skb, msg, made, put, is) = a.contents in
      let filled = record msg { payload = take pkt.len pkt.bytes } in
      let has : cb.skb ≡ some filled = ap CapBuffer.skb is in
      let (pool', frees, valid, used, skbs) =
        cap_buffer_free-IsValid (record cb { skb = none }) pool a.valid (omega (arith, a)) in
      elim (Bool-cases (cap_rate_check hz now s.rate).0) [
        | inl pass ↦
            rw (pass, has, frees)
              (
                _,
                refl,
                valid,
                record { portid = refl; users = refl; sent = refl; backlog = refl; task = refl },
                queued (record filled { nlh = record (msg.nlh) { nlmsg_len = msg.len } }) skb msg on
                    made put refl pass refl refl refl refl (omega (arith, a)) (omega (arith, a)),
              )
        | inr over ↦ rw over (
          _,
          refl,
          a.valid,
          record { portid = refl; users = refl; sent = refl; backlog = refl; task = refl },
          limited on over refl refl (omega (arith, a)) (omega (arith, a)),
        )
      ]

  -- On a valid pool the hook accepts the packet in every case in which it returns: it does nothing
  -- with no user, and otherwise changes nothing but the pool, or drops the buffer and its skb
  -- above the rate limit without giving them back, or queues one message with the packet's bytes
  -- and gives the buffer back. It faults exactly when there is a user, the free list is empty and
  -- `kmalloc` fails.
  pub hook_func_queue_lem :
      (kmalloc_ok : Bool) (s : CapState)
      → Account.IsValid s.pool
      → ((s.cap_nlk_portid ≢ 0)
          × (s.pool.cap_freelist ≡ [])
          × (kmalloc_ok ≡ false)
          × (hook_func_queue api kmalloc_ok hz now pkt s ≡ oops))
        ⊎ ((s' : CapState) × (hook_func_queue api kmalloc_ok hz now pkt s ≡ done (nf_accept, s'))
            × Account.IsValid s'.pool
            × Frame s s'
            × Hooked api hz now pkt s s')
  unfolding hook_func_queue
  hook_func_queue_lem kmalloc_ok s v = elim (ℕ_discrete s.cap_nlk_portid 0) [
    | yes off ↦ inr (
      s,
      ground (arith, off),
      v,
      record { portid = refl; users = refl; sent = refl; backlog = refl; task = refl },
      idle off refl,
    )
    | no on ↦
        let waits : (s.cap_nlk_portid == 0) ≡ false = ground arith in
        elim (cap_buffer_alloc_lem api s.cap_nlk_portid nlmsg_done pkt 0 gfp_kernel kmalloc_ok
          s.pool v) [
            | inl (empty, fails, faults) ↦ inl (on, empty, fails, rw (waits, faults))
            | inr (cb, pool, gives, a) ↦
                let (s', eq, valid, frame, how) = capture_lem cb s pool on a in
                inr (s', rw (waits, gives, eq), valid, frame, how)
          ]
  ]
