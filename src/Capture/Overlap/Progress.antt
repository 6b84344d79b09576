-- ===== src/Capture/Overlap/Progress.antt =====
-- A call of the hook of netlink/netlink.c ends, whatever the other processors do.
use modules.Common.{
  ℕ, ◌≤◌, ◌<◌, ◌≡◌, ◌≢◌, refl, sym, ap, subst, inl, inr, ◌⊎◌, Bool, true, false, Option, none, some,
  List, [], ◌∷◌, ◌++◌, replicate, zero, suc, All, Outcome, done, arith, Bool-cases, Option-cases,
  take,
}
use modules.Nlmsg.{SkBuff, Packet, SkbApi}
use modules.Capture.Buffers.{
  CapBuffer, Pool, max_skb_bufsize, attach, put, give_up, cap_buffer_free,
}
use modules.Capture.Rate.{cap_rate_check}
use modules.Capture.State.{nlmsg_done, not_loaded, app_init}
use modules.Capture.Hooks.{gfp_kernel}
use modules.Capture.Overlap.{
  HookAt, outside, obtained, filled, passed, queued, lengthened, Smp, Step, obtains, faults, fills,
  gives_up, passes, limits, queues, frees, takes, sends, refuses, forgets, stops, port, Overlap,
  start, step,
}
use modules.Capture.Overlap.Counts.{attach_returns}
use modules.Capture.Overlap.Accounts.{IsAccounted, busy_lem, kept}
use modules.Capture.Overlap.Lifetime.{on_processors, loaded-IsAccounted}

-- What a processor has in the hook: once there is a message, it is in the buffer.
abbrev HasMessage : HookAt → Type 0
HasMessage outside = Unit {0}
HasMessage (obtained cb pkt) = Unit {0}
HasMessage (filled cb) = (skb : SkBuff) × (cb.skb ≡ some skb)
HasMessage (passed cb) = (skb : SkBuff) × (cb.skb ≡ some skb)
HasMessage (queued cb) = Unit {0}

-- One processor's part of a statement about all, and what holds of all when it moves.
All-at :
    (P : HookAt → Type 0) (before : List HookAt) (at : HookAt) (after : List HookAt)
    → All P (before ++ at ∷ after)
    → P at
All-at P [] at after h = h.0
All-at P (b ∷ before) at after h = All-at P before at after h.1

All-moved :
    (P : HookAt → Type 0) (before : List HookAt) (at at' : HookAt) (after : List HookAt)
    → All P (before ++ at ∷ after)
    → P at'
    → All P (before ++ at' ∷ after)
All-moved P [] at at' after h p = (p, h.1)
All-moved P (b ∷ before) at at' after h p = (h.0, All-moved P before at at' after h.1 p)

same_buffer :
    (c c' : CapBuffer) (p p' : Pool)
    → ◌≡◌ {A = Outcome (Option CapBuffer × Pool)} (done (some c, p)) (done (some c', p'))
    → c ≡ c'
same_buffer c c' p p' e = cc

-- A buffer that `attach` returns has a message.
attach-HasMessage :
    (api : SkbApi) (portid : ℕ) (pkt : Packet) (cb cb' : CapBuffer) (p p' : Pool)
    → attach api portid nlmsg_done
        (api.nlmsg_new max_skb_bufsize)
        (record cb { cb_data = 0; gfp_mask = gfp_kernel })
        pkt
        p
      ≡ done (some cb', p')
    → (skb : SkBuff) × (cb'.skb ≡ some skb)
unfolding attach put give_up cap_buffer_free
attach-HasMessage api portid pkt cb cb' p p' made =
    elim (Option-cases (api.nlmsg_new max_skb_bufsize)) [
      | inl missing ↦ let bad = rw missing at made in absurd (cc)
      | inr (fresh, new) ↦ elim (Option-cases (api.nlmsg_put fresh portid 0 nlmsg_done pkt.len 0)) [
        | inl missing ↦ let bad = rw (new, missing) at made in absurd (cc)
        | inr (msg, is) ↦ (
          record msg { payload = take pkt.len pkt.bytes },
          sym (ap CapBuffer.skb (same_buffer _ cb' _ p' (rw (new, is) at made))),
        )
      ]
    ]

Step-HasMessage : (s t : Smp) → All HasMessage s.cpus → Step s t → All HasMessage t.cpus
Step-HasMessage s t h (obtains before after kmalloc_ok pkt cb p at on given) =
    All-moved HasMessage before outside (obtained cb pkt) after (subst (All HasMessage) at h) tt
Step-HasMessage s t h (faults before after kmalloc_ok p at on given) = h
Step-HasMessage s t h (fills before after api pkt cb cb' p at made) =
    All-moved HasMessage before (obtained cb pkt) (filled cb') after (subst (All HasMessage) at h)
      (attach-HasMessage api s.cap_nlk_portid pkt cb cb' s.pool p made)
Step-HasMessage s t h (gives_up before after api pkt cb p at made) =
    All-moved HasMessage before (obtained cb pkt) outside after (subst (All HasMessage) at h) tt
Step-HasMessage s t h (passes before after hz now cb r at pass) =
    let all = subst (All HasMessage) at h in
    All-moved HasMessage before (filled cb) (passed cb) after all
      (All-at HasMessage before (filled cb) after all)
Step-HasMessage s t h (limits before after hz now cb r at fail) =
    All-moved HasMessage before (filled cb) outside after (subst (All HasMessage) at h) tt
Step-HasMessage s t h (queues before after cb skb at has) =
    All-moved HasMessage before (passed cb) (queued (record cb { skb = none })) after
      (subst (All HasMessage) at h) tt
Step-HasMessage s t h (frees before after cb p at freed) =
    All-moved HasMessage before (queued cb) outside after (subst (All HasMessage) at h) tt
Step-HasMessage s t h (takes skb rest idle at) = h
Step-HasMessage s t h (sends netlink_unicast skb at ok) = h
Step-HasMessage s t h (refuses netlink_unicast skb at fails why) = h
Step-HasMessage s t h (forgets at) = h
Step-HasMessage s t h (stops netlink_unicast skb at fails why) = h
Step-HasMessage s t h (port portid) = h

Overlap-HasMessage : (s t : Smp) → All HasMessage s.cpus → Overlap s t → All HasMessage t.cpus
Overlap-HasMessage s t h start = h
Overlap-HasMessage s t h (step {t = before} run st) =
    Step-HasMessage before t (Overlap-HasMessage s before h run) st

-- The steps that are left to a call.
abbrev pub left : HookAt → ℕ
left outside = 0
left (queued cb) = 1
left (passed cb) = 2
left (filled cb) = 3
left (obtained cb pkt) = 4

left-le : (at : HookAt) → left at ≤ 4
left-le outside = omega arith
left-le (queued cb) = omega arith
left-le (passed cb) = omega arith
left-le (filled cb) = omega arith
left-le (obtained cb pkt) = omega arith

-- What a step from one place to another does with the answers of the allocators, the clock and HZ: the
-- message is made, or cannot be and the call ends; it is let through, or not and the call ends; it is
-- queued; and the buffer is given back.
abbrev pub Does : SkbApi → (hz now : ℕ) → (s t : Smp) → (from to : HookAt) → Type 0
Does api hz now s t outside to = ⊥
Does api hz now s t (obtained cb pkt) to =
    let made =
      attach api s.cap_nlk_portid nlmsg_done (api.nlmsg_new max_skb_bufsize)
        (record cb { cb_data = 0; gfp_mask = gfp_kernel }) pkt s.pool in
    ((cb' : CapBuffer) × (made ≡ done (some cb', t.pool)) × (to ≡ filled cb'))
    ⊎ ((made ≡ done (none, t.pool)) × (to ≡ outside))
Does api hz now s t (filled cb) to =
    ((cap_rate_check hz now s.rate ≡ (true, t.rate)) × (to ≡ passed cb))
    ⊎ ((cap_rate_check hz now s.rate ≡ (false, t.rate)) × (to ≡ outside))
Does api hz now s t (passed cb) to =
    (skb : SkBuff) × (cb.skb ≡ some skb)
    × (t.cap_skb_queue ≡ s.cap_skb_queue ++ lengthened skb ∷ [])
    × (to ≡ queued (record cb { skb = none }))
Does api hz now s t (queued cb) to =
    (cap_buffer_free (some cb) s.pool ≡ done t.pool) × (to ≡ outside)

-- The next step of a call, where the processor has got to a certain place.
module _ (n : ℕ) (s : Smp) (before after : List HookAt) (a : IsAccounted n s) where
  abbrev HasNext : SkbApi → (hz now : ℕ) → HookAt → Type 0
  HasNext api hz now at =
      (t : Smp) × (at' : HookAt) × Step s t
      × Does api hz now s t at at'
      × (t.cpus ≡ before ++ at' ∷ after)
      × (left at' < left at)

  made-HasNext :
      (api : SkbApi) (hz now : ℕ) (pkt : Packet) (cb : CapBuffer) (r : Option CapBuffer) (p : Pool)
      → s.cpus ≡ before ++ obtained cb pkt ∷ after
      → attach api s.cap_nlk_portid nlmsg_done
          (api.nlmsg_new max_skb_bufsize)
          (record cb { cb_data = 0; gfp_mask = gfp_kernel })
          pkt
          s.pool
        ≡ done (r, p)
      → HasNext api hz now (obtained cb pkt)
  made-HasNext api hz now pkt cb (some cb') p e made = (
    _,
    filled cb',
    fills before after api pkt cb cb' p e made,
    inl (cb', made, refl),
    refl,
    omega arith,
  )
  made-HasNext api hz now pkt cb none p e made =
      (_, outside, gives_up before after api pkt cb p e made, inr (made, refl), refl, omega arith)

  goes_on :
      (api : SkbApi) (hz now : ℕ) (at : HookAt)
      → HasMessage at
      → s.cpus ≡ before ++ at ∷ after
      → at ≢ outside
      → HasNext api hz now at
  unfolding cap_buffer_free
  goes_on api hz now outside h e in_hook = absurd (in_hook refl)
  goes_on api hz now (obtained cb pkt) h e in_hook =
      let some_held = busy_lem n s before (obtained cb pkt) after a e in
      let (r, p, made) =
        attach_returns api s.cap_nlk_portid pkt cb s.pool a.valid (omega (arith, some_held)) in
      made-HasNext api hz now pkt cb r p e made
  goes_on api hz now (filled cb) h e in_hook =
      let check = cap_rate_check hz now s.rate in
      elim (Bool-cases check.0) [
        | inl pass ↦ (
          _,
          passed cb,
          passes before after hz now cb check.1 e (ap (λ b. (b, check.1)) pass),
          inl (ap (λ b. (b, check.1)) pass, refl),
          refl,
          omega arith,
        )
        | inr fail ↦ (
          _,
          outside,
          limits before after hz now cb check.1 e (ap (λ b. (b, check.1)) fail),
          inr (ap (λ b. (b, check.1)) fail, refl),
          refl,
          omega arith,
        )
      ]
  goes_on api hz now (passed cb) (skb, has) e in_hook = (
    _,
    queued (record cb { skb = none }),
    queues before after cb skb e has,
    (skb, has, refl, refl),
    refl,
    omega arith,
  )
  goes_on api hz now (queued cb) h e in_hook =
      (_, outside, frees before after cb _ e refl, (refl, refl), refl, omega arith)

loaded-HasMessage : (n : ℕ) → All HasMessage (replicate n outside)
loaded-HasMessage zero = tt
loaded-HasMessage (suc n) = (tt, loaded-HasMessage n)

-- In every state that the module gets to from when it is loaded, on any number of processors, and for
-- any answers of the allocators, any time and HZ, one that is in the hook can take a step that goes by
-- these answers: with its message made or the call ended where that fails, with the message let through
-- or the call ended as cap_rate_check says, with the message queued, or with the buffer given back. No
-- other processor moves by it, and it is nearer to the end of its call, which is at most four steps away.
pub app_init-left :
    (n : ℕ) (registers : Bool) (s : Smp) (before : List HookAt) (at : HookAt) (after : List HookAt)
    (api : SkbApi) (hz now : ℕ)
    → Overlap (on_processors n (app_init true registers not_loaded).1) s
    → s.cpus ≡ before ++ at ∷ after
    → at ≢ outside
    → (left at ≤ 4)
      × ((t : Smp) × (at' : HookAt) × Step s t
          × Does api hz now s t at at'
          × (t.cpus ≡ before ++ at' ∷ after)
          × (left at' < left at))
unfolding app_init
app_init-left n registers s before at after api hz now run e in_hook =
    let first = on_processors n (app_init true registers not_loaded).1 in
    let a = kept n first s (loaded-IsAccounted n registers) run in
    let h = Overlap-HasMessage first s (loaded-HasMessage n) run in
    (
      left-le at,
      goes_on n s before after a api hz now at
          (All-at HasMessage before at after (subst (All HasMessage) e h)) e in_hook,
    )
