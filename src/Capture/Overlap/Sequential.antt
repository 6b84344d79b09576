-- ===== src/Capture/Overlap/Sequential.antt =====
-- hook_func_queue of netlink/netlink.c as one call, and as the steps of one processor.
use modules.Common.{
  ℕ, ◌+◌, ◌≡◌, ◌≢◌, refl, ap, subst, inl, inr, Bool, false, Option, none, some, List, [], ◌∷◌, ◌++◌,
  Outcome, done, ◌>>=◌, oops, Bool-cases, Option-cases, Outcome-cases, ◌==◌, arith,
}
use modules.Nlmsg.{SkBuff, Packet, SkbApi}
use modules.Capture.Buffers.{
  CapBuffer, Pool, max_skb_bufsize, obtain, attach, prepare, give_up, cap_buffer_free,
  cap_buffer_alloc,
}
use modules.Capture.Rate.{cap_rate_check}
use modules.Capture.State.{CapState, nf_accept, nlmsg_done}
use modules.Capture.Hooks.{gfp_kernel, enqueue, capture, hook_func_queue}
use modules.Capture.Overlap.{
  HookAt, waiting, outside, obtained, filled, passed, Smp, lengthened, obtains, fills, gives_up,
  passes, limits, queues, frees, Overlap, start, step,
}

-- The module with one processor, a thread that waits, and what was counted and recorded so far.
abbrev pub alone : HookAt → (lost refused : ℕ) → (enqueued taken : List SkBuff) → CapState → Smp
alone at lost refused enqueued taken s = record {
  pool = s.pool;
  rate = s.rate;
  cap_nlk_portid = s.cap_nlk_portid;
  cap_skb_queue = s.cap_skb_queue;
  cpus = at ∷ [];
  enqueued = enqueued;
  taken = taken;
  kcapd = waiting;
  sent = s.sent;
  lost = lost;
  refused = refused;
  faulted = false;
}

-- What a run comes to: a state with the processor outside.
abbrev Ends : Smp → ℕ → List SkBuff → CapState → Type 0
Ends x refused taken s' =
    (lost : ℕ) × (enqueued : List SkBuff) × Overlap x (alone outside lost refused enqueued taken s')

-- A run whose state is the one that the call returns.
same_end : (s t : CapState) → ◌≡◌ {A = Outcome CapState} (done s) (done t) → s ≡ t
same_end s t e = cc

carried_over :
    (x : Smp) (refused : ℕ) (taken : List SkBuff) (s t : CapState)
    → ◌≡◌ {A = Outcome CapState} (done s) (done t)
    → Ends x refused taken s
    → Ends x refused taken t
carried_over x refused taken s t e run = subst (Ends x refused taken) (same_end s t e) run

enqueue_runs :
    (x : Smp) (cb : CapBuffer) (s s' : CapState) (lost refused : ℕ) (enqueued taken : List SkBuff)
    → Overlap x (alone (passed cb) lost refused enqueued taken s)
    → enqueue cb cb.skb s ≡ done s'
    → Ends x refused taken s'
unfolding enqueue cap_buffer_free
enqueue_runs x cb s s' lost refused enqueued taken run e = elim (Option-cases cb.skb) [
  | inl missing ↦ let bad = rw missing at e in absurd (cc)
  | inr (skb, has) ↦ carried_over x refused taken _ s' (rw has at e) (
    lost,
    enqueued ++ lengthened skb ∷ [],
    step (step run (queues [] [] cb skb refl has))
        (frees [] [] (record cb { skb = none }) _ refl refl),
  )
]

capture_runs :
    (x : Smp) (hz now : ℕ) (cb : CapBuffer) (s s' : CapState) (lost refused : ℕ)
    (enqueued taken : List SkBuff)
    → Overlap x (alone (filled cb) lost refused enqueued taken s)
    → capture hz now (some cb) s ≡ done s'
    → Ends x refused taken s'
unfolding capture
capture_runs x hz now cb s s' lost refused enqueued taken run e =
    let check = cap_rate_check hz now s.rate in
    elim (Bool-cases check.0) [
      | inl pass ↦
          enqueue_runs x cb (record s { rate = check.1 }) s' lost refused enqueued taken
            (step run (passes [] [] hz now cb check.1 refl (ap (λ b. (b, check.1)) pass)))
            (rw pass at e)
      | inr fail ↦
          carried_over x refused taken (record s { rate = check.1 }) s' (rw fail at e)
            (
              lost + 1,
              enqueued,
              step run (limits [] [] hz now cb check.1 refl (ap (λ b. (b, check.1)) fail)),
            )
    ]

module _ (api : SkbApi) (kmalloc_ok : Bool) (hz now : ℕ) (pkt : Packet) where
  -- The call from the result of `cap_buffer_alloc` on.
  abbrev rest_of : CapState → Outcome (Option CapBuffer × Pool) → Outcome (ℕ × CapState)
  rest_of s made = do
    (cb, pool) ← made
    s' ← capture hz now cb (record s { pool = pool })
    done (nf_accept, s')

  -- A result of `capture` under the verdict.
  abbrev accepted : Outcome CapState → Outcome (ℕ × CapState)
  accepted o = do t ← o; done (nf_accept, t)

  captured :
      (v : ℕ) (o : Outcome CapState) (s' : CapState) → accepted o ≡ done (v, s') → o ≡ done s'
  captured v oops s' e = absurd (cc)
  captured v (done t) s' e =
      let same : ◌≡◌ {A = ℕ × CapState} (nf_accept, t) (v, s') = cc in ap (λ r. done r.1) same

  attach_runs :
      (x : Smp) (cb : CapBuffer) (s s' : CapState) (verdict lost refused : ℕ)
      (enqueued taken : List SkBuff)
      → Overlap x (alone (obtained cb pkt) lost refused enqueued taken s)
      → rest_of s (
          attach api s.cap_nlk_portid nlmsg_done
            (api.nlmsg_new max_skb_bufsize)
            (record cb { cb_data = 0; gfp_mask = gfp_kernel })
            pkt
            s.pool)
        ≡ done (verdict, s')
      → Ends x refused taken s'
  unfolding capture
  attach_runs x cb s s' verdict lost refused enqueued taken run e =
      elim (Outcome-cases (
        attach api s.cap_nlk_portid nlmsg_done (api.nlmsg_new max_skb_bufsize)
          (record cb { cb_data = 0; gfp_mask = gfp_kernel }) pkt s.pool)) [
            | inl fault ↦ let bad = rw fault at e in absurd (cc)
            | inr ((some cb', p), gives) ↦
                capture_runs x hz now cb' (record s { pool = p }) s' lost refused enqueued taken
                  (step run (fills [] [] api pkt cb cb' p refl gives))
                  (captured verdict (capture hz now (some cb') (record s { pool = p })) s'
                    (rw gives at e))
            | inr ((none, p), gives) ↦
                carried_over x refused taken (record s { pool = p }) s'
                  (captured verdict (done (record s { pool = p })) s' (rw gives at e))
                  (lost, enqueued, step run (gives_up [] [] api pkt cb p refl gives))
          ]

  -- Every call that returns, from any state, leads where some steps of one processor lead that starts
  -- and ends outside of the hook, with nothing taken from the queue.
  pub hook_func_queue-Overlap :
      (s s' : CapState) (verdict lost refused : ℕ) (enqueued taken : List SkBuff)
      → hook_func_queue api kmalloc_ok hz now pkt s ≡ done (verdict, s')
      → (lost' : ℕ) × (enqueued' : List SkBuff) × Overlap
          (alone outside lost refused enqueued taken s)
          (alone outside lost' refused enqueued' taken s')
  unfolding hook_func_queue cap_buffer_alloc prepare give_up cap_buffer_free
  hook_func_queue-Overlap s s' verdict lost refused enqueued taken e =
      let got = obtain kmalloc_ok s.pool.cap_freelist s.pool in
      elim (Bool-cases (s.cap_nlk_portid == 0)) [
        | inl idle ↦
            carried_over (alone outside lost refused enqueued taken s) refused taken s s'
              (captured verdict (done s) s' (rw idle at e)) (lost, enqueued, start)
        | inr busy ↦
            let user : s.cap_nlk_portid ≢ 0 = λ z. ground (arith, busy, z) in
            elim (Option-cases got.0) [
              | inl missing ↦ let bad = rw (busy, missing) at e in absurd (cc)
              | inr (cb, has) ↦
                  attach_runs (alone outside lost refused enqueued taken s) cb
                    (record s { pool = got.1 }) s' verdict lost refused enqueued taken
                    (step start
                      (obtains [] [] kmalloc_ok pkt cb got.1 refl user (ap (λ r. (r, got.1)) has)))
                    (rw (busy, has) at e)
            ]
      ]
