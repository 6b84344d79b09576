-- ===== src/Capture/Session/Unload.antt =====
-- What netlink/netlink.c leaves behind when it is unloaded.
use modules.Common.{
  ℕ, ◌+◌, ◌-◌, ◌≡◌, refl, sym, ap, subst, ◌∙◌, ◌⊎◌, inl, inr, Bool, true, false, none, List, [],
  ◌∷◌, ℤ, is_neg, eq_ℤ, neg_econnrefused, length, arith, done, Bool-cases,
}
use modules.Nlmsg.{SkBuff}
use modules.Capture.Buffers.{Pool}
use modules.Capture.Buffers.Account
use modules.Capture.State.{CapState, not_loaded, app_init, app_exit}
use modules.Capture.Hooks.Queueing.{idle, unallocated, limited, queued, hook_func_queue_lem}
use modules.Capture.Daemon.{with_skbs, wake_backlog, round}
use modules.Capture.Daemon.Drain.{mailed, send-taken, send-refused, send-stopped, round-nil}
use modules.Capture.Receive.Messages.{cap_receive_skb-mail, cap_receive_skb-task}
use modules.Capture.Session.{Run, start, packet, deliver, receive, refusals}
use modules.Capture.Session.Order.{Run-pool}
use modules.Capture.Overlap.{outside}
use modules.Capture.Overlap.Sequential.{alone}
use modules.Capture.Overlap.Runs.{Run-Overlap}
use modules.Capture.Overlap.Lifetime.{app_init-Overlap}

-- A round does not stop the thread.
round-task :
    (netlink_unicast : SkBuff → ℕ → ℤ) (queue : List SkBuff) (t u : CapState)
    → round netlink_unicast queue t ≡ done u
    → u.kcapd_task ≡ t.kcapd_task
unfolding round
round-task netlink_unicast [] t u runs = let same : t ≡ u = cc in ap CapState.kcapd_task (sym same)
round-task netlink_unicast (skb ∷ rest) t u runs =
    let w = wake_backlog (record t { cap_skb_queue = rest }) in
    elim (Bool-cases (is_neg (netlink_unicast skb t.cap_nlk_portid))) [
      | inl fails ↦
          elim (Bool-cases (eq_ℤ (netlink_unicast skb t.cap_nlk_portid) neg_econnrefused)) [
            | inl why ↦
                let same : record (mailed skb w) { cap_nlk_portid = 0 } ≡ u =
                  cc (send-refused netlink_unicast skb w fails why) in
                ap CapState.kcapd_task (sym same)
            | inr worse ↦ absurd (cc (send-stopped netlink_unicast skb w fails worse))
          ]
      | inr ok ↦
          let same : mailed skb (with_skbs (w.pool.skbs_live - 1) w) ≡ u =
            cc (send-taken netlink_unicast skb w ok) in
          ap CapState.kcapd_task (sym same)
    ]

-- Until the thread is started there is no user, no message and no buffer.
abbrev IsUntouched : CapState → Type 0
IsUntouched s =
    (s.kcapd_task ≡ true)
    ⊎ ((s.kcapd_task ≡ false)
        × (s.cap_nlk_portid ≡ 0)
        × (s.cap_skb_queue ≡ [])
        × (s.pool ≡ not_loaded.pool))

-- The module after its start.
abbrev pub loaded : (registers : Bool) → CapState
loaded registers = (app_init true registers not_loaded).1

pub loaded-IsValid : (registers : Bool) → Account.IsValid (loaded registers).pool
unfolding app_init
loaded-IsValid registers = record { counted = refl; capped = omega arith; owned = omega arith }

module _ {Ptr : Type 0} (registers : Bool) where
  Run-IsUntouched :
      {seen : List (List ℕ)} {s' : CapState} → Run Ptr (loaded registers) seen s' → IsUntouched s'
  unfolding app_init
  Run-IsUntouched start = inr (refl, refl, refl, refl)
  Run-IsUntouched (packet {seen} {t} {u} api kmalloc_ok hz now verdict pkt r runs) =
      elim (hook_func_queue_lem api hz now pkt kmalloc_ok t
        (Run-pool (loaded registers) (loaded-IsValid registers) r)) [
          | inl (on, empty, fails, faults) ↦ absurd (cc)
          | inr (u', eq, valid, frame, how) ↦
              let same : u' ≡ u = cc in
              subst IsUntouched same (elim (Run-IsUntouched r) [
                | inl on ↦ inl (frame.task ∙ on)
                | inr (off, port, queue, pool) ↦ elim how [
                  | idle _ still ↦ inr (
                    ap CapState.kcapd_task still ∙ off,
                    ap CapState.cap_nlk_portid still ∙ port,
                    ap CapState.cap_skb_queue still ∙ queue,
                    ap CapState.pool still ∙ pool,
                  )
                  | unallocated on _ _ _ _ ↦ absurd (on port)
                  | limited on _ _ _ _ _ ↦ absurd (on port)
                  | queued skb fresh msg on _ _ _ _ _ _ _ _ _ _ ↦ absurd (on port)
                ]
              ])
        ]
  Run-IsUntouched (deliver {seen} {t} {u} netlink_unicast r runs) = elim (Run-IsUntouched r) [
    | inl on ↦ inl (round-task netlink_unicast t.cap_skb_queue t u runs ∙ on)
    | inr (off, port, queue, pool) ↦
        let same : t ≡ u = cc (round-nil netlink_unicast t) in
        subst IsUntouched same (inr (off, port, queue, pool))
  ]
  Run-IsUntouched (receive {seen} {t} {u} api kthread_run nlh len law r runs) =
      let (_, queue', pool', _, _) = cap_receive_skb-mail api kthread_run nlh len t u law runs in
      elim (cap_receive_skb-task api kthread_run nlh len t u law runs) [
        | inl on ↦ inl on
        | inr (task, user) ↦ elim (Run-IsUntouched r) [
          | inl on ↦ inl (task ∙ on)
          | inr (off, port, queue, pool) ↦
              inr (task ∙ off, user ∙ port, queue' ∙ queue, pool' ∙ pool)
        ]
      ]

  -- Unloading the module after any run of calls from when it was loaded: the socket and the hook are
  -- gone. The buffers that are left are those on the free list, the skbs those on the queue and one for
  -- each send of the run that was refused, and the thread is left where it was started; where it was
  -- not, nothing is left.
  pub app_exit-Run :
      {seen : List (List ℕ)} {s : CapState}
      → (r : Run Ptr (loaded registers) seen s)
      → let gone = app_exit s in
        (gone.cap_sock ≡ false)
        × (gone.nfhk ≡ none)
        × (gone.pool.bufs_live ≡ length gone.pool.cap_freelist)
        × (gone.pool.skbs_live ≡ length gone.cap_skb_queue + refusals r)
        × ((gone.kcapd_task ≡ true)
            ⊎ ((gone.kcapd_task ≡ false)
                × (gone.pool.bufs_live ≡ 0)
                × (gone.pool.skbs_live ≡ 0)
                × (gone.cap_skb_queue ≡ [])))
  unfolding app_exit
  app_exit-Run {s} r =
      let valid = Run-pool (loaded registers) (loaded-IsValid registers) r in
      let (lost, enqueued, taken, run) = Run-Overlap (loaded registers) s 0 0 [] [] r in
      let (_, used, _, messages, _) =
        app_init-Overlap 1 registers (alone outside lost (0 + refusals r) enqueued taken s) run in
      (
        refl,
        refl,
        omega (arith, used, valid.counted, valid.owned),
        omega (arith, messages),
        elim (Run-IsUntouched r) [
          | inl on ↦ inl on
          | inr (off, port, queue, pool) ↦
              inr (off, ap Pool.bufs_live pool, ap Pool.skbs_live pool, queue)
        ],
      )
