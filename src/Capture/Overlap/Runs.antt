-- ===== src/Capture/Overlap/Runs.antt =====
-- Any sequence of whole calls in netlink/netlink.c, as it is in Capture.Session, and the steps of one
-- processor, the thread and what sets the port.
use modules.Common.{
  arith, ℕ, ◌+◌, ◌-◌, ◌≡◌, refl, sym, subst, ◌∙◌, inl, inr, List, [], ◌∷◌, ◌++◌, ℤ, is_neg, eq_ℤ,
  neg_econnrefused, Outcome, done, Bool-cases,
}
use modules.Nlmsg.{SkBuff}
use modules.Capture.State.{CapState}
use modules.Capture.Daemon.{with_skbs, wake_backlog, round}
use modules.Capture.Daemon.Drain.{mailed, send-taken, send-refused, send-stopped}
use modules.Capture.Receive.Messages.{cap_receive_skb-mail}
use modules.Capture.Session.{Run, start, packet, deliver, receive, refused_by, refusals}
use modules.Capture.Overlap.{outside, Smp, Overlap, step, takes, sends, refuses, forgets, port}
use modules.Capture.Overlap as Steps
use modules.Capture.Overlap.Sequential.{alone, hook_func_queue-Overlap}

joined : {s t u : Smp} → Overlap s t → Overlap t u → Overlap s u
joined r Steps.start = r
joined r (step q st) = step (joined r q) st

-- A run that ends in a state, with as many refused messages, and whatever else was recorded on the way.
abbrev Leads : Smp → ℕ → CapState → Type 0
Leads x refused s =
    (lost : ℕ) × (enqueued taken : List SkBuff) × Overlap x
      (alone outside lost refused enqueued taken s)

ends_at :
    (x : Smp) (refused : ℕ) (s t : CapState)
    → ◌≡◌ {A = Outcome CapState} (done s) (done t)
    → Leads x refused s
    → Leads x refused t
ends_at x refused s t e run = let same : s ≡ t = cc in subst (Leads x refused) same run

round-Leads :
    (x : Smp) (netlink_unicast : SkBuff → ℕ → ℤ) (queue : List SkBuff) (refused : ℕ)
    (s s' : CapState)
    → s.cap_skb_queue ≡ queue
    → round netlink_unicast queue s ≡ done s'
    → Leads x refused s
    → Leads x (refused + refused_by netlink_unicast queue s.cap_nlk_portid) s'
unfolding round
round-Leads x netlink_unicast [] refused s s' e runs l =
    subst (λ k. Leads x k s') (omega arith) (ends_at x refused s s' runs l)
round-Leads x netlink_unicast (skb ∷ rest) refused s s' e runs (lost, enqueued, taken, run) =
    let t = wake_backlog (record s { cap_skb_queue = rest }) in
    let took = step run (takes skb rest refl e) in
    elim (Bool-cases (is_neg (netlink_unicast skb s.cap_nlk_portid))) [
      | inl fails ↦
          elim (Bool-cases (eq_ℤ (netlink_unicast skb s.cap_nlk_portid) neg_econnrefused)) [
            | inl why ↦ rw fails (
                ends_at x (refused + 1) (record (mailed skb t) { cap_nlk_portid = 0 }) s'
                  (sym (send-refused netlink_unicast skb t fails why) ∙ runs)
                  (
                    lost,
                    enqueued,
                    taken ++ skb ∷ [],
                    step (step took (refuses netlink_unicast skb refl fails why)) (forgets refl),
                  ))
            | inr worse ↦ let bad = send-stopped netlink_unicast skb t fails worse in absurd (cc)
          ]
      | inr ok ↦ rw ok (
          subst (λ k. Leads x k s') (omega arith)
            (ends_at x refused (mailed skb (with_skbs (t.pool.skbs_live - 1) t)) s'
              (sym (send-taken netlink_unicast skb t ok) ∙ runs)
              (lost, enqueued, taken ++ skb ∷ [], step took (sends netlink_unicast skb refl ok))))
    ]

Run-Leads :
    {Ptr : Type 0} (x : Smp) (refused : ℕ) (s : CapState) {seen : List (List ℕ)} {s' : CapState}
    → Leads x refused s
    → (r : Run Ptr s seen s') → Leads x (refused + refusals r) s'
unfolding refusals
Run-Leads x refused s l start = subst (λ k. Leads x k s) (omega arith) l
Run-Leads x refused s l (packet {seen} {t} {u} api kmalloc_ok hz now verdict pkt r runs) =
    let (lost, enqueued, taken, run) = Run-Leads x refused s l r in
    let (lost', enqueued', more) =
      hook_func_queue-Overlap api kmalloc_ok hz now pkt t u verdict lost (refused + refusals r)
        enqueued taken runs in
    (lost', enqueued', taken, joined run more)
Run-Leads x refused s l (deliver {seen} {t} {u} netlink_unicast r runs) =
    subst (λ k. Leads x k u) (omega arith)
      (round-Leads x netlink_unicast t.cap_skb_queue (refused + refusals r) t u refl runs
        (Run-Leads x refused s l r))
Run-Leads x refused s l (receive {seen} {t} {u} api kthread_run nlh len law r runs) =
    let (lost, enqueued, taken, run) = Run-Leads x refused s l r in
    let (sent, queue, pool, rate, _) = cap_receive_skb-mail api kthread_run nlh len t u law runs in
    (lost, enqueued, taken, rw (sent, queue, pool, rate) (step run (port u.cap_nlk_portid)))

-- Every run of whole calls of the hook, of the thread and of the receiving side, in any order, leads
-- where some steps of one processor, of kcapd and of what sets the port lead, from a processor outside
-- of the hook and a thread that waits to the same, with as many refused messages.
pub Run-Overlap :
    {Ptr : Type 0} (s s' : CapState) (lost refused : ℕ) (enqueued taken : List SkBuff)
    {seen : List (List ℕ)}
    → (r : Run Ptr s seen s')
    → (lost' : ℕ) × (enqueued' taken' : List SkBuff) × Overlap
        (alone outside lost refused enqueued taken s)
        (alone outside lost' (refused + refusals r) enqueued' taken' s')
Run-Overlap s s' lost refused enqueued taken r =
    Run-Leads (alone outside lost refused enqueued taken s) refused s
      (lost, enqueued, taken, Steps.start) r
