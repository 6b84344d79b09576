-- ===== src/Capture/Overlap/Lifetime.antt =====
-- netlink/netlink.c from when it is loaded, on any number of processors: what its buffers and messages
-- come to with the limit of packets that the module has, which is none.
use modules.Common.{
  ℕ, zero, suc, ◌+◌, ◌≤◌, ◌≡◌, refl, sym, ap, ◌∙◌, Bool, true, false, [], ◌++◌, map, append_assoc,
  replicate, length, length-replicate, arith,
}
use modules.Capture.Buffers.Account.{in_use}
use modules.Capture.Rate.{Rate, cap_rate_check}
use modules.Capture.State.{CapState, not_loaded, app_init}
use modules.Capture.Overlap.Counts.{holds, carries, in_hand, total, total-length}
use modules.Capture.Overlap.Accounts.{IsAccounted, Overlap-IsAccounted}
use modules.Capture.Overlap.Sequential.{alone}
use modules.Capture.Overlap.{
  HookAt, outside, Smp, Step, obtains, passes, limits, Overlap, start, step,
}

-- A state of the module with a number of processors, none of them in the hook.
abbrev pub on_processors : ℕ → CapState → Smp
on_processors n s = record (alone outside 0 0 [] [] s) { cpus = replicate n outside }

-- Without a limit a call of `cap_rate_check` passes and leaves it so.
check-unlimited :
    (hz now : ℕ) (r r' : Rate) (pass : Bool)
    → r.cap_rate_limit ≡ 0
    → cap_rate_check hz now r ≡ (pass, r')
    → (pass ≡ true) × (r'.cap_rate_limit ≡ 0)
unfolding cap_rate_check
check-unlimited hz now r r' pass off e = ground arith

-- No limit, and nothing lost.
record IsLossless (s : Smp) : Type 0 where
  unlimited : s.rate.cap_rate_limit ≡ 0
  none_lost : s.lost ≡ 0

Step-IsLossless : {s t : Smp} → IsLossless s → Step s t → IsLossless t
Step-IsLossless {s} c (passes before after hz now cb r at pass) = record {
  unlimited = (check-unlimited hz now s.rate r true c.unlimited pass).1;
  none_lost = c.none_lost;
}
Step-IsLossless {s} c (limits before after hz now cb r at fail) =
    let (bad, _) = check-unlimited hz now s.rate r false c.unlimited fail in absurd (cc)
Step-IsLossless c (obtains before after kmalloc_ok pkt cb p at on given) = record {
  unlimited = c.unlimited;
  none_lost = c.none_lost;
}
Step-IsLossless c other = record { unlimited = c.unlimited; none_lost = c.none_lost }

Overlap-IsLossless : {s t : Smp} → IsLossless s → Overlap s t → IsLossless t
Overlap-IsLossless c start = c
Overlap-IsLossless c (step run st) = Step-IsLossless (Overlap-IsLossless c run) st

total-outside : (f : HookAt → ℕ) (n : ℕ) → f outside ≡ 0 → total f (replicate n outside) ≡ 0
total-outside f zero e = refl
total-outside f (suc n) e = omega (arith, e, total-outside f n e)

pub loaded-IsAccounted :
    (n : ℕ) (registers : Bool)
    → IsAccounted n (on_processors n (app_init true registers not_loaded).1)
unfolding app_init
loaded-IsAccounted n registers = record {
  valid = record { counted = refl; capped = omega arith; owned = omega arith };
  used = sym (total-outside holds n refl) ∙ omega arith;
  messages = omega (arith, total-outside carries n refl);
  ordered = refl;
  given = refl;
  processors = length-replicate n outside;
}

-- From when the module is loaded, with the values that its static variables have, after any
-- interleaving of calls of the hook on n processors, of kcapd and of changes of the port: no buffer is
-- lost, those in use are the ones that the processors have, at most n; each message that is allocated
-- is with a processor, on the queue, in the hand of kcapd, or was refused; and what was given to
-- netlink_unicast, what kcapd has in hand and what is on the queue is what was put there, in order.
pub app_init-Overlap :
    (n : ℕ) (registers : Bool) (t : Smp)
    → Overlap (on_processors n (app_init true registers not_loaded).1) t
    → (t.lost ≡ 0)
      × (in_use t.pool ≡ total holds t.cpus)
      × (in_use t.pool ≤ n)
      × (t.pool.skbs_live
          ≡ total carries t.cpus + length t.cap_skb_queue + length (in_hand t.kcapd) + t.refused)
      × (t.enqueued ≡ map (λ m. m.0) t.sent ++ (in_hand t.kcapd ++ t.cap_skb_queue))
unfolding app_init
app_init-Overlap n registers t run =
    let (a, _) =
      Overlap-IsAccounted n (on_processors n (app_init true registers not_loaded).1) t
        (loaded-IsAccounted n registers) run in
    let l = Overlap-IsLossless (record { unlimited = refl; none_lost = refl }) run in
    (
      l.none_lost,
      omega (arith, a.used, l.none_lost),
      omega (arith, a.used, l.none_lost, total-length t.cpus, a.processors),
      omega (arith, a.messages, l.none_lost),
      a.ordered
          ∙ ap (λ xs. xs ++ t.cap_skb_queue) a.given
          ∙ append_assoc (map (λ m. m.0) t.sent) (in_hand t.kcapd) t.cap_skb_queue,
    )
