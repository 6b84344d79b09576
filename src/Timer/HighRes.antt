-- ===== src/Timer/HighRes.antt =====
-- The callback of timer/hrtimer.c, and the end of the module.
use modules.Common.{ℕ, ◌+◌, ◌≤◌, ◌≡◌, refl, ◌⊎◌, inl, inr, Bool, true, false, arith, if◌then◌else◌}
use modules.Timer.{
  TimerApi, IsTimerApi, HrTimer, HrStep, hr_enters, hr_returns, hr_exits, hr_runs_on, hr_runs_late,
  HrReachable, hr_init, hr_step,
}

abbrev one_if : Bool → ℕ
one_if b = if b then 1 else 0

module _ (api : TimerApi) (laws : IsTimerApi api) where
  -- The callback is entered once at most, and not while the timer is pending; an unloaded module has
  -- neither a timer nor a callback, and its code does not run.
  pub record IsOneShot (s : HrTimer api) : Type 0 where
    pub once : s.calls + one_if (laws.pending s.hr_timer) ≤ 1
    pub over : (s.is_loaded ≡ true) ⊎ ((laws.pending s.hr_timer ≡ false) × (s.running ≡ false))
    pub sound : s.faulted ≡ false

  step-IsOneShot : (s t : HrTimer api) → IsOneShot s → HrStep api s t → IsOneShot t
  step-IsOneShot s t o (hr_enters timer on free e) =
      let (was, now) = laws.expires s.hr_timer timer e in
      record { once = ground (arith, o.once, was, now); over = inl on; sound = o.sound }
  step-IsOneShot s t o (hr_returns on busy) = record {
    once = o.once;
    over = inl on;
    sound = o.sound;
  }
  step-IsOneShot s t o (hr_exits ret timer on free d) =
      let now = (laws.cancels s.hr_timer timer ret d).0 in
      record { once = ground (arith, o.once, now); over = inr (now, free); sound = o.sound }
  step-IsOneShot s t o (hr_runs_on off busy) = absurd (ground (arith, o.over, off, busy))
  step-IsOneShot s t o (hr_runs_late timer off e) =
      absurd (ground (arith, o.over, off, laws.expires s.hr_timer timer e))

  -- In every state that the module gets to, the callback was entered once at most, and not while
  -- the timer is pending; an unloaded module has neither a timer nor a callback that runs, and its
  -- code does not run.
  pub HrReachable-IsOneShot : (s : HrTimer api) → HrReachable api s → IsOneShot s
  HrReachable-IsOneShot s (hr_init ret timer start) =
      let pends = (laws.starts api.setup timer ret start).0 in
      record { once = ground (arith, pends); over = inl refl; sound = refl }
  HrReachable-IsOneShot s (hr_step {s = before} r st) =
      step-IsOneShot before s (HrReachable-IsOneShot before r) st
