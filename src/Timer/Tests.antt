-- ===== src/Timer/Tests.antt =====
-- Runs of the modules of timer/ with a timer that knows only whether it is pending.
use modules.Common.{
  ℕ, ◌≡◌, refl, ◌⊎◌, Bool, true, false, [], ◌∷◌, ℤ, pos, is_nonzero, if◌then◌else◌,
}
use modules.Timer.{
  TimerApi, IsTimerApi, idle, entered, armed, StdTimer, installed, timer_exit_module, StdStep,
  callback_enters, callback_arms, StdSteps, StdReachable, init, step,
}
use modules.Timer.Standard.{
  IsCounting, IsQuiet, Faults, StartsAgain, StdReachable-IsCounting, timer_exit_module_lem,
}

abbrev told : Bool → ℤ
told pending = if pending then pos 1 else pos 0

told_lem : (t : Bool) → is_nonzero (told t) ≡ t
told_lem true = refl
told_lem false = refl

abbrev flag : TimerApi
flag = record {
  Timer = Bool;
  setup = false;
  Start = λ t ret u. (u ≡ true) × (is_nonzero ret ≡ t);
  Cancel = λ t ret u. (u ≡ false) × (is_nonzero ret ≡ t);
  Expire = λ t u. (t ≡ true) × (u ≡ false);
}

abbrev flag-IsTimerApi : IsTimerApi flag
flag-IsTimerApi = record {
  pending = λ t. t;
  setup_idle = refl;
  starts = λ t u ret s. s;
  may_start = λ t. (told t, true, (refl, told_lem t));
  cancels = λ t u ret c. c;
  expires = λ t u e. e;
}

-- The timer runs out once; the callback has started it again, and has not stored its count yet.
abbrev t₀ : StdTimer flag
t₀ = record (installed flag) { my_timer = true }

abbrev t₁ : StdTimer flag
t₁ = record t₀ { my_timer = false; callback = entered 1; printed = 1 ∷ [] }

abbrev t₂ : StdTimer flag
t₂ = record t₁ { my_timer = true; callback = armed 1 }

t₁-StdReachable : StdReachable flag t₁
t₁-StdReachable =
    step (init (pos 0) true (refl, refl))
      (callback_enters false (λ e. absurd (cc)) refl (refl, refl))

t₂-StdReachable : StdReachable flag t₂
t₂-StdReachable =
    step t₁-StdReachable (callback_arms 1 true (pos 0) (λ e. absurd (cc)) refl (refl, refl))

StdReachable-IsCounting_example : IsCounting flag flag-IsTimerApi t₂
StdReachable-IsCounting_example = StdReachable-IsCounting flag flag-IsTimerApi t₂ t₂-StdReachable

-- The module is unloaded before the callback starts the timer.
timer_exit_module_lem_example :
    let off = timer_exit_module flag (pos 0) false t₁ in
    StdStep flag t₁ off
    × (((t₁.callback ≡ idle)
          × (off.still_in_use ≡ true)
          × ((t : StdTimer flag) → StdSteps flag off t → IsQuiet flag flag-IsTimerApi t))
        ⊎ (Faults flag flag-IsTimerApi off
            × (((num : ℕ) × (t₁.callback ≡ armed num))
                ⊎ ((num : ℕ) × (t₁.callback ≡ entered num)
                    × StartsAgain flag flag-IsTimerApi off))))
timer_exit_module_lem_example =
    timer_exit_module_lem flag flag-IsTimerApi t₁ (pos 0) false t₁-StdReachable refl (refl, refl)
