-- ===== src/Timer.antt =====
-- timer/: stdtimer.c counts the runs of a timer that starts itself again, hrtimer.c runs another one
-- once. The kernel's timers are parameters, and the callbacks' steps are those between which the
-- module may be unloaded.
pub mod Standard
pub mod HighRes
mod Tests
use modules.Common.{
  ℕ, ◌+◌, ◌%◌, ◌^◌, ◌≡◌, ◌≢◌, Bool, true, false, List, [], ◌∷◌, ◌++◌, ℤ, pos, is_nonzero,
  if◌then◌else◌,
}

-- struct timer_list, or struct hrtimer: a state with the ways in which it can be started, taken back
-- and run out, with the results of the first two.
pub record TimerApi : Type 1 where
  pub Timer : Type 0
  pub setup : Timer
  pub Start : Timer → ℤ → Timer → Type 0
  pub Cancel : Timer → ℤ → Timer → Type 0
  pub Expire : Timer → Timer → Type 0

-- What is documented: the timer is pending from its start until it is taken back or runs out, and
-- the results tell whether it was pending before; any timer can be started.
pub record IsTimerApi (api : TimerApi) : Type 0 where
  pub pending : api.Timer → Bool
  pub setup_idle : pending api.setup ≡ false
  pub starts :
      (t u : api.Timer) (ret : ℤ)
      → api.Start t ret u
      → (pending u ≡ true) × (is_nonzero ret ≡ pending t)
  pub may_start : (t : api.Timer) → (ret : ℤ) × (u : api.Timer) × api.Start t ret u
  pub cancels :
      (t u : api.Timer) (ret : ℤ)
      → api.Cancel t ret u
      → (pending u ≡ false) × (is_nonzero ret ≡ pending t)
  pub expires : (t u : api.Timer) → api.Expire t u → (pending t ≡ true) × (pending u ≡ false)

-- `my_timer_callback` before `mod_timer` and after it, with its own `num`.
pub data CallbackAt : Type 0 where
  idle : CallbackAt
  entered : ℕ → CallbackAt
  armed : ℕ → CallbackAt

-- stdtimer.c is loaded, in `timer_exit_module` behind `del_timer` or past its end, or its memory is
-- given back.
pub data ModuleAt : Type 0 where
  loaded exiting gone : ModuleAt

module _ (api : TimerApi) where
  -- stdtimer.c. `faulted` says that a processor ran code of the module whose memory was given back;
  -- `still_in_use` that the message of this kind was printed at the end, and `printed` holds the counts.
  pub record StdTimer : Type 0 where
    pub num : ℕ
    pub my_timer : api.Timer
    pub callback : CallbackAt
    pub main : ModuleAt
    pub still_in_use : Bool
    pub faulted : Bool
    pub printed : List ℕ

  -- `setup_timer`, before the first `mod_timer`.
  abbrev pub installed : StdTimer
  installed = record {
    num = 0;
    my_timer = api.setup;
    callback = idle;
    main = loaded;
    still_in_use = false;
    faulted = false;
    printed = [];
  }

  -- `del_timer`, which does not wait for a callback that runs.
  abbrev pub timer_exit_module : (ret : ℤ) → api.Timer → StdTimer → StdTimer
  timer_exit_module ret timer s = record s {
    my_timer = timer;
    main = exiting;
    still_in_use = is_nonzero ret;
  }

  -- The callback goes on while the module exits, up to when its memory is given back.
  pub data StdStep (s : StdTimer) : StdTimer → Type 0 where
    -- my_timer_callback
    callback_enters :
        (timer : api.Timer)
        → s.main ≢ gone
        → s.callback ≡ idle
        → api.Expire s.my_timer timer
        → StdStep s (record s {
          my_timer = timer;
          callback = entered ((s.num + 1) % 2 ^ 32);
          printed = s.printed ++ (s.num + 1) % 2 ^ 32 ∷ [];
        })
    callback_arms :
        (num : ℕ) (timer : api.Timer) (result : ℤ)
        → s.main ≢ gone
        → s.callback ≡ entered num
        → api.Start s.my_timer result timer
        → StdStep s (record s { my_timer = timer; callback = armed num })
    callback_stores :
        (num : ℕ)
        → s.main ≢ gone
        → s.callback ≡ armed num
        → StdStep s (record s { num = num; callback = idle })
    -- timer_exit_module, and what the kernel does after it
    exits :
        (ret : ℤ) (timer : api.Timer)
        → s.main ≡ loaded
        → api.Cancel s.my_timer ret timer
        → StdStep s (timer_exit_module ret timer s)
    unloads : s.main ≡ exiting → StdStep s (record s { main = gone })
    -- the callback where it runs on, or is entered, without its memory
    runs_on : s.main ≡ gone → s.callback ≢ idle → StdStep s (record s { faulted = true })
    runs_late :
        (timer : api.Timer)
        → s.main ≡ gone
        → s.callback ≡ idle
        → api.Expire s.my_timer timer
        → StdStep s (record s { my_timer = timer; faulted = true })

  -- Any number of steps.
  pub data StdSteps (s : StdTimer) : StdTimer → Type 0 where
    here : StdSteps s s
    further : {t u : StdTimer} → StdSteps s t → StdStep t u → StdSteps s u

  -- The states after `timer_init_module`.
  pub data StdReachable : StdTimer → Type 0 where
    init :
        (ret : ℤ) (timer : api.Timer)
        → api.Start api.setup ret timer
        → StdReachable (record installed { my_timer = timer })
    step : {s t : StdTimer} → StdReachable s → StdStep s t → StdReachable t

  -- hrtimer.c. `running` says that the callback is, and `calls` how often it was entered.
  pub record HrTimer : Type 0 where
    pub hr_timer : api.Timer
    pub running : Bool
    pub is_loaded : Bool
    pub still_in_use : Bool
    pub faulted : Bool
    pub calls : ℕ

  -- `hrtimer_init`, before `hrtimer_start`.
  abbrev pub hr_installed : HrTimer
  hr_installed = record {
    hr_timer = api.setup;
    running = false;
    is_loaded = true;
    still_in_use = false;
    faulted = false;
    calls = 0;
  }

  pub data HrStep (s : HrTimer) : HrTimer → Type 0 where
    -- my_hrtimer_callback, which returns HRTIMER_NORESTART
    hr_enters :
        (timer : api.Timer)
        → s.is_loaded ≡ true
        → s.running ≡ false
        → api.Expire s.hr_timer timer
        → HrStep s (record s { hr_timer = timer; running = true; calls = s.calls + 1 })
    hr_returns : s.is_loaded ≡ true → s.running ≡ true → HrStep s (record s { running = false })
    -- hrtimer_exit_module: `hrtimer_cancel` waits for the callback
    hr_exits :
        (ret : ℤ) (timer : api.Timer)
        → s.is_loaded ≡ true
        → s.running ≡ false
        → api.Cancel s.hr_timer ret timer
        → HrStep s (record s { hr_timer = timer; is_loaded = false; still_in_use = is_nonzero ret })
    -- the callback with the module gone
    hr_runs_on : s.is_loaded ≡ false → s.running ≡ true → HrStep s (record s { faulted = true })
    hr_runs_late :
        (timer : api.Timer)
        → s.is_loaded ≡ false
        → api.Expire s.hr_timer timer
        → HrStep s (record s { hr_timer = timer; faulted = true })

  -- The states after `hrtimer_init_module`.
  pub data HrReachable : HrTimer → Type 0 where
    hr_init :
        (ret : ℤ) (timer : api.Timer)
        → api.Start api.setup ret timer
        → HrReachable (record hr_installed { hr_timer = timer })
    hr_step : {s t : HrTimer} → HrReachable s → HrStep s t → HrReachable t
