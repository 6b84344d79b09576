-- ===== src/Timer/Standard.antt =====
-- The counts of timer/stdtimer.c, and what `del_timer` leaves behind.
use modules.Common.{
  ℕ, zero, suc, ◌+◌, ◌%◌, ◌^◌, ◌≡◌, ◌≢◌, refl, ap, ap₂, ◌∙◌, ◌⊎◌, inl, inr, true, false, List, [],
  ◌∷◌, ◌++◌, ℤ, length, length-append, arith,
}
use modules.Timer.{
  TimerApi, IsTimerApi, CallbackAt, idle, entered, armed, StdTimer, installed, timer_exit_module,
  StdStep, callback_enters, callback_arms, callback_stores, exits, unloads, runs_on, runs_late,
  StdSteps, here, further, StdReachable, init, step, loaded, exiting, gone,
}

-- The first numbers, as they are in 32 bits.
abbrev pub count_to : ℕ → List ℕ
count_to zero = []
count_to (suc n) = count_to n ++ (n + 1) % 2 ^ 32 ∷ []

-- The count that the module has, or that the callback is about to store.
abbrev current : CallbackAt → (num : ℕ) → ℕ
current idle num = num
current (entered n) num = n
current (armed n) num = n

CallbackAt-cases :
    (at : CallbackAt) → (at ≡ idle) ⊎ ((n : ℕ) × (at ≡ entered n)) ⊎ ((n : ℕ) × (at ≡ armed n))
CallbackAt-cases idle = inl refl
CallbackAt-cases (entered n) = inr (inl (n, refl))
CallbackAt-cases (armed n) = inr (inr (n, refl))

count_to-length :
    (xs : List ℕ) (x : ℕ)
    → xs ≡ count_to (length xs)
    → x ≡ (length xs + 1) % 2 ^ 32
    → xs ++ x ∷ [] ≡ count_to (length (xs ++ x ∷ []))
count_to-length xs x all last =
    ap₂ (λ ys y. ys ++ y ∷ []) all last
    ∙ ap count_to {x = suc (length xs)} {y = length (xs ++ x ∷ [])}
        (omega (arith, length-append xs (x ∷ [])))

module _ (api : TimerApi) (laws : IsTimerApi api) where
  -- The counts are told one by one from 1 on, and none is lost; a loaded module's timer is pending, or
  -- its callback is about to start it; code runs without its memory only after that was given back.
  pub record IsCounting (s : StdTimer api) : Type 0 where
    pub counted : current s.callback s.num ≡ length s.printed % 2 ^ 32
    pub told : s.printed ≡ count_to (length s.printed)
    pub goes_on :
        (s.main ≢ loaded) ⊎ (laws.pending s.my_timer ≡ true) ⊎ ((n : ℕ) × (s.callback ≡ entered n))
    pub sound : (s.faulted ≡ false) ⊎ (s.main ≡ gone)

  init-IsCounting :
      (ret : ℤ) (timer : api.Timer)
      → api.Start api.setup ret timer
      → IsCounting (record (installed api) { my_timer = timer })
  init-IsCounting ret timer start = record {
    counted = refl;
    told = refl;
    goes_on = inr (inl (laws.starts api.setup timer ret start).0);
    sound = inl refl;
  }

  step-IsCounting : (s t : StdTimer api) → IsCounting s → StdStep api s t → IsCounting t
  step-IsCounting s t c (callback_enters timer on at e) =
      let now : (s.num + 1) % 2 ^ 32 ≡ (length s.printed + 1) % 2 ^ 32 =
        ground (arith, c.counted, at) in
      record {
        counted = ground (arith, now, length-append s.printed ((s.num + 1) % 2 ^ 32 ∷ []));
        told = count_to-length s.printed ((s.num + 1) % 2 ^ 32) c.told now;
        goes_on = inr (inr (_, refl));
        sound = c.sound;
      }
  step-IsCounting s t c (callback_arms num timer result on at e) = record {
    counted = ground (arith, c.counted, at);
    told = c.told;
    goes_on = inr (inl (laws.starts s.my_timer timer result e).0);
    sound = c.sound;
  }
  step-IsCounting s t c (callback_stores num on at) = record {
    counted = ground (arith, c.counted, at);
    told = c.told;
    goes_on = elim c.goes_on [
      | inl off ↦ inl off
      | inr (inl waits) ↦ inr (inl waits)
      | inr (inr (n, early)) ↦ absurd (cc)
    ];
    sound = c.sound;
  }
  step-IsCounting s t c (exits ret timer on d) = record {
    counted = c.counted;
    told = c.told;
    goes_on = inl (λ e. absurd (cc));
    sound = elim c.sound [ inl ok ↦ inl ok | inr off ↦ absurd (cc) ];
  }
  step-IsCounting s t c (unloads at) = record {
    counted = c.counted;
    told = c.told;
    goes_on = inl (λ e. absurd (cc));
    sound = inr refl;
  }
  step-IsCounting s t c (runs_on off at) = record {
    counted = c.counted;
    told = c.told;
    goes_on = inl (λ e. absurd (cc));
    sound = inr off;
  }
  step-IsCounting s t c (runs_late timer off at e) = record {
    counted = c.counted;
    told = c.told;
    goes_on = inl (λ e. absurd (cc));
    sound = inr off;
  }

  -- In every state that the module gets to, the counts printed are 1, 2 and so on in 32 bits, and
  -- none is lost; while it is loaded the timer is pending or the callback is about to start it; and code
  -- has run without its memory only where that was given back.
  pub StdReachable-IsCounting : (s : StdTimer api) → StdReachable api s → IsCounting s
  StdReachable-IsCounting s (init ret timer start) = init-IsCounting ret timer start
  StdReachable-IsCounting s (step {s = before} r st) =
      step-IsCounting before s (StdReachable-IsCounting before r) st

  -- After an exit with no callback running: no callback, no pending timer, no fault.
  abbrev pub IsQuiet : StdTimer api → Type 0
  IsQuiet s =
      (s.main ≢ loaded)
      × (s.callback ≡ idle)
      × (laws.pending s.my_timer ≡ false)
      × (s.faulted ≡ false)

  not_pending : (s : StdTimer api) (timer : api.Timer) → IsQuiet s → ¬ api.Expire s.my_timer timer
  not_pending s timer q e = ground (arith, laws.expires s.my_timer timer e, q.2)

  step-IsQuiet : (s t : StdTimer api) → IsQuiet s → StdStep api s t → IsQuiet t
  step-IsQuiet s t q (callback_enters timer on at e) = absurd (not_pending s timer q e)
  step-IsQuiet s t (off, at, still, ok) (callback_arms num timer result on busy e) = absurd (cc)
  step-IsQuiet s t (off, at, still, ok) (callback_stores num on busy) = absurd (cc)
  step-IsQuiet s t (off, at, still, ok) (exits ret timer on d) = absurd (off on)
  step-IsQuiet s t (off, at, still, ok) (unloads ex) = ((λ e. absurd (cc)), at, still, ok)
  step-IsQuiet s t (off, at, still, ok) (runs_on ended busy) = absurd (busy at)
  step-IsQuiet s t q (runs_late timer ended at e) = absurd (not_pending s timer q e)

  steps-IsQuiet : (s t : StdTimer api) → IsQuiet s → StdSteps api s t → IsQuiet t
  steps-IsQuiet s t q here = q
  steps-IsQuiet s t q (further {t = u} more st) = step-IsQuiet u t (steps-IsQuiet s u q more) st

  -- Some steps lead to code that runs without its memory; or to a timer that is pending without it.
  abbrev pub Faults : StdTimer api → Type 0
  Faults s = (t : StdTimer api) × StdSteps api s t × (t.faulted ≡ true)

  abbrev pub StartsAgain : StdTimer api → Type 0
  StartsAgain s =
      (t : StdTimer api) × StdSteps api s t
      × (t.main ≡ gone)
      × (t.callback ≡ idle)
      × (laws.pending t.my_timer ≡ true)

  -- A callback that has not started the timer when the module exits may do so before the memory is
  -- given back.
  starts_again :
      (s : StdTimer api) (num : ℕ) → s.main ≡ exiting → s.callback ≡ entered num → StartsAgain s
  starts_again s num off at =
      let there : s.main ≢ gone = λ e. absurd (cc) in
      let (result, timer, start) = laws.may_start s.my_timer in
      (
        _,
        further
            (further (further here (callback_arms num timer result there at start))
              (callback_stores num there refl))
            (unloads off),
        refl,
        refl,
        (laws.starts s.my_timer timer result start).0,
      )

  -- A callback that runs when the module exits may still run when the memory is given back.
  runs_without : (s : StdTimer api) → s.main ≡ exiting → s.callback ≢ idle → Faults s
  runs_without s off busy = (_, further (further here (unloads off)) (runs_on refl busy), refl)

  -- Unloading the module in any state that it gets to, where it is loaded, is a step that it can take at
  -- any time. With no callback running, the message about a timer in use is printed, and whatever
  -- follows, no callback runs, the timer is not pending and nothing faults. With one running, some steps
  -- lead to its code running without its memory; and if it has not started the timer yet, some lead
  -- to a pending timer of a module whose memory was given back.
  pub timer_exit_module_lem :
      (s : StdTimer api) (ret : ℤ) (timer : api.Timer)
      → StdReachable api s
      → s.main ≡ loaded
      → api.Cancel s.my_timer ret timer
      → let off = timer_exit_module api ret timer s in
        StdStep api s off
        × (((s.callback ≡ idle)
              × (off.still_in_use ≡ true)
              × ((t : StdTimer api) → StdSteps api off t → IsQuiet t))
            ⊎ (Faults off
                × (((num : ℕ) × (s.callback ≡ armed num))
                    ⊎ ((num : ℕ) × (s.callback ≡ entered num) × StartsAgain off))))
  timer_exit_module_lem s ret timer r on d =
      let c = StdReachable-IsCounting s r in
      let off = timer_exit_module api ret timer s in
      let (still, was) = laws.cancels s.my_timer timer ret d in
      let sound : s.faulted ≡ false = elim c.sound [ inl ok ↦ ok | inr ended ↦ absurd (cc) ] in
      (
        exits ret timer on d,
        elim (CallbackAt-cases s.callback) [
          | inl at ↦ elim c.goes_on [
            | inl not_there ↦ absurd (not_there on)
            | inr (inl waits) ↦ inl (
              at,
              was ∙ waits,
              λ t more. steps-IsQuiet off t ((λ e. absurd (cc)), at, still, sound) more,
            )
            | inr (inr (n, early)) ↦ absurd (cc)
          ]
          | inr (inl (num, at)) ↦ inr (
            runs_without off refl (λ e. absurd (cc)),
            inr (num, at, starts_again off num refl at),
          )
          | inr (inr (num, at)) ↦ inr (runs_without off refl (λ e. absurd (cc)), inl (num, at))
        ],
      )
