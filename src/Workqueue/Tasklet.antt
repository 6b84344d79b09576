-- ===== src/Workqueue/Tasklet.antt =====
-- tasklet_workqueue/tasklet.c: one tasklet, scheduled when the module is loaded. The kernel's tasklets
-- are a parameter.
use modules.Common.{
  ℕ, ◌+◌, ◌≡◌, refl, ap, ◌⊎◌, inl, inr, Bool, true, false, List, [], ◌∷◌, ◌++◌, length, codes,
  arith,
}

-- struct tasklet_struct: DECLARE_TASKLET, and the ways in which it is scheduled, taken up to run, and
-- found at rest by `tasklet_kill` when that returns.
pub record TaskletApi : Type 1 where
  pub Tasklet : Type 0
  pub declared : Tasklet
  pub Schedule : Tasklet → Tasklet → Type 0
  pub TakeUp : Tasklet → Tasklet → Type 0
  pub Kill : Tasklet → Tasklet → Type 0

-- What is documented: a tasklet is taken up once for each time that it is scheduled, and `tasklet_kill`
-- waits until it is not scheduled.
pub record IsTaskletApi (api : TaskletApi) : Type 0 where
  pub scheduled : api.Tasklet → Bool
  pub declared_idle : scheduled api.declared ≡ false
  pub schedules : (t u : api.Tasklet) → api.Schedule t u → scheduled u ≡ true
  pub takes_up : (t u : api.Tasklet) → api.TakeUp t u → (scheduled t ≡ true) × (scheduled u ≡ false)
  pub kills : (t u : api.Tasklet) → api.Kill t u → (scheduled t ≡ false) × (scheduled u ≡ false)

-- my_tasklet_data
abbrev pub my_tasklet_data : List ℕ
my_tasklet_data = codes "my tasklet function was called"

module _ (api : TaskletApi) where
  -- `running` says that `my_tasklet_func` is, `printed` has its texts, and `faulted` says that it ran
  -- after the module was unloaded.
  pub record TaskletModule : Type 0 where
    pub my_tasklet : api.Tasklet
    pub running : Bool
    pub is_loaded : Bool
    pub faulted : Bool
    pub printed : List (List ℕ)

  -- `tasklet_init_module`
  abbrev pub tasklet_init_module : api.Tasklet → TaskletModule
  tasklet_init_module scheduled = record {
    my_tasklet = scheduled;
    running = false;
    is_loaded = true;
    faulted = false;
    printed = [];
  }

  -- `my_tasklet_func`, which prints the text that its argument leads to.
  abbrev pub my_tasklet_func : List ℕ → TaskletModule → TaskletModule
  my_tasklet_func text s = record s { running = false; printed = s.printed ++ text ∷ [] }

  pub data TaskletStep (s : TaskletModule) : TaskletModule → Type 0 where
    enters :
        (t : api.Tasklet)
        → s.is_loaded ≡ true
        → s.running ≡ false
        → api.TakeUp s.my_tasklet t
        → TaskletStep s (record s { my_tasklet = t; running = true })
    returns :
        s.is_loaded ≡ true → s.running ≡ true → TaskletStep s (my_tasklet_func my_tasklet_data s)
    -- tasklet_cleanup_module: `tasklet_kill` waits for a tasklet that runs, too.
    cleans_up :
        (t : api.Tasklet)
        → s.is_loaded ≡ true
        → s.running ≡ false
        → api.Kill s.my_tasklet t
        → TaskletStep s (record s { my_tasklet = t; is_loaded = false })
    -- the function where it runs on, or is entered, with the module gone
    runs_on : s.is_loaded ≡ false → s.running ≡ true → TaskletStep s (record s { faulted = true })
    runs_late :
        (t : api.Tasklet)
        → s.is_loaded ≡ false
        → api.TakeUp s.my_tasklet t
        → TaskletStep s (record s { my_tasklet = t; faulted = true })

  pub data TaskletReachable : TaskletModule → Type 0 where
    init :
        (t : api.Tasklet) → api.Schedule api.declared t → TaskletReachable (tasklet_init_module t)
    step : {s t : TaskletModule} → TaskletReachable s → TaskletStep s t → TaskletReachable t

-- What is still to come: a run that is scheduled, or that goes on.
abbrev pub one_if : Bool → ℕ
one_if true = 1
one_if false = 0

module _ (api : TaskletApi) (laws : IsTaskletApi api) where
  -- The text is printed once, unless that is still to come; nothing is to come once the module is
  -- unloaded, and its code does not run then.
  pub record IsOnce (s : TaskletModule api) : Type 0 where
    pub once : length s.printed + one_if s.running + one_if (laws.scheduled s.my_tasklet) ≡ 1
    pub text : (s.printed ≡ []) ⊎ (s.printed ≡ my_tasklet_data ∷ [])
    pub sound : s.faulted ≡ false
    pub at_rest :
        (s.is_loaded ≡ true)
        ⊎ ((s.is_loaded ≡ false)
            × (s.running ≡ false)
            × (laws.scheduled s.my_tasklet ≡ false)
            × (s.printed ≡ my_tasklet_data ∷ []))

  init-IsOnce : (t : api.Tasklet) → api.Schedule api.declared t → IsOnce (tasklet_init_module api t)
  init-IsOnce t start = record {
    once = rw (laws.schedules api.declared t start) refl;
    text = inl refl;
    sound = refl;
    at_rest = inl refl;
  }

  step-IsOnce : (s t : TaskletModule api) → IsOnce s → TaskletStep api s t → IsOnce t
  step-IsOnce s u c (enters t on idle takes) =
      let (was, is) = laws.takes_up s.my_tasklet t takes in
      record {
        once = ground (arith, c.once, was, is, idle);
        text = c.text;
        sound = c.sound;
        at_rest = inl on;
      }
  step-IsOnce s u c (returns on busy) = elim c.text [
    | inl nothing ↦ record {
      once = ground (arith, c.once, busy, nothing);
      text = inr (ap (λ xs. xs ++ my_tasklet_data ∷ []) nothing);
      sound = c.sound;
      at_rest = inl on;
    }
    | inr told ↦ absurd (ground (arith, c.once, busy, told))
  ]
  step-IsOnce s u c (cleans_up t on idle kills) =
      let (was, is) = laws.kills s.my_tasklet t kills in
      record {
        once = ground (arith, c.once, was, is, idle);
        text = c.text;
        sound = c.sound;
        at_rest = inr (
          refl,
          idle,
          is,
          elim c.text [
            | inl nothing ↦ absurd (ground (arith, c.once, was, idle, nothing))
            | inr told ↦ told
          ],
        );
      }
  step-IsOnce s u c (runs_on off busy) = elim c.at_rest [
    | inl on ↦ absurd (cc)
    | inr (_, idle, _, _) ↦ absurd (cc)
  ]
  step-IsOnce s u c (runs_late t off takes) = elim c.at_rest [
    | inl on ↦ absurd (cc)
    | inr (_, _, still, _) ↦ absurd (ground (arith, laws.takes_up s.my_tasklet t takes, still))
  ]

  -- In every state that tasklet.c gets to, its text is printed once, or is not and its function is
  -- scheduled or runs; and its code does not run after it was unloaded, which leaves the tasklet
  -- neither scheduled nor running, with the text printed.
  pub TaskletReachable-IsOnce : (s : TaskletModule api) → TaskletReachable api s → IsOnce s
  TaskletReachable-IsOnce s (init t start) = init-IsOnce t start
  TaskletReachable-IsOnce s (step {s = before} r st) =
      step-IsOnce before s (TaskletReachable-IsOnce before r) st
