-- ===== src/Workqueue/Tests.antt =====
-- The modules of tasklet_workqueue/ loaded and unloaded.
use modules.Common.{
  ◌≡◌, refl, ◌⊎◌, Bool, true, false, none, some, [], ◌∷◌, pos, neg_enomem, done, oops,
}
use modules.Workqueue.{waits, prints, frees}
use modules.Workqueue.Races.{life, wq_lem}
use modules.Workqueue.Tasklet.{
  TaskletApi, IsTaskletApi, my_tasklet_data, TaskletModule, tasklet_init_module, my_tasklet_func,
  init, step, enters, returns, cleans_up, IsOnce, TaskletReachable-IsOnce,
}

-- Both works wait, and the second is taken up by another worker before the first.
wq_lem_example :
    let o = life true true true true true waits in
    ((true ≡ false) × (o ≡ done (record { ret = neg_enomem; printed = []; here = 0 })))
    ⊎ ((true ≡ true)
        × (((true ≡ true) × ((true ≡ false) ⊎ (waits ≡ frees))) ⊎ (true ≡ false))
        × (o ≡ oops))
    ⊎ ((true ≡ true)
        × (true ≡ true)
        × (true ≡ false)
        × (o ≡ done (record { ret = pos 0; printed = some 1 ∷ []; here = 1 })))
    ⊎ ((true ≡ true)
        × (true ≡ true)
        × (true ≡ true)
        × (true ≡ true)
        × (((waits ≡ waits)
              × (o ≡ done (record { ret = pos 0; printed = none ∷ some 2 ∷ []; here = 1 })))
            ⊎ ((waits ≡ prints)
                × (o ≡ done (record { ret = pos 0; printed = some 1 ∷ none ∷ []; here = 1 })))))
wq_lem_example = wq_lem true true true true true waits

-- A tasklet that knows only whether it is scheduled.
abbrev flag : TaskletApi
flag = record {
  Tasklet = Bool;
  declared = false;
  Schedule = λ t u. u ≡ true;
  TakeUp = λ t u. (t ≡ true) × (u ≡ false);
  Kill = λ t u. (t ≡ false) × (u ≡ false);
}

abbrev flag-IsTaskletApi : IsTaskletApi flag
flag-IsTaskletApi = record {
  scheduled = λ t. t;
  declared_idle = refl;
  schedules = λ t u s. s;
  takes_up = λ t u s. s;
  kills = λ t u k. k;
}

-- It runs, and the module is unloaded.
abbrev busy : TaskletModule flag
busy = record (tasklet_init_module flag true) { my_tasklet = false; running = true }

abbrev unloaded : TaskletModule flag
unloaded = record (my_tasklet_func flag my_tasklet_data busy) { is_loaded = false }

TaskletReachable-IsOnce_example : IsOnce flag flag-IsTaskletApi unloaded
TaskletReachable-IsOnce_example = TaskletReachable-IsOnce flag flag-IsTaskletApi unloaded (
    step (step (step (init true refl) (enters false refl refl (refl, refl))) (returns refl refl))
      (cleans_up false refl refl (refl, refl)))
