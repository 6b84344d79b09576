-- ===== src/Workqueue/Races.antt =====
-- What the works of tasklet_workqueue/myworkqueue.c print, by when their workers run.
use modules.Common.{
  ℕ, ◌≡◌, ◌⊎◌, Bool, true, false, Option, none, some, List, [], ◌∷◌, ℤ, pos, neg_enomem, arith,
  if◌then◌else◌, Outcome, done, oops, ◌>>=◌,
}
use modules.Workqueue.{
  Wq, Progress, waits, prints, frees, start, wq_init, sys_work_handler, wq_exit,
}

-- The result, the numbers printed and the runs of the third handler, when the module is unloaded.
pub record Told : Type 0 where
  pub ret : ℤ
  pub printed : List (Option ℕ)
  pub here : ℕ

-- Unloading, with the third work run before or not: its handler must not run once it is gone.
pub unload : (third_ran swapped : Bool) → ℤ × Wq → Outcome Told
unfolding sys_work_handler wq_exit
unload third_ran swapped (ret, s) = do
  s' ← wq_exit swapped (if third_ran then sys_work_handler s else s)
  if s'.work3 then oops else done (record { ret = ret; printed = s'.printed; here = s'.here })

-- The module loaded and unloaded.
pub life : (create_ok kmalloc_ok kmalloc_ok' third_ran swapped : Bool) → Progress → Outcome Told
unfolding wq_init unload
life create_ok kmalloc_ok kmalloc_ok' third_ran swapped progress =
    wq_init create_ok kmalloc_ok kmalloc_ok' progress start >>= unload third_ran swapped

-- Loading and unloading, by what succeeds and how far the workers are. Without a queue the result is
-- -ENOMEM and nothing runs. Otherwise a fault is met when the second work is there and the first one
-- was not allocated or has been freed, and when the third has not run before the module is unloaded.
-- If none is met the result is 0 and the third handler has run once; without the second work the first
-- one prints 1 if it is there. With it 1 is followed by the number of the second, which was never set, if
-- the first printed before the second was made; otherwise the first prints 2, before the second, or after
-- it where another worker takes that up.
pub wq_lem :
    (create_ok kmalloc_ok kmalloc_ok' third_ran swapped : Bool) (progress : Progress)
    → let o = life create_ok kmalloc_ok kmalloc_ok' third_ran swapped progress in
      ((create_ok ≡ false) × (o ≡ done (record { ret = neg_enomem; printed = []; here = 0 })))
      ⊎ ((create_ok ≡ true)
          × (((kmalloc_ok' ≡ true) × ((kmalloc_ok ≡ false) ⊎ (progress ≡ frees)))
              ⊎ (third_ran ≡ false))
          × (o ≡ oops))
      ⊎ ((create_ok ≡ true)
          × (third_ran ≡ true)
          × (kmalloc_ok' ≡ false)
          × (o
              ≡ done (record {
                ret = pos 0;
                printed = if kmalloc_ok then some 1 ∷ [] else [];
                here = 1;
              })))
      ⊎ ((create_ok ≡ true)
          × (third_ran ≡ true)
          × (kmalloc_ok' ≡ true)
          × (kmalloc_ok ≡ true)
          × (((progress ≡ waits)
                × (o
                    ≡ done (record {
                      ret = pos 0;
                      printed = if swapped then none ∷ some 2 ∷ [] else some 2 ∷ none ∷ [];
                      here = 1;
                    })))
              ⊎ ((progress ≡ prints)
                  × (o ≡ done (record { ret = pos 0; printed = some 1 ∷ none ∷ []; here = 1 })))))
unfolding life unload wq_init wq_exit sys_work_handler
wq_lem create_ok kmalloc_ok kmalloc_ok' third_ran swapped waits = ground arith
wq_lem create_ok kmalloc_ok kmalloc_ok' third_ran swapped prints = ground arith
wq_lem create_ok kmalloc_ok kmalloc_ok' third_ran swapped frees = ground arith
