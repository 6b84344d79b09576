-- ===== src/Workqueue.antt =====
-- tasklet_workqueue/myworkqueue.c: two allocated works on a queue of their own, with the worker that
-- prints and frees them, and a third work on the system's queue. How far the workers are at the two
-- places where it matters are arguments. tasklet.c is in the child Tasklet.
pub mod Races
pub mod Tasklet
mod Tests
use modules.Common.{
  ℕ, ◌+◌, Bool, true, false, Option, none, some, List, [], ◌∷◌, ◌++◌, ℤ, pos, neg_enomem,
  if◌then◌else◌, Outcome, done, oops, ◌>>=◌,
}

-- my_work_t: its number, if it has been set.
pub record MyWork : Type 0 where
  pub x : Option ℕ

-- What a static pointer leads to.
pub data Slot : Type 0 where
  null freed : Slot
  live : MyWork → Slot

pub data Name : Type 0 where
  first second : Name

-- `queue` has the works that wait on my_wq, `running` the one whose number the worker has printed and
-- that it has not freed, and `printed` the numbers so far. `work3` says that the third work waits, and
-- `here` counts the runs of its handler.
pub record Wq : Type 0 where
  pub work : Slot
  pub work2 : Slot
  pub queue : List Name
  pub running : Option Name
  pub printed : List (Option ℕ)
  pub work3 : Bool
  pub here : ℕ

abbrev pub start : Wq
start = record {
  work = null;
  work2 = null;
  queue = [];
  running = none;
  printed = [];
  work3 = false;
  here = 0;
}

abbrev pub slot : Name → Wq → Slot
slot first s = s.work
slot second s = s.work2

-- `my_wq_func` up to `kfree`, on what its argument leads to.
pub my_wq_func_prints : Name → Slot → Wq → Outcome Wq
my_wq_func_prints n null s = oops
my_wq_func_prints n freed s = oops
my_wq_func_prints n (live w) s =
    done (record s { running = some n; printed = s.printed ++ w.x ∷ [] })

-- Its `kfree`.
abbrev pub my_wq_func_frees : Option Name → Wq → Wq
my_wq_func_frees none s = s
my_wq_func_frees (some first) s = record s { work = freed; running = none }
my_wq_func_frees (some second) s = record s { work2 = freed; running = none }

-- The works in the order in which they print; each is freed after it has printed.
pub run_works : List Name → Wq → Outcome Wq
unfolding my_wq_func_prints
run_works [] s = done (record (my_wq_func_frees s.running s) { queue = [] })
run_works (n ∷ ns) s =
    let s₁ = my_wq_func_frees s.running s in
    my_wq_func_prints n (slot n s₁) s₁ >>= λ s₂. run_works ns s₂

-- A worker begins with the first work that waits.
pub begin_work : List Name → Wq → Outcome Wq
unfolding my_wq_func_prints
begin_work [] s = done s
begin_work (n ∷ ns) s = my_wq_func_prints n (slot n s) (record s { queue = ns })

-- How far its worker is with the first work when the second is made.
pub data Progress : Type 0 where
  waits prints frees : Progress

pub work_on : Progress → Wq → Outcome Wq
unfolding run_works begin_work
work_on waits s = done s
work_on prints s = begin_work s.queue s
work_on frees s = run_works s.queue s

-- `work->x = v`
pub set_x : ℕ → Slot → Outcome Slot
set_x v null = oops
set_x v freed = oops
set_x v (live w) = done (live (record { x = some v }))

abbrev pub first_work : (kmalloc_ok : Bool) → Wq → Wq
first_work false s = record s { work = null }
first_work true s = record s { work = live (record { x = some 1 }); queue = s.queue ++ first ∷ [] }

-- The second part of `wq_init`, which sets the number of the first work again.
pub second_work : (kmalloc_ok : Bool) → Wq → Outcome Wq
unfolding set_x
second_work false s = done (record s { work2 = null })
second_work true s = do
  w ← set_x 2 s.work
  done (record s { work = w; work2 = live (record { x = none }); queue = s.queue ++ second ∷ [] })

-- `schedule_work(&work3)`
abbrev pub third_work : Wq → Wq
third_work s = record s { work3 = true }

-- The result and the state; a module whose queue could not be made is not loaded.
unfoldable pub wq_init :
    (create_ok kmalloc_ok kmalloc_ok' : Bool) → Progress → Wq → Outcome (ℤ × Wq)
unfolding work_on second_work
wq_init create_ok kmalloc_ok kmalloc_ok' progress s =
    if create_ok
    then (do
      s₁ ← work_on progress (first_work kmalloc_ok s)
      s₂ ← second_work kmalloc_ok' s₁
      done (pos 0, third_work s₂))
    else done (neg_enomem, s)

-- The system's worker runs `sys_work_handler` if it waits.
unfoldable pub sys_work_handler : Wq → Wq
sys_work_handler s = if s.work3 then record s { work3 = false; here = s.here + 1 } else s

-- `create_workqueue` gives a worker for each processor. Two works that wait with one worker are done in
-- the order in which they were queued, and with two workers in any order.
abbrev pub taken_up : (swapped : Bool) → List Name → List Name
taken_up true (m ∷ n ∷ ns) = n ∷ m ∷ ns
taken_up swapped ns = ns

-- `flush_workqueue` waits until all works are done.
unfoldable pub wq_exit : (swapped : Bool) → Wq → Outcome Wq
unfolding run_works
wq_exit swapped s = run_works (taken_up swapped s.queue) s
