-- ===== src/FuncExecTime.antt =====
-- funcexectime/funcexectime.c: how long the calls of a function of the kernel take, by a return probe.
pub mod Durations
mod Tests
use modules.Common.{
  ℕ, suc, ◌+◌, ◌-◌, ◌%◌, ◌^◌, ◌≡◌, Bool, true, false, List, [], ◌∷◌, ◌++◌, ℤ, pos, negsuc, is_neg,
  ◌==◌, if◌then◌else◌,
}

-- What `trace_printk` is given but the name: a number, the result of the call and the nanoseconds,
-- the last two as bit patterns of 32 and 64 bits.
pub record Report : Type 0 where
  pub number : ℕ
  pub retval : ℕ
  pub delta : ℕ

-- `count`, the `entry_stamp` in the private data of each instance of the probe, what was traced, and
-- whether `modukretp` is registered.
pub record Fet : Type 0 where
  pub count : ℕ
  pub entry_stamp : ℕ → ℕ
  pub traced : List Report
  pub is_registered : Bool

-- An instance's private data with a stamp.
abbrev pub stamp_at : (ri now : ℕ) → (ℕ → ℕ) → ℕ → ℕ
stamp_at ri now stamps i = if i == ri then now else stamps i

-- `ktime_sub` on 64 bits.
abbrev pub ktime_sub : ℕ → ℕ → ℕ
ktime_sub now stamp = (now + (2 ^ 64 - stamp % 2 ^ 64)) % 2 ^ 64

-- `mm` says whether the task has one: a kernel thread has not. `now` is the answer of `ktime_get`.
abbrev pub entry_handler : (ri : ℕ) → (mm : Bool) → (now : ℕ) → Fet → ℤ × Fet
entry_handler ri mm now f =
    if mm then (pos 0, record f { entry_stamp = stamp_at ri now f.entry_stamp }) else (pos 1, f)

abbrev pub ret_handler : (ri return_value now : ℕ) → Fet → ℤ × Fet
ret_handler ri return_value now f =
    let report : Report = record {
      number = f.count;
      retval = return_value % 2 ^ 32;
      delta = ktime_sub now (f.entry_stamp ri);
    } in
    (pos 0, record f { count = (f.count + 1) % 2 ^ 64; traced = f.traced ++ report ∷ [] })

-- The result of `register_kretprobe` that is negative is given as -1.
unfoldable pub fet_init : (ret : ℤ) → Fet → ℤ × Fet
fet_init ret f = if is_neg ret then (negsuc 0, f) else (pos 0, record f { is_registered = true })

unfoldable pub fet_exit : Fet → Fet
fet_exit f = record f { is_registered = false }

-- The kernel's calls of the handlers, each for an instance.
pub data HandlerCall : Type 0 where
  enter : (ri : ℕ) → (mm : Bool) → (now : ℕ) → HandlerCall
  return : (ri return_value now : ℕ) → HandlerCall

abbrev pub call_handler : HandlerCall → Fet → Fet
call_handler (enter ri mm now) f = (entry_handler ri mm now f).1
call_handler (return ri return_value now) f = (ret_handler ri return_value now f).1

unfoldable pub call_handlers : List HandlerCall → Fet → Fet
call_handlers [] f = f
call_handlers (c ∷ cs) f = call_handlers cs (call_handler c f)
