-- ===== src/Proc.antt =====
-- The proc file example proc/foobar.c: the files foo and bar, and the set-up with its clean-up.
pub mod Terminated
pub mod Setup
mod Tests
use modules.Common.{
  ℕ, suc, ◌+◌, ◌-◌, Bool, true, false, Option, none, some, List, [], ◌∷◌, ◌++◌, ℤ, pos, neg_efault,
  neg_enomem, ltb, ◌==◌, if◌then◌else◌, take, drop, replicate, length, set, codes, c_string,
  Outcome, done, oops, ◌>>=◌,
}

abbrev pub foobar_len : ℕ
foobar_len = 8

-- struct fb_data_t: two arrays of FOOBAR_LEN + 1 bytes.
pub record FbData : Type 0 where
  pub name : List ℕ
  pub value : List ℕ

abbrev pub printed : Option (List ℕ) → Option (List ℕ) → Outcome (List ℕ)
printed none v = oops
printed (some n) none = oops
printed (some n) (some v) = done (n ++ codes " = " ++ v ++ codes "\n")

-- `sprintf(page, "%s = %s\n", name, value)`: the bytes of the page, without the NUL behind them. An
-- array with no NUL would be read past its end.
unfoldable pub proc_read_foobar : FbData → Outcome (List ℕ)
proc_read_foobar fb = printed (c_string fb.name) (c_string fb.value)

-- `copy_from_user` leaves `missed` of the `len` bytes uncopied, and puts zeros in their place.
abbrev pub copied : (len missed : ℕ) → (buffer value : List ℕ) → List ℕ
copied len missed buffer value =
    (take (len - missed) buffer ++ replicate (len - (len - missed)) 0) ++ drop len value

unfoldable pub proc_write_foobar :
    (missed : ℕ) → (buffer : List ℕ) → (count : ℕ) → FbData → ℤ × FbData
proc_write_foobar missed buffer count fb =
    let len = if ltb foobar_len count then foobar_len else count in
    let value = copied len missed buffer fb.value in
    if missed == 0
    then (pos len, record fb { value = set value len 0 })
    else (neg_efault, record fb { value = value })

-- The entries that the module makes.
pub data Entry : Type 0 where
  proctest_dir jiffies_file foo_file bar_file symlink : Entry

abbrev pub same_entry : Entry → Entry → Bool
same_entry proctest_dir proctest_dir = true
same_entry jiffies_file jiffies_file = true
same_entry foo_file foo_file = true
same_entry bar_file bar_file = true
same_entry symlink symlink = true
same_entry _ _ = false

-- The proc tree, and the data behind the two files.
pub record ProcTest : Type 0 where
  pub entries : List Entry
  pub foo_data : FbData
  pub bar_data : FbData

abbrev pub without : Entry → List Entry → List Entry
without e [] = []
without e (f ∷ fs) = let rest = without e fs in if same_entry e f then rest else f ∷ rest

unfoldable pub remove_proc_entry : Entry → ProcTest → ProcTest
remove_proc_entry e p = record p { entries = without e p.entries }

abbrev pub create : Entry → ProcTest → ProcTest
create e p = record p { entries = e ∷ p.entries }

-- `strcpy` of a name into an array: its bytes and a NUL, and the rest as it was.
abbrev pub strcpy : List ℕ → List ℕ → List ℕ
strcpy text array = (text ++ 0 ∷ []) ++ drop (length text + 1) array

abbrev pub named : List ℕ → FbData → FbData
named text fb = record { name = strcpy text fb.name; value = strcpy text fb.value }

-- Which of the five kernel calls succeed.
pub record Answers : Type 0 where
  pub mkdir_ok : Bool
  pub jiffies_ok : Bool
  pub foo_ok : Bool
  pub bar_ok : Bool
  pub symlink_ok : Bool

-- The labels at the end of `proctest_init`, each running on into the next.
unfoldable pub no_jiffies : ProcTest → ℤ × ProcTest
no_jiffies p = (neg_enomem, remove_proc_entry proctest_dir p)

unfoldable pub no_foo : ProcTest → ℤ × ProcTest
unfolding no_jiffies
no_foo p = no_jiffies (remove_proc_entry jiffies_file p)

unfoldable pub no_bar : ProcTest → ℤ × ProcTest
unfolding no_foo
no_bar p = no_foo (remove_proc_entry foo_file p)

unfoldable pub no_symlink : ProcTest → ℤ × ProcTest
unfolding no_bar
no_symlink p = no_bar (remove_proc_entry bar_file p)

unfoldable pub proctest_init : Answers → ProcTest → ℤ × ProcTest
unfolding no_symlink
proctest_init a p₀ =
    let p₁ = create proctest_dir p₀ in
    let p₂ = create jiffies_file p₁ in
    let p₃ = record (create foo_file p₂) { foo_data = named (codes "foo") p₂.foo_data } in
    let p₄ = record (create bar_file p₃) { bar_data = named (codes "bar") p₃.bar_data } in
    if a.mkdir_ok
    then if a.jiffies_ok
      then if a.foo_ok
        then if a.bar_ok
          then if a.symlink_ok then (pos 0, create symlink p₄) else no_symlink p₄
          else no_bar p₃
        else no_foo p₂
      else no_jiffies p₁
    else (neg_enomem, p₀)

unfoldable pub proctest_exit : ProcTest → ProcTest
unfolding remove_proc_entry
proctest_exit p = remove_proc_entry proctest_dir (
    remove_proc_entry jiffies_file
      (remove_proc_entry foo_file (remove_proc_entry bar_file (remove_proc_entry symlink p))))
