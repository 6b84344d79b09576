-- ===== src/Proc/Setup.antt =====
-- The set-up and the exit of proc/foobar.c and the entries that they make and remove.
use modules.Common.{◌≡◌, ◌⊎◌, Bool, true, false, ◌&&◌, [], ◌∷◌, pos, neg_enomem, arith}
use modules.Proc.{
  ProcTest, proctest_dir, jiffies_file, foo_file, bar_file, symlink, Answers, proctest_init,
  proctest_exit,
}

-- Every kernel call succeeds.
abbrev pub all_ok : Answers → Bool
all_ok a = a.mkdir_ok && a.jiffies_ok && a.foo_ok && a.bar_ok && a.symlink_ok

-- Started with none of its entries, `proctest_init` returns 0 with all five made when every kernel
-- call succeeds, and -ENOMEM with none of them left when one fails; `proctest_exit` after a success
-- leaves none.
pub proctest_init_lem :
    (a : Answers) (p : ProcTest)
    → p.entries ≡ []
    → let (ret, p') = proctest_init a p in
      ((all_ok a ≡ true)
        × (ret ≡ pos 0)
        × (p'.entries ≡ symlink ∷ bar_file ∷ foo_file ∷ jiffies_file ∷ proctest_dir ∷ [])
        × ((proctest_exit p').entries ≡ []))
      ⊎ ((all_ok a ≡ false) × (ret ≡ neg_enomem) × (p'.entries ≡ []))
unfolding proctest_init proctest_exit
proctest_init_lem a p none_yet = ground arith
