-- ===== src/Proc/Tests.antt =====
-- proc/foobar.c on small buffers.
use modules.Common.{
  ℕ, ◌≡◌, refl, ◌⊎◌, true, false, List, [], ◌∷◌, ◌++◌, pos, neg_enomem, replicate, codes, c_string,
  done, some, arith,
}
use modules.Proc.{
  FbData, ProcTest, Answers, proc_read_foobar, proc_write_foobar, proctest_dir, jiffies_file,
  foo_file, bar_file, symlink, proctest_init, proctest_exit, named,
}
use modules.Proc.Setup.{all_ok, proctest_init_lem}
use modules.Proc.Terminated.{IsTerminated, proc_write_foobar-IsTerminated, write_read}

abbrev zeros : List ℕ
zeros = replicate 9 0

abbrev fresh : FbData
fresh = record { name = zeros; value = zeros }

abbrev foo : FbData
foo = named (codes "foo") fresh

foo-IsTerminated : IsTerminated foo.value
foo-IsTerminated = record { size = refl; last = refl }

abbrev nothing_yet : ProcTest
nothing_yet = record { entries = []; foo_data = fresh; bar_data = fresh }

-- The file bar cannot be made.
abbrev no_bar_file : Answers
no_bar_file = record {
  mkdir_ok = true;
  jiffies_ok = true;
  foo_ok = true;
  bar_ok = false;
  symlink_ok = true;
}

proctest_init_lem_example :
    let (ret, p') = proctest_init no_bar_file nothing_yet in
    ((all_ok no_bar_file ≡ true)
      × (ret ≡ pos 0)
      × (p'.entries ≡ symlink ∷ bar_file ∷ foo_file ∷ jiffies_file ∷ proctest_dir ∷ [])
      × ((proctest_exit p').entries ≡ []))
    ⊎ ((all_ok no_bar_file ≡ false) × (ret ≡ neg_enomem) × (p'.entries ≡ []))
proctest_init_lem_example = proctest_init_lem no_bar_file nothing_yet refl

proc_write_foobar-IsTerminated_example :
    IsTerminated (proc_write_foobar 2 (codes "0123456789") 10 foo).1.value
proc_write_foobar-IsTerminated_example =
    proc_write_foobar-IsTerminated 2 (codes "0123456789") 10 foo (omega arith) foo-IsTerminated

foo_name : c_string foo.name ≡ some (codes "foo")
unfolding c_string
foo_name = refl

write_read_example :
    ((proc_write_foobar 0 (codes "0123456789") 10 foo).0 ≡ pos 8)
    × (proc_read_foobar (proc_write_foobar 0 (codes "0123456789") 10 foo).1
        ≡ done (codes "foo" ++ codes " = " ++ codes "01234567" ++ codes "\n"))
write_read_example =
    write_read (codes "0123456789") (codes "foo") 10 foo (omega arith) foo-IsTerminated foo_name
      (ground arith)
