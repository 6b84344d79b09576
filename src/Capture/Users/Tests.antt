-- ===== src/Capture/Users/Tests.antt =====
-- The user table of netlink/netlink.c on small tables.
use modules.Common.{ℕ, ◌≡◌, refl, true, false, List, [], ◌∷◌, replicate, arith}
use modules.Capture.Users.{UsrConf, Users, empty_entry, user_join, user_leave}
use modules.Capture.Users.Registered.{
  copies, Command, join, leave, Bag, Represents, run, run_spec, run_refines,
}

abbrev entry_of : ℕ → UsrConf
entry_of pid = record { pid = pid; cmd = 0 }

-- A table with the pids 7 and 9, and one with no room.
abbrev two_users : Users
two_users = record {
  usrcnt = 2;
  usrtab = entry_of 7 ∷ empty_entry ∷ entry_of 9 ∷ replicate 29 empty_entry;
}

joined_third : user_join 8 two_users ≡ (
  record { usrcnt = 3; usrtab = entry_of 7 ∷ entry_of 8 ∷ entry_of 9 ∷ replicate 29 empty_entry },
  true,
)
unfolding user_join
joined_third = refl

left_missing : user_leave 8 two_users ≡ (two_users, false)
unfolding user_leave
left_missing = refl

-- Joins and leaves from an empty table, with a pid that joins twice and one that is not there.
abbrev no_users : Users
no_users = record { usrcnt = 0; usrtab = replicate 32 empty_entry }

abbrev no_registrations : Bag
no_registrations = record { total = 0; count = λ q. 0 }

copies-no_users : (q : ℕ) → ¬ (q ≡ 0) → copies q no_users.usrtab ≡ 0
copies-no_users q qn = ground arith

no_users-Represents : Represents no_users no_registrations
no_users-Represents = record {
  valid = record { size = refl; counted = refl };
  total = refl;
  count = copies-no_users;
}

abbrev some_commands : List Command
some_commands = join 7 ∷ join 7 ∷ leave 9 ∷ leave 7 ∷ []

run_refines_example :
    ((run some_commands no_users).0 ≡ (run_spec some_commands no_registrations).0)
    × Represents (run some_commands no_users).1 (run_spec some_commands no_registrations).1
run_refines_example =
    run_refines some_commands no_users no_registrations (ground arith) no_users-Represents
