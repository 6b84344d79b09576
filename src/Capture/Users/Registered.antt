-- ===== src/Capture/Users/Registered.antt =====
-- The user table of netlink/netlink.c as the multiset of the pids that are registered.
use modules.Common.{
  ℕ, suc, ◌+◌, ◌-◌, ◌<◌, ◌≡◌, refl, ◌≢◌, inl, inr, true, false, none, some, List, [], ◌∷◌, arith,
  ◌==◌, if◌then◌else◌, Bool, Bool-cases, Option-cases, dec_lt, leb, ap₂, All,
}
use modules.Capture.Users.{
  UsrConf, Users, max_tab_size, leave_loop, join_loop, user_leave, user_join,
}
use modules.Capture.Users.Count.{occupied, IsValid, join_loop_lem, leave_loop_lem}

-- How many entries hold the pid.
abbrev pub copies : ℕ → List UsrConf → ℕ
copies q [] = 0
copies q (e ∷ es) = let rest = copies q es in if e.pid == q then suc rest else rest

-- One if the pids are the same, and 0 otherwise.
abbrev pub single : ℕ → ℕ → ℕ
single q pid = if q == pid then 1 else 0

copies-join_loop :
    (q pid : ℕ) (es tab : List UsrConf)
    → q ≢ 0
    → join_loop pid es ≡ some tab
    → copies q tab ≡ copies q es + single q pid
unfolding join_loop
copies-join_loop q pid [] tab p h = cc
copies-join_loop q pid (e ∷ es) tab p h = elim (Bool-cases (e.pid == 0)) [
  | inl free ↦ ground (arith, h, free)
  | inr used ↦ elim (Option-cases (join_loop pid es)) [
    | inl full ↦ ground (arith, h, used, full)
    | inr (rest, found) ↦ ground (arith, h, used, found, copies-join_loop q pid es rest p found)
  ]
]

copies-leave_loop :
    (q pid : ℕ) (es tab : List UsrConf)
    → q ≢ 0
    → leave_loop pid es ≡ some tab
    → copies q tab + single q pid ≡ copies q es
unfolding leave_loop
copies-leave_loop q pid [] tab p h = cc
copies-leave_loop q pid (e ∷ es) tab p h = elim (Bool-cases (e.pid == pid)) [
  | inl same ↦ ground (arith, h, same)
  | inr other ↦ elim (Option-cases (leave_loop pid es)) [
    | inl missing ↦ ground (arith, h, other, missing)
    | inr (rest, found) ↦ ground (arith, h, other, found, copies-leave_loop q pid es rest p found)
  ]
]

-- The loop of `user_leave` misses a pid only if no entry holds it.
leave_loop-none : (pid : ℕ) (es : List UsrConf) → leave_loop pid es ≡ none → copies pid es ≡ 0
unfolding leave_loop
leave_loop-none pid [] h = refl
leave_loop-none pid (e ∷ es) h = elim (Bool-cases (e.pid == pid)) [
  | inl same ↦ ground (arith, h, same)
  | inr other ↦ elim (Option-cases (leave_loop pid es)) [
    | inl missing ↦ ground (arith, other, leave_loop-none pid es missing)
    | inr (rest, found) ↦ ground (arith, h, other, found)
  ]
]

-- The two operations where their loops find an entry, and where they change nothing.
user_join-some :
    (pid : ℕ) (us : Users) (tab : List UsrConf)
    → us.usrcnt < 32
    → join_loop pid us.usrtab ≡ some tab
    → user_join pid us ≡ (record { usrtab = tab; usrcnt = us.usrcnt + 1 }, true)
unfolding user_join
user_join-some pid us tab room found = ground (arith, found)

user_join-full : (pid : ℕ) (us : Users) → ¬ (us.usrcnt < 32) → user_join pid us ≡ (us, false)
unfolding user_join
user_join-full pid us full = ground arith

user_leave-none :
    (pid : ℕ) (us : Users) → leave_loop pid us.usrtab ≡ none → user_leave pid us ≡ (us, false)
unfolding user_leave
user_leave-none pid us missing = ground (arith, missing)

user_leave-some :
    (pid : ℕ) (us : Users) (tab : List UsrConf)
    → 0 < us.usrcnt
    → leave_loop pid us.usrtab ≡ some tab
    → user_leave pid us ≡ (record { usrtab = tab; usrcnt = us.usrcnt - 1 }, true)
unfolding user_leave
user_leave-some pid us tab some_user found = ground (arith, found)

-- What the module is asked to do with the table.
pub data Command : Type 0 where
  join leave : ℕ → Command

abbrev pub pid_of : Command → ℕ
pid_of (join pid) = pid
pid_of (leave pid) = pid

unfoldable pub execute : Command → Users → Users × Bool
execute (join pid) us = user_join pid us
execute (leave pid) us = user_leave pid us

-- The specification: how many registrations there are, and how many each pid has.
pub record Bag : Type 0 where
  pub total : ℕ
  pub count : ℕ → ℕ

unfoldable pub spec : Command → Bag → Bag × Bool
spec (join pid) b =
    if leb max_tab_size b.total
    then (b, false)
    else (record { total = b.total + 1; count = λ q. b.count q + single q pid }, true)
spec (leave pid) b =
    if b.count pid == 0
    then (b, false)
    else (record { total = b.total - 1; count = λ q. b.count q - single q pid }, true)

-- The table holds the registrations of the bag, and its counter is right.
pub record Represents (us : Users) (b : Bag) : Type 0 where
  pub valid : IsValid us
  pub total : occupied us.usrtab ≡ b.total
  pub count : (q : ℕ) → q ≢ 0 → copies q us.usrtab ≡ b.count q

join_refines :
    (pid : ℕ) (us : Users) (b : Bag)
    → pid ≢ 0
    → Represents us b
    → ((user_join pid us).1 ≡ (spec (join pid) b).1)
      × Represents (user_join pid us).0 (spec (join pid) b).0
unfolding spec
join_refines pid us b p r = elim (dec_lt us.usrcnt 32) [
  | yes room ↦
      let (tab, eq, len, occ) = join_loop_lem pid us.usrtab p (ground (arith, r.valid)) in
      rw (user_join-some pid us tab room eq) (
        ground (arith, r.total, r.valid),
        record {
          valid = ground (arith, r.valid, len, occ);
          total = ground (arith, occ, r.total, r.valid);
          count = λ q qn.
              ground
                (arith, r.total, r.valid, r.count q qn, copies-join_loop q pid us.usrtab tab qn eq);
        },
      )
  | no full ↦
      rw (user_join-full pid us full)
        (ground (arith, r.total, r.valid), ground (arith, r, r.total, r.valid))
]

leave_refines :
    (pid : ℕ) (us : Users) (b : Bag)
    → pid ≢ 0
    → Represents us b
    → ((user_leave pid us).1 ≡ (spec (leave pid) b).1)
      × Represents (user_leave pid us).0 (spec (leave pid) b).0
unfolding spec
leave_refines pid us b p r = elim (Option-cases (leave_loop pid us.usrtab)) [
  | inl missing ↦
      let absent = leave_loop-none pid us.usrtab missing in
      rw (user_leave-none pid us missing)
        (ground (arith, r.count pid p, absent), ground (arith, r, r.count pid p, absent))
  | inr (tab, found) ↦
      let one = copies-leave_loop pid pid us.usrtab tab p found in
      let (len, occ) = leave_loop_lem pid us.usrtab tab p found in
      rw (user_leave-some pid us tab (ground (arith, r.valid, occ)) found) (
        ground (arith, r.count pid p, one),
        record {
          valid = ground (arith, r.valid, len, occ);
          total = ground (arith, occ, r.total, r.count pid p, one);
          count = λ q qn. ground (
            arith,
            r.count q qn,
            r.count pid p,
            one,
            copies-leave_loop q pid us.usrtab tab qn found,
          );
        },
      )
]

-- One command: the same answer, and the table still represents the bag.
pub execute_refines :
    (c : Command) (us : Users) (b : Bag)
    → pid_of c ≢ 0
    → Represents us b
    → ((execute c us).1 ≡ (spec c b).1) × Represents (execute c us).0 (spec c b).0
unfolding execute
execute_refines (join pid) us b p r = join_refines pid us b p r
execute_refines (leave pid) us b p r = leave_refines pid us b p r

-- The answers to a sequence of commands, and what is left.
pub run : List Command → Users → List Bool × Users
run [] us = ([], us)
run (c ∷ cs) us =
    let (us', answer) = execute c us in let (answers, end) = run cs us' in (answer ∷ answers, end)

pub run_spec : List Command → Bag → List Bool × Bag
run_spec [] b = ([], b)
run_spec (c ∷ cs) b =
    let (b', answer) = spec c b in let (answers, end) = run_spec cs b' in (answer ∷ answers, end)

-- Started on a table that represents a bag, any sequence of joins and leaves of pids other than 0
-- is answered as the bag of at most 32 registrations answers it, and leaves a table that
-- represents what is left of the bag.
pub run_refines :
    (cs : List Command) (us : Users) (b : Bag)
    → All (λ c. pid_of c ≢ 0) cs
    → Represents us b
    → ((run cs us).0 ≡ (run_spec cs b).0) × Represents (run cs us).1 (run_spec cs b).1
unfolding run run_spec
run_refines [] us b p r = (refl, r)
run_refines (c ∷ cs) us b p r =
    let (same, r') = execute_refines c us b p.0 r in
    let (rest, end) = run_refines cs (execute c us).0 (spec c b).0 p.1 r' in
    (ap₂ ◌∷◌ same rest, end)
