-- ===== src/Capture/Users/Count.antt =====
-- The counter `usrcnt` against the table of netlink/netlink.c.
use modules.Common.{
  ℕ, zero, get_or, suc, ◌+◌, ◌<◌, ◌≡◌, refl, ap, ◌≢◌, inl, inr, true, false, some, List, [], ◌∷◌,
  arith, length, ◌==◌, if◌then◌else◌, Bool-cases, Option-cases, sym, ◌∙◌, dec_lt,
}
use modules.Capture.Users.{
  UsrConf, empty_entry, Users, max_tab_size, clear_entries, usertab_init, delete_all_user,
  leave_loop, join_loop, user_leave, user_join,
}

-- The number of entries in use.
abbrev pub occupied : List UsrConf → ℕ
occupied [] = 0
occupied (e ∷ es) = let rest = occupied es in if e.pid == 0 then rest else suc rest

-- The counter says how many of the 32 entries are in use.
pub record IsValid (us : Users) : Type 0 where
  pub size : length us.usrtab ≡ max_tab_size
  pub counted : us.usrcnt ≡ occupied us.usrtab

-- The loop of `user_join` finds an entry exactly when one is free, and fills it.
pub join_loop_lem :
    (pid : ℕ) (es : List UsrConf)
    → pid ≢ 0
    → occupied es < length es
    → (tab : List UsrConf) × (join_loop pid es ≡ some tab)
      × (length tab ≡ length es)
      × (occupied tab ≡ suc (occupied es))
unfolding join_loop
join_loop_lem pid [] p h = absurd (omega arith)
join_loop_lem pid (e ∷ es) p h = elim (Bool-cases (e.pid == 0)) [
  | inl free ↦ (record e { pid = pid } ∷ es, ground arith, refl, ground arith)
  | inr used ↦
      let (tab, eq, len, occ) = join_loop_lem pid es p (ground arith) in
      (e ∷ tab, ground (arith, eq), ap suc len, ground (arith, occ))
]

-- Clearing keeps the size of the table and leaves no entry in use.
length-clear : (es : List UsrConf) → length (clear_entries es) ≡ length es
unfolding clear_entries
length-clear [] = refl
length-clear (e ∷ es) = ap suc (length-clear es)

occupied-clear : (es : List UsrConf) → occupied (clear_entries es) ≡ 0
unfolding clear_entries
occupied-clear [] = refl
occupied-clear (e ∷ es) = occupied-clear es

pub get_or-clear : (es : List UsrConf) (i : ℕ) → (get_or (clear_entries es) i empty_entry).pid ≡ 0
unfolding clear_entries
get_or-clear [] i = refl
get_or-clear (e ∷ es) zero = refl
get_or-clear (e ∷ es) (suc i) = get_or-clear es i

-- After `delete_all_user` every entry that is read has the pid 0.
pub get_or-delete_all_user :
    (us : Users) (i : ℕ) → (get_or (delete_all_user us).usrtab i empty_entry).pid ≡ 0
unfolding delete_all_user
get_or-delete_all_user us i = get_or-clear us.usrtab i

-- A leaving pid of 0 meets a free entry, which stays free.
leave_loop-zero :
    (es : List UsrConf)
    → occupied es < length es
    → (tab : List UsrConf) × (leave_loop 0 es ≡ some tab) × (occupied tab ≡ occupied es)
unfolding leave_loop
leave_loop-zero [] h = absurd (omega arith)
leave_loop-zero (e ∷ es) h = elim (Bool-cases (e.pid == 0)) [
  | inl free ↦ (record e { pid = 0 } ∷ es, ground arith, ground arith)
  | inr used ↦
      let (tab, eq, occ) = leave_loop-zero es (ground arith) in
      (e ∷ tab, ground (arith, eq), ground (arith, occ))
]

-- What the loop of `user_leave` makes of the table when it finds the pid.
pub leave_loop_lem :
    (pid : ℕ) (es tab : List UsrConf)
    → pid ≢ 0
    → leave_loop pid es ≡ some tab
    → (length tab ≡ length es) × (suc (occupied tab) ≡ occupied es)
unfolding leave_loop
leave_loop_lem pid [] tab p h = cc
leave_loop_lem pid (e ∷ es) tab p h = elim (Bool-cases (e.pid == pid)) [
  | inl same ↦ ground (arith, h, same)
  | inr other ↦ elim (Option-cases (leave_loop pid es)) [
    | inl missing ↦ ground (arith, h, other, missing)
    | inr (rest, found) ↦ ground (arith, h, other, found, leave_loop_lem pid es rest p found)
  ]
]

-- A fresh table is valid: 32 free entries and a counter of 0.
pub usertab_init-IsValid :
    (us : Users) → length us.usrtab ≡ max_tab_size → us.usrcnt ≡ 0 → IsValid (usertab_init us)
unfolding usertab_init
usertab_init-IsValid us size none_yet = record {
  size = length-clear us.usrtab ∙ size;
  counted = none_yet ∙ sym (occupied-clear us.usrtab);
}

-- `user_join` of a pid other than 0 keeps the counter right.
pub user_join-IsValid : (pid : ℕ) (us : Users) → pid ≢ 0 → IsValid us → IsValid (user_join pid us).0
unfolding user_join
user_join-IsValid pid us p v = elim (dec_lt us.usrcnt 32) [
  | yes room ↦
      let (tab, eq, len, occ) = join_loop_lem pid us.usrtab p (omega arith) in
      ground (arith, eq, len, occ)
  | no full ↦ ground arith
]

-- `user_leave` of a pid other than 0 keeps the counter right, found or not.
pub user_leave-IsValid :
    (pid : ℕ) (us : Users) → pid ≢ 0 → IsValid us → IsValid (user_leave pid us).0
unfolding user_leave
user_leave-IsValid pid us p v = elim (Option-cases (leave_loop pid us.usrtab)) [
  | inl missing ↦ ground (arith, missing)
  | inr (tab, found) ↦ ground (arith, found, leave_loop_lem pid us.usrtab tab p found)
]

-- `delete_all_user` clears the entries and leaves the counter: of a table that was full, every
-- entry is free afterwards, and `user_join` still refuses every pid and changes nothing.
pub delete_all_user-strands :
    (pid : ℕ) (us : Users)
    → IsValid us
    → us.usrcnt ≡ max_tab_size
    → (occupied (delete_all_user us).usrtab ≡ 0)
      × (user_join pid (delete_all_user us) ≡ (delete_all_user us, false))
unfolding delete_all_user user_join
delete_all_user-strands pid us v full = (occupied-clear us.usrtab, ground arith)

-- `user_leave` of the pid 0 takes a free entry for a user: in a valid table with a user and a free
-- entry it answers 1 and lowers the counter, and no entry in use is given up.
pub user_leave-zero :
    (us : Users)
    → IsValid us
    → 0 < us.usrcnt
    → us.usrcnt < max_tab_size
    → ((user_leave 0 us).1 ≡ true)
      × ((user_leave 0 us).0.usrcnt + 1 ≡ us.usrcnt)
      × (occupied (user_leave 0 us).0.usrtab ≡ occupied us.usrtab)
unfolding user_leave
user_leave-zero us v some_user room =
    let (tab, eq, occ) = leave_loop-zero us.usrtab (omega arith) in ground (arith, eq, occ)
