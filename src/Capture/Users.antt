-- ===== src/Capture/Users.antt =====
-- The table of registered users of netlink/netlink.c: usrtab and usrcnt.
-- A pid is compared for equality only, so an `int` pid is its bit pattern. `usrcnt` is lowered only
-- where it is above 0 and raised only below 32, so it is a plain number.
pub mod Count
pub mod Registered
mod Tests
use modules.Common.{
  ℕ, suc, ◌+◌, ◌-◌, Bool, true, false, Option, none, some, List, [], ◌∷◌, leb, ◌==◌, if◌then◌else◌,
}

pub record UsrConf : Type 0 where
  pub pid : ℕ
  pub cmd : ℕ

pub record Users : Type 0 where
  pub usrcnt : ℕ
  pub usrtab : List UsrConf

abbrev pub max_tab_size : ℕ
max_tab_size = 32

abbrev pub empty_entry : UsrConf
empty_entry = record { pid = 0; cmd = 0 }

-- The loop of `usertab_init` over the entries.
pub clear_entries : List UsrConf → List UsrConf
clear_entries [] = []
clear_entries (e ∷ es) = empty_entry ∷ clear_entries es

unfoldable pub usertab_init : Users → Users
unfolding clear_entries
usertab_init us = record us { usrtab = clear_entries us.usrtab }

unfoldable pub delete_all_user : Users → Users
unfolding usertab_init
delete_all_user us = usertab_init us

-- The entry put in front of what the loop made of the rest of the table.
abbrev pub behind : UsrConf → Option (List UsrConf) → Option (List UsrConf)
behind e none = none
behind e (some es) = some (e ∷ es)

-- The loop of `user_leave`: the first entry of this pid loses it; `none` when there is none.
pub leave_loop : ℕ → List UsrConf → Option (List UsrConf)
leave_loop pid [] = none
leave_loop pid (e ∷ es) =
    if e.pid == pid then some (record e { pid = 0 } ∷ es) else behind e (leave_loop pid es)

-- The loop of `user_join`: the first free entry takes the pid; `none` when there is none.
pub join_loop : ℕ → List UsrConf → Option (List UsrConf)
join_loop pid [] = none
join_loop pid (e ∷ es) =
    if e.pid == 0 then some (record e { pid = pid } ∷ es) else behind e (join_loop pid es)

left : Users → Option (List UsrConf) → Users × Bool
left us none = (us, false)
left us (some tab) = (record us { usrtab = tab; usrcnt = us.usrcnt - 1 }, true)

joined : Users → Option (List UsrConf) → Users × Bool
joined us none = (us, false)
joined us (some tab) = (record us { usrtab = tab; usrcnt = us.usrcnt + 1 }, true)

-- The `int` that the functions return, 0 or 1, is the Boolean.
unfoldable pub user_leave : ℕ → Users → Users × Bool
unfolding left leave_loop
user_leave pid us = if leb us.usrcnt 0 then (us, false) else left us (leave_loop pid us.usrtab)

unfoldable pub user_join : ℕ → Users → Users × Bool
unfolding joined join_loop
user_join pid us =
    if leb max_tab_size us.usrcnt then (us, false) else joined us (join_loop pid us.usrtab)
