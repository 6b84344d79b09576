-- ===== src/Mon.antt =====
-- The wireless extension module mon/mon.c: the private ioctls with their static variables, and the
-- device that they belong to. An `int` is its 32-bit pattern. What is printed is left out, but a
-- `%s` that reads past the end of its array is a fault.
pub mod Ioctl
pub mod Device
pub mod Private
mod Tests
use modules.Common.{
  ℕ, suc, ◌+◌, ◌-◌, Bool, true, false, Option, none, some, List, [], ◌∷◌, ◌++◌, ℤ, pos, neg_efault,
  neg_eopnotsupp, ltb, ◌==◌, is_nonzero, if◌then◌else◌, take, drop, replicate, set, length,
  c_string, Outcome, done, oops, ◌>>=◌,
}

-- The sub-commands.
abbrev pub ioctl_mon_hello : ℕ
ioctl_mon_hello = 0x11

abbrev pub ioctl_mon_set_lover : ℕ
ioctl_mon_set_lover = 0x12

abbrev pub ioctl_mon_get_lover : ℕ
ioctl_mon_get_lover = 0x13

abbrev pub ioctl_mon_set_maxsta : ℕ
ioctl_mon_set_maxsta = 0x14

abbrev pub ioctl_mon_get_maxsta : ℕ
ioctl_mon_get_maxsta = 0x15

abbrev pub ioctl_char128 : ℕ
ioctl_char128 = 128

-- g_maxsta, and the 32 bytes of g_lover.
pub record Mon : Type 0 where
  pub g_maxsta : ℕ
  pub g_lover : List ℕ

-- `extra` is read as two ints.
unfoldable pub ioctl_setpara_mon : (param value : ℕ) → Mon → ℤ × Mon
ioctl_setpara_mon param value m =
    if param == ioctl_mon_set_maxsta
    then (pos 0, record m { g_maxsta = value })
    else (neg_eopnotsupp, m)

-- The result and what `param[0]` is afterwards.
unfoldable pub ioctl_getpara_mon : (param : ℕ) → Mon → ℤ × ℕ
ioctl_getpara_mon param m =
    if param == ioctl_mon_get_maxsta then (pos 0, m.g_maxsta) else (neg_eopnotsupp, param)

-- `printk("%s", s)` for an array: a string is found in it, or the read runs past its end.
abbrev pub printed {ℓ} : {A : Type ℓ} → Option (List ℕ) → A → Outcome A
printed none a = oops
printed (some s) a = done a

unfoldable pub set_lover : (buf : List ℕ) → Mon → Outcome Mon
set_lover buf m =
    let m' : Mon = record m { g_lover = take 32 buf } in printed (c_string m'.g_lover) m'

-- The buffer afterwards.
unfoldable pub get_lover : (buf : List ℕ) → Mon → Outcome (List ℕ)
get_lover buf m = printed (c_string m.g_lover) (set (m.g_lover ++ drop 32 buf) (128 - 1) 0)

-- What a call of the third ioctl leaves: its result, the length in the request, and the bytes that
-- it copied to the user.
pub record Reply : Type 0 where
  pub ret : ℤ
  pub length : ℕ
  pub written : List ℕ

abbrev pub efault_if : (missed : ℕ) → ℤ
efault_if missed = if missed == 0 then pos 0 else neg_efault

-- `copy_to_user` of the string with its NUL leaves `missed` bytes uncopied.
pub answered : (missed : ℕ) → Option (List ℕ) → Mon → Outcome (Reply × Mon)
answered missed none m = oops
answered missed (some s) m =
    let n = length s + 1 in
    done
      (record { ret = efault_if missed; length = n; written = take (n - missed) (s ++ 0 ∷ []) }, m)

-- The `switch` on `u->data.flags`, with the buffer `s` and the length that was cut.
pub switch_flags : (missed flags : ℕ) → (user s : List ℕ) → (len : ℕ) → Mon → Outcome (Reply × Mon)
unfolding set_lover get_lover answered
switch_flags missed flags user s len m =
    let quiet : Reply = record { ret = pos 0; length = len; written = [] } in
    if flags == ioctl_mon_hello
    then printed (c_string user) (quiet, m)
    else if flags == ioctl_mon_set_lover
    then (set_lover s m >>= λ m'. done (quiet, m'))
    else if flags == ioctl_mon_get_lover
    then (get_lover s m >>= λ s'. answered missed (c_string s') m)
    else done (quiet, m)

-- `user` is the user's memory from `u->data.pointer` on. `copy_from_user` leaves `missed_in` bytes
-- uncopied, which is not looked at; nor is the result of `kzalloc`.
unfoldable pub ioctl_char128_mon :
    (kzalloc_ok : Bool)
    → (missed_in missed_out flags : ℕ) → (user : List ℕ) → (len : ℕ) → Mon
    → Outcome (Reply × Mon)
unfolding switch_flags
ioctl_char128_mon kzalloc_ok missed_in missed_out flags user len m =
    let n = if ltb ioctl_char128 len then ioctl_char128 else len in
    let k = n - missed_in in
    let s = set (take k user ++ drop k (replicate ioctl_char128 0)) (128 - 1) 0 in
    if kzalloc_ok then switch_flags missed_out flags user s n m else oops
