-- ===== src/Mon/Ioctl.antt =====
-- What the ioctls of mon/mon.c set and get, and how much they copy.
use native.Mathlib.Nat.{sub-zero}
use modules.Common.{
  ℕ, ◌+◌, ◌-◌, ◌≤◌, ◌<◌, ◌≡◌, ◌≢◌, refl, ◌⊎◌, inl, inr, Bool, true, false, Option, none, some, List,
  [], ◌∷◌, ◌++◌, pos, neg_eopnotsupp, ltb, ◌==◌, if◌then◌else◌, take, drop, replicate, set, length,
  c_string, arith, Outcome, done, oops, ◌>>=◌, Bool-cases, ◌∙◌, c_string-set, c_string-append,
  c_string-take, length-c_string, length-set, length-append, length-take, length-drop,
  length-replicate, take-set, take-append_le, take-take, take-all, get_or-set, Option-cases,
}
use modules.Mon.{
  Mon, Reply, ioctl_mon_hello, ioctl_mon_set_lover, ioctl_mon_get_lover, ioctl_mon_set_maxsta,
  ioctl_mon_get_maxsta, ioctl_setpara_mon, ioctl_getpara_mon, printed, set_lover, get_lover,
  answered, ioctl_char128_mon,
}

-- A value that is set is read back, and any other sub-command is refused and changes nothing.
pub setpara_getpara :
    (set_param get_param value : ℕ) (m : Mon)
    → let (ret, m') = ioctl_setpara_mon set_param value m in
      (((set_param ≡ ioctl_mon_set_maxsta) × (ret ≡ pos 0) × (m' ≡ record m { g_maxsta = value }))
        ⊎ ((set_param ≢ ioctl_mon_set_maxsta) × (ret ≡ neg_eopnotsupp) × (m' ≡ m)))
      × (((get_param ≡ ioctl_mon_get_maxsta)
            × (ioctl_getpara_mon get_param m' ≡ (pos 0, m'.g_maxsta)))
          ⊎ ((get_param ≢ ioctl_mon_get_maxsta)
              × (ioctl_getpara_mon get_param m' ≡ (neg_eopnotsupp, get_param))))
unfolding ioctl_setpara_mon ioctl_getpara_mon
setpara_getpara set_param get_param value m = ground arith

-- The buffer that the third ioctl makes of the user's bytes.
abbrev buffer_of : (missed : ℕ) → (user : List ℕ) → (len : ℕ) → List ℕ
buffer_of missed user len =
    let k = (if ltb 128 len then 128 else len) - missed in
    set (take k user ++ drop k (replicate 128 0)) 127 0

length-buffer_of :
    (missed : ℕ) (user : List ℕ) (len : ℕ)
    → len ≤ length user
    → length (buffer_of missed user len) ≡ 128
length-buffer_of missed user len enough =
    let k = (if ltb 128 len then 128 else len) - missed in
    let small : k ≤ 128 = ground arith in
    let fits : k ≤ length user = ground arith in
    length-set (take k user ++ drop k (replicate 128 0)) 127 0
    ∙ omega (
      arith,
      length-append (take k user) (drop k (replicate 128 0)),
      length-take k user,
      length-drop k (replicate {A = ℕ} 128 0),
      length-replicate {A = ℕ} 128 0,
    )

-- A name with room for its NUL is found in the buffer.
c_string-buffer_of :
    (name user : List ℕ) (len : ℕ)
    → c_string user ≡ some name
    → length name < 128
    → length name < len
    → c_string (buffer_of 0 user len) ≡ some name
c_string-buffer_of name user len is short given =
    let n = if ltb 128 len then 128 else len in
    let k = n - 0 in
    let room : length name < k = ground arith in
    c_string-set (take k user ++ drop k (replicate 128 0)) name 127
      (c_string-append (take k user) (drop k (replicate 128 0)) name
        (c_string-take k user name is room))
      (omega arith)

-- A name of less than 32 bytes that the user gives with its NUL, and that is copied whole, is kept,
-- and any later call that asks for it gets the same name with its NUL and its length, whatever
-- buffer it comes with.
pub set_lover-get_lover :
    (name user user' : List ℕ) (len len' missed_in missed_out : ℕ) (m : Mon)
    → c_string user ≡ some name
    → length name < 32
    → length name < len
    → (m' : Mon) × (reply : Reply) × (ioctl_char128_mon true 0 missed_out ioctl_mon_set_lover user
          len m
        ≡ done (reply, m'))
      × (reply.ret ≡ pos 0)
      × (ioctl_char128_mon true missed_in 0 ioctl_mon_get_lover user' len' m'
          ≡ done (record { ret = pos 0; length = length name + 1; written = name ++ 0 ∷ [] }, m'))
unfolding ioctl_char128_mon
set_lover-get_lover name user user' len len' missed_in missed_out m is short given =
    let s = buffer_of 0 user len in
    let s' = buffer_of missed_in user' len' in
    let found : c_string (take 32 s) ≡ some name =
      c_string-take 32 s name (c_string-buffer_of name user len is (omega arith) given) short in
    let back : c_string (set (take 32 s ++ drop 32 s') 127 0) ≡ some name =
      c_string-set (take 32 s ++ drop 32 s') name 127
        (c_string-append (take 32 s) (drop 32 s') name found) (omega arith) in
    (
      record m { g_lover = take 32 s },
      record { ret = pos 0; length = if ltb 128 len then 128 else len; written = [] },
      rw found refl,
      refl,
      rw
          (
            found,
            back,
            sub-zero (length name + 1),
            take-all (length name + 1) (name ++ 0 ∷ [])
                (omega (arith, length-append name (0 ∷ []))),
          )
          refl,
    )

cut-le :
    (len : ℕ)
    → 32 ≤ len
    → (32 ≤ (if ltb 128 len then 128 else len) - 0) × ((if ltb 128 len then 128 else len) - 0 ≤ len)
cut-le len long = ground arith

-- A name of 32 bytes or more fills the array with no NUL, and the line that prints it reads past
-- the end.
pub long_lover_overruns :
    (user : List ℕ) (len missed_out : ℕ) (m : Mon)
    → c_string (take 32 user) ≡ none
    → 32 ≤ len
    → len ≤ length user
    → ioctl_char128_mon true 0 missed_out ioctl_mon_set_lover user len m ≡ oops
unfolding ioctl_char128_mon
long_lover_overruns user len missed_out m unending long enough =
    let n = if ltb 128 len then 128 else len in
    let k = n - 0 in
    let (wide, short) = cut-le len long in
    let front : take 32 (buffer_of 0 user len) ≡ take 32 user =
      take-set 32 127 (take k user ++ drop k (replicate 128 0)) 0 (omega arith)
      ∙ take-append_le 32 (take k user) (drop k (replicate 128 0))
          (omega (arith, length-take k user))
      ∙ take-take 32 k user wide in
    rw (front, unending) refl

-- What a call that returned may leave.
abbrev Bounded : Outcome (Reply × Mon) → Type 0
Bounded o =
    (o ≡ oops)
    ⊎ ((reply : Reply) × (m' : Mon) × (o ≡ done (reply, m'))
        × (reply.length ≤ 128)
        × (length reply.written ≤ reply.length)
        × (length m'.g_lover ≡ 32))

quiet-Bounded :
    (o : Option (List ℕ)) (n : ℕ) (m : Mon)
    → n ≤ 128
    → length m.g_lover ≡ 32
    → Bounded (printed o (record { ret = pos 0; length = n; written = [] }, m))
quiet-Bounded none n m small size = inl refl
quiet-Bounded (some s) n m small size = inr (_, m, refl, small, omega arith, size)

set_lover-Bounded :
    (s : List ℕ) (n : ℕ) (m : Mon)
    → n ≤ 128
    → length s ≡ 128
    → Bounded (set_lover s m >>= λ m'. done (record { ret = pos 0; length = n; written = [] }, m'))
unfolding set_lover
set_lover-Bounded s n m small size = elim (Option-cases (c_string (take 32 s))) [
  | inl missing ↦ inl (rw missing refl)
  | inr (t, found) ↦ inr (
    record { ret = pos 0; length = n; written = [] },
    record m { g_lover = take 32 s },
    rw found refl,
    small,
    omega arith,
    omega (arith, length-take 32 s),
  )
]

answered-Bounded :
    (missed : ℕ) (o : Option (List ℕ)) (m : Mon)
    → ((t : List ℕ) → o ≡ some t → length t ≤ 127)
    → length m.g_lover ≡ 32
    → Bounded (answered missed o m)
unfolding answered
answered-Bounded missed none m short size = inl refl
answered-Bounded missed (some t) m short size = inr (
  _,
  m,
  refl,
  omega (arith, short t refl),
  omega (arith, length-take (length t + 1 - missed) (t ++ 0 ∷ []), length-append t (0 ∷ [])),
  size,
)

get_lover-Bounded :
    (missed : ℕ) (s : List ℕ) (m : Mon)
    → length s ≡ 128
    → length m.g_lover ≡ 32
    → Bounded (get_lover s m >>= λ s'. answered missed (c_string s') m)
unfolding get_lover
get_lover-Bounded missed s m size has = elim (Option-cases (c_string m.g_lover)) [
  | inl missing ↦ inl (rw missing refl)
  | inr (t, found) ↦
      let all = m.g_lover ++ drop 32 s in
      let wide : 127 < length all =
        omega (arith, length-append m.g_lover (drop 32 s), length-drop 32 s) in
      rw found (
        answered-Bounded missed (c_string (set all 127 0)) m
          (λ u is. length-c_string (set all 127 0) u 127 is (get_or-set 127 all 0 1 wide)) has)
]

-- Every call of the third ioctl, with readable memory behind its pointer and g_lover of its 32
-- bytes, faults or returns with a length of at most 128, has written no more than that to the user,
-- and leaves g_lover of 32 bytes.
pub ioctl_char128_mon_lem :
    (kzalloc_ok : Bool) (missed_in missed_out flags : ℕ) (user : List ℕ) (len : ℕ) (m : Mon)
    → len ≤ length user
    → length m.g_lover ≡ 32
    → let o = ioctl_char128_mon kzalloc_ok missed_in missed_out flags user len m in
      (o ≡ oops)
      ⊎ ((reply : Reply) × (m' : Mon) × (o ≡ done (reply, m'))
          × (reply.length ≤ 128)
          × (length reply.written ≤ reply.length)
          × (length m'.g_lover ≡ 32))
unfolding ioctl_char128_mon
ioctl_char128_mon_lem false missed_in missed_out flags user len m enough size = inl refl
ioctl_char128_mon_lem true missed_in missed_out flags user len m enough size =
    let s = buffer_of missed_in user len in
    let n = if ltb 128 len then 128 else len in
    let small : n ≤ 128 = ground arith in
    let whole = length-buffer_of missed_in user len enough in
    elim (Bool-cases (flags == ioctl_mon_hello)) [
      | inl hello ↦ rw hello (quiet-Bounded (c_string user) n m small size)
      | inr not_hello ↦ elim (Bool-cases (flags == ioctl_mon_set_lover)) [
        | inl sets ↦ rw (not_hello, sets) (set_lover-Bounded s n m small whole)
        | inr not_set ↦ elim (Bool-cases (flags == ioctl_mon_get_lover)) [
          | inl gets ↦ rw (not_hello, not_set, gets) (get_lover-Bounded missed_out s m whole size)
          | inr other ↦ rw (not_hello, not_set, other) (quiet-Bounded (some []) n m small size)
        ]
      ]
    ]
