-- ===== src/Common/Strings.antt =====
-- Bytes, C strings and little-endian integers, as the string functions of C treat them.
use Prim.Native.Nat.{ℕ, zero, suc, ◌+◌, ◌-◌, ◌*◌, ◌/◌, ◌%◌, ◌^◌, ◌≤◌, ◌<◌}
use Prim.Native.Char.{code}
use Prim.Native.String.{String}
use mathlib.Core.Path.{◌≡◌, refl, ap}
use mathlib.Core.Logic.{◌≢◌}
use mathlib.Core.Bool.{Bool, ◌&&◌, ◌||◌}
use mathlib.Core.Option.{Option, none, some}
use mathlib.Core.List.{List, [], ◌∷◌, ◌++◌}
use native.Mathlib.Omega.{arith}
use mathlib.Core.Logic.{inl, inr}
use modules.Common.Tests.{Bool-cases, Option-cases, ◌==◌, leb, if◌then◌else◌}
use modules.Common.Lists.{set, take, length, replicate, length-replicate, All, get_or}

-- The bytes of a text in ASCII.
abbrev pub codes : String → List ℕ
codes String.[] = []
codes (String.◌∷◌ c s) = code c ∷ codes s

-- `strncpy(dst, src, n)`: the bytes of `src` up to its NUL, then zeros, `n` in all.
unfoldable pub strncpy : List ℕ → ℕ → List ℕ
strncpy src zero = []
strncpy [] (suc n) = 0 ∷ strncpy [] n
strncpy (c ∷ src) (suc n) = if c == 0 then 0 ∷ replicate n 0 else c ∷ strncpy src n

pub length-strncpy : (src : List ℕ) (n : ℕ) → length (strncpy src n) ≡ n
unfolding strncpy
length-strncpy src zero = refl
length-strncpy [] (suc n) = ap suc (length-strncpy [] n)
length-strncpy (c ∷ src) (suc n) =
    ground (arith, length-strncpy src n, length-replicate {A = ℕ} n 0)

abbrev pub prepended : ℕ → Option (List ℕ) → Option (List ℕ)
prepended c none = none
prepended c (some s) = some (c ∷ s)

-- The C string at the front of some bytes: those before the first NUL; `none` if there is no NUL,
-- so that a reader runs past the end.
unfoldable pub c_string : List ℕ → Option (List ℕ)
c_string [] = none
c_string (c ∷ bytes) = if c == 0 then some [] else prepended c (c_string bytes)

-- A string that `strncpy` copies with room for its NUL is read back, whatever bytes follow.
pub c_string-strncpy :
    (src : List ℕ) (n : ℕ) (rest : List ℕ)
    → All (λ c. c ≢ 0) src
    → length src < n
    → c_string (strncpy src n ++ rest) ≡ some src
unfolding c_string strncpy
c_string-strncpy src zero rest h k = absurd (omega arith)
c_string-strncpy [] (suc n) rest h k = refl
c_string-strncpy (c ∷ src) (suc n) rest h k = ground (arith, c_string-strncpy src n rest h.1)

-- One that fills the whole array has no NUL in it.
pub c_string-strncpy_full :
    (src : List ℕ) (n : ℕ) → All (λ c. c ≢ 0) src → n ≤ length src → c_string (strncpy src n) ≡ none
unfolding c_string strncpy
c_string-strncpy_full src zero h k = refl
c_string-strncpy_full [] (suc n) h k = absurd (omega arith)
c_string-strncpy_full (c ∷ src) (suc n) h k = ground (arith, c_string-strncpy_full src n h.1)

-- Bytes with no NUL hold no string, and two such stretches together hold none.
pub c_string-none : (s : List ℕ) → All (λ c. c ≢ 0) s → c_string s ≡ none
unfolding c_string
c_string-none [] h = refl
c_string-none (c ∷ s) h = ground (arith, c_string-none s h.1)

pub c_string-append_none :
    (s t : List ℕ) → c_string s ≡ none → c_string t ≡ none → c_string (s ++ t) ≡ none
unfolding c_string
c_string-append_none [] t h k = k
c_string-append_none (c ∷ s) t h k = ground (arith, c_string-append_none s t)

-- A string ends at the first NUL, whatever stands behind it.
pub c_string-append_nul : (s rest : List ℕ) → All (λ c. c ≢ 0) s → c_string (s ++ 0 ∷ rest) ≡ some s
unfolding c_string
c_string-append_nul [] rest h = refl
c_string-append_nul (c ∷ s) rest h = ground (arith, c_string-append_nul s rest h.1)

-- A string is read back from any stretch that goes past its NUL, whatever stands behind, and after
-- a NUL is written behind it.
pub c_string-take :
    (n : ℕ) (xs s : List ℕ) → c_string xs ≡ some s → length s < n → c_string (take n xs) ≡ some s
unfolding c_string
c_string-take zero xs s h k = absurd (omega arith)
c_string-take (suc n) [] s h k = absurd (cc)
c_string-take (suc n) (zero ∷ xs) s h k = h
c_string-take (suc n) (suc c ∷ xs) s h k = elim (Option-cases (c_string xs)) [
  | inl missing ↦ absurd (ground (arith, h, missing))
  | inr (t, found) ↦ ground (arith, h, found, c_string-take n xs t found)
]

pub c_string-append : (xs ys s : List ℕ) → c_string xs ≡ some s → c_string (xs ++ ys) ≡ some s
unfolding c_string
c_string-append [] ys s h = absurd (cc)
c_string-append (zero ∷ xs) ys s h = h
c_string-append (suc c ∷ xs) ys s h = elim (Option-cases (c_string xs)) [
  | inl missing ↦ absurd (ground (arith, h, missing))
  | inr (t, found) ↦ ground (arith, h, found, c_string-append xs ys t found)
]

pub c_string-set :
    (xs s : List ℕ) (i : ℕ) → c_string xs ≡ some s → length s ≤ i → c_string (set xs i 0) ≡ some s
unfolding c_string
c_string-set [] s i h k = absurd (cc)
c_string-set (zero ∷ xs) s zero h k = h
c_string-set (zero ∷ xs) s (suc i) h k = h
c_string-set (suc c ∷ xs) s zero h k = elim (Option-cases (c_string xs)) [
  | inl missing ↦ absurd (ground (arith, h, missing))
  | inr (t, found) ↦ absurd (ground (arith, h, found))
]
c_string-set (suc c ∷ xs) s (suc i) h k = elim (Option-cases (c_string xs)) [
  | inl missing ↦ absurd (ground (arith, h, missing))
  | inr (t, found) ↦ ground (arith, h, found, c_string-set xs t i found)
]

-- The string ends at or before any place that holds a NUL.
pub length-c_string :
    (xs s : List ℕ) (i : ℕ) → c_string xs ≡ some s → get_or xs i 1 ≡ 0 → length s ≤ i
unfolding c_string
length-c_string [] s i h k = absurd (cc)
length-c_string (zero ∷ xs) s i h k = ground (arith, h)
length-c_string (suc c ∷ xs) s zero h k = absurd (omega arith)
length-c_string (suc c ∷ xs) s (suc i) h k = elim (Option-cases (c_string xs)) [
  | inl missing ↦ absurd (ground (arith, h, missing))
  | inr (t, found) ↦ ground (arith, h, found, length-c_string xs t i found k)
]

-- The bytes of a uint16_t and of an int, as its 32-bit pattern, lowest first.
unfoldable pub le16 : ℕ → List ℕ
le16 n = n % 256 ∷ n / 256 % 256 ∷ []

unfoldable pub le32 : ℕ → List ℕ
le32 n = n % 256 ∷ n / 256 % 256 ∷ n / 65536 % 256 ∷ n / 16777216 % 256 ∷ []

-- The integers at the front of some bytes; `none` if there are too few.
unfoldable pub u16_at : List ℕ → Option ℕ
u16_at (a ∷ b ∷ rest) = some (a + 256 * b)
u16_at (a ∷ []) = none
u16_at [] = none

unfoldable pub u32_at : List ℕ → Option ℕ
u32_at (a ∷ b ∷ c ∷ d ∷ rest) = some (a + 256 * b + 65536 * c + 16777216 * d)
u32_at _ = none

pub u32_at-le32 : (n : ℕ) (rest : List ℕ) → n < 2 ^ 32 → u32_at (le32 n ++ rest) ≡ some n
unfolding u32_at le32
u32_at-le32 n rest h = ap some (omega arith)

-- `atoi`: blanks, a sign, and the digits up to the first other byte, as a 32-bit pattern.
abbrev is_digit : ℕ → Bool
is_digit c = leb b'0' c && leb c b'9'

digits : ℕ → List ℕ → ℕ
digits acc [] = acc
digits acc (c ∷ cs) =
    let rest = digits (acc * 10 + (c - b'0')) cs in if is_digit c then rest else acc

signed : List ℕ → ℕ
unfolding digits
signed [] = 0
signed (c ∷ cs) =
    if c == b'-'
    then (2 ^ 32 - digits 0 cs % 2 ^ 32) % 2 ^ 32
    else (if c == b'+' then digits 0 cs else digits 0 (c ∷ cs)) % 2 ^ 32

abbrev is_blank : ℕ → Bool
is_blank c = c == 32 || leb 9 c && leb c 13

unfoldable pub atoi : List ℕ → ℕ
unfolding signed
atoi [] = 0
atoi (c ∷ cs) = let rest = atoi cs in if is_blank c then rest else signed (c ∷ cs)

signed-bound : (cs : List ℕ) → signed cs < 2 ^ 32
unfolding signed
signed-bound [] = omega arith
signed-bound (c ∷ cs) = elim (Bool-cases (c == b'-')) [
  | inl minus ↦ rw minus (omega arith)
  | inr other ↦ rw other (omega arith)
]

pub atoi-bound : (cs : List ℕ) → atoi cs < 2 ^ 32
unfolding atoi
atoi-bound [] = omega arith
atoi-bound (c ∷ cs) = elim (Bool-cases (is_blank c)) [
  | inl blank ↦ rw blank (atoi-bound cs)
  | inr other ↦ rw other (signed-bound (c ∷ cs))
]

atoi_example : atoi (codes " 5320x") ≡ 5320
unfolding atoi
atoi_example = refl

atoi_negative : atoi (codes "-2") ≡ 2 ^ 32 - 2
unfolding atoi
atoi_negative = refl
