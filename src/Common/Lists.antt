-- ===== src/Common/Lists.antt =====
-- Arrays and sequences as lists with native indices, and predicates on them.
use Prim.Native.Nat.{ℕ, zero, suc, ◌+◌, ◌-◌, ◌<◌, ◌≤◌, min}
use mathlib.Core.Path.{◌≡◌, refl, ap}
use mathlib.Core.List.{List, [], ◌∷◌, ◌++◌}
use native.Mathlib.Omega.{arith}

module _ {ℓ} {A : Type ℓ} where
  abbrev pub length : List A → ℕ
  length [] = 0
  length (x ∷ xs) = suc (length xs)

  abbrev pub get_or : List A → ℕ → A → A
  get_or [] i d = d
  get_or (x ∷ xs) zero d = x
  get_or (x ∷ xs) (suc i) d = get_or xs i d

  abbrev pub set : List A → ℕ → A → List A
  set [] i v = []
  set (x ∷ xs) zero v = v ∷ xs
  set (x ∷ xs) (suc i) v = x ∷ set xs i v

  abbrev pub take : ℕ → List A → List A
  take zero xs = []
  take (suc n) [] = []
  take (suc n) (x ∷ xs) = x ∷ take n xs

  abbrev pub drop : ℕ → List A → List A
  drop zero xs = xs
  drop (suc n) [] = []
  drop (suc n) (x ∷ xs) = drop n xs

  abbrev pub replicate : ℕ → A → List A
  replicate zero a = []
  replicate (suc n) a = a ∷ replicate n a

  pub length-append : (xs ys : List A) → length (xs ++ ys) ≡ length xs + length ys
  length-append [] ys = omega arith
  length-append (x ∷ xs) ys = omega (arith, length-append xs ys)

  pub length-take : (n : ℕ) (xs : List A) → length (take n xs) ≡ min n (length xs)
  length-take zero xs = omega arith
  length-take (suc n) [] = omega arith
  length-take (suc n) (x ∷ xs) = omega (arith, length-take n xs)

  pub length-drop : (n : ℕ) (xs : List A) → length (drop n xs) ≡ length xs - n
  length-drop zero xs = omega arith
  length-drop (suc n) [] = omega arith
  length-drop (suc n) (x ∷ xs) = omega (arith, length-drop n xs)

  pub length-set : (xs : List A) (i : ℕ) (v : A) → length (set xs i v) ≡ length xs
  length-set [] i v = refl
  length-set (x ∷ xs) zero v = refl
  length-set (x ∷ xs) (suc i) v = ap suc (length-set xs i v)

  -- A write of the value that a place has already leaves it there, wherever the write goes.
  pub get_or-set_same :
      (xs : List A) (i j : ℕ) (v d : A) → get_or xs j d ≡ v → get_or (set xs i v) j d ≡ v
  get_or-set_same [] i j v d h = h
  get_or-set_same (x ∷ xs) zero zero v d h = refl
  get_or-set_same (x ∷ xs) zero (suc j) v d h = h
  get_or-set_same (x ∷ xs) (suc i) zero v d h = h
  get_or-set_same (x ∷ xs) (suc i) (suc j) v d h = get_or-set_same xs i j v d h

  -- A write just behind a list of `n` elements.
  pub set-append :
      (xs ys : List A) (n : ℕ) (y v : A) → length xs ≡ n → set (xs ++ y ∷ ys) n v ≡ xs ++ v ∷ ys
  set-append [] ys zero y v h = refl
  set-append [] ys (suc n) y v h = absurd (omega arith)
  set-append (x ∷ xs) ys zero y v h = absurd (omega arith)
  set-append (x ∷ xs) ys (suc n) y v h = ap (λ t. x ∷ t) (set-append xs ys n y v (omega arith))

  -- What is left of a list that is long enough has a first element.
  pub drop-eq_cons :
      (n : ℕ) (xs : List A) → n < length xs → (y : A) × (ys : List A) × (drop n xs ≡ y ∷ ys)
  drop-eq_cons n [] h = absurd (omega arith)
  drop-eq_cons zero (x ∷ xs) h = (x, xs, refl)
  drop-eq_cons (suc n) (x ∷ xs) h = drop-eq_cons n xs (omega arith)

  pub length-replicate : (n : ℕ) (a : A) → length (replicate n a) ≡ n
  length-replicate zero a = refl
  length-replicate (suc n) a = ap suc (length-replicate n a)

  -- A slice of at least the whole list is the list.
  pub take-all : (n : ℕ) (xs : List A) → length xs ≤ n → take n xs ≡ xs
  take-all zero [] h = refl
  take-all zero (x ∷ xs) h = absurd (omega arith)
  take-all (suc n) [] h = refl
  take-all (suc n) (x ∷ xs) h = ap (λ t. x ∷ t) (take-all n xs (omega arith))

  pub take-append_le : (n : ℕ) (xs ys : List A) → n ≤ length xs → take n (xs ++ ys) ≡ take n xs
  take-append_le zero xs ys h = refl
  take-append_le (suc n) [] ys h = absurd (omega arith)
  take-append_le (suc n) (x ∷ xs) ys h = ap (λ t. x ∷ t) (take-append_le n xs ys (omega arith))

  pub take-append : (n : ℕ) (xs ys : List A) → length xs ≡ n → take n (xs ++ ys) ≡ xs
  take-append zero [] ys h = refl
  take-append zero (x ∷ xs) ys h = absurd (omega (arith, h))
  take-append (suc n) [] ys h = absurd (omega (arith, h))
  take-append (suc n) (x ∷ xs) ys h = ap (λ rest. x ∷ rest) (take-append n xs ys (omega (arith, h)))

  pub drop-append : (n : ℕ) (xs ys : List A) → length xs ≡ n → drop n (xs ++ ys) ≡ ys
  drop-append zero [] ys h = refl
  drop-append zero (x ∷ xs) ys h = absurd (omega (arith, h))
  drop-append (suc n) [] ys h = absurd (omega (arith, h))
  drop-append (suc n) (x ∷ xs) ys h = drop-append n xs ys (omega (arith, h))

  pub take-take : (n m : ℕ) (xs : List A) → n ≤ m → take n (take m xs) ≡ take n xs
  take-take zero m xs h = refl
  take-take (suc n) zero xs h = absurd (omega arith)
  take-take (suc n) (suc m) [] h = refl
  take-take (suc n) (suc m) (x ∷ xs) h = ap (λ t. x ∷ t) (take-take n m xs (omega arith))

  pub take-set : (n i : ℕ) (xs : List A) (v : A) → n ≤ i → take n (set xs i v) ≡ take n xs
  take-set zero i xs v h = refl
  take-set (suc n) i [] v h = refl
  take-set (suc n) zero (x ∷ xs) v h = absurd (omega arith)
  take-set (suc n) (suc i) (x ∷ xs) v h = ap (λ t. x ∷ t) (take-set n i xs v (omega arith))

  pub get_or-set : (i : ℕ) (xs : List A) (v d : A) → i < length xs → get_or (set xs i v) i d ≡ v
  get_or-set i [] v d h = absurd (omega arith)
  get_or-set zero (x ∷ xs) v d h = refl
  get_or-set (suc i) (x ∷ xs) v d h = get_or-set i xs v d (omega arith)

-- The element in front of what is left of a list.
module _ {ℓ} {A : Type ℓ} where
  pub get_or-drop :
      (xs : List A) (i : ℕ) (d e : A) (es : List A) → drop i xs ≡ e ∷ es → get_or xs i d ≡ e
  get_or-drop [] zero d e es h = cc
  get_or-drop [] (suc i) d e es h = cc
  get_or-drop (x ∷ xs) zero d e es h = cc
  get_or-drop (x ∷ xs) (suc i) d e es h = get_or-drop xs i d e es h

  pub drop-suc :
      (xs : List A) (i : ℕ) (e : A) (es : List A) → drop i xs ≡ e ∷ es → drop (suc i) xs ≡ es
  drop-suc [] zero e es h = cc
  drop-suc [] (suc i) e es h = cc
  drop-suc (x ∷ xs) zero e es h = cc
  drop-suc (x ∷ xs) (suc i) e es h = drop-suc xs i e es h

-- Every element has the property.
abbrev pub All {ℓ κ} : {A : Type ℓ} → (A → Type κ) → List A → Type κ
All P [] = Unit
All P (x ∷ xs) = P x × All P xs

-- The second list is the first with elements left out: the order is kept.
pub data IsSubsequence {ℓ} {A : Type ℓ} : List A → List A → Type ℓ where
  nil : IsSubsequence [] []
  keep : {xs ys : List A} (x : A) → IsSubsequence xs ys → IsSubsequence (x ∷ xs) (x ∷ ys)
  skip : {xs ys : List A} (x : A) → IsSubsequence xs ys → IsSubsequence (x ∷ xs) ys

module _ {ℓ} {A : Type ℓ} where
  pub IsSubsequence-refl : (xs : List A) → IsSubsequence xs xs
  IsSubsequence-refl [] = nil
  IsSubsequence-refl (x ∷ xs) = keep x (IsSubsequence-refl xs)

  -- A last element of both lists, and one that only the first has.
  pub IsSubsequence-keep_last :
      {xs ys : List A} (z : A) → IsSubsequence xs ys → IsSubsequence (xs ++ z ∷ []) (ys ++ z ∷ [])
  IsSubsequence-keep_last z nil = keep z nil
  IsSubsequence-keep_last z (keep x s) = keep x (IsSubsequence-keep_last z s)
  IsSubsequence-keep_last z (skip x s) = skip x (IsSubsequence-keep_last z s)

  pub IsSubsequence-skip_last :
      {xs ys : List A} (z : A) → IsSubsequence xs ys → IsSubsequence (xs ++ z ∷ []) ys
  IsSubsequence-skip_last z nil = skip z nil
  IsSubsequence-skip_last z (keep x s) = keep x (IsSubsequence-skip_last z s)
  IsSubsequence-skip_last z (skip x s) = skip x (IsSubsequence-skip_last z s)
