-- ===== src/Common/Lists.antt =====
-- Lists measured, indexed and searched by native numbers, under the library's names.
use Prim.Native.Nat.{ℕ, zero, suc, ◌+◌, ◌<◌}
use mathlib.Core.Path.{◌≡◌, refl, ap}
use mathlib.Core.Logic.{◌≢◌}
use mathlib.Core.Bool.{Bool, true, false, ◌||◌}
use mathlib.Core.List.{List, [], ◌∷◌, ◌++◌}
use native.Mathlib.Omega.{arith}
use myreflection.Common.Tests.{◌==◌, if◌then◌else◌}

module _ {ℓ} {A : Type ℓ} where
  abbrev pub length : List A → ℕ
  length [] = 0
  length (x ∷ xs) = suc (length xs)

  abbrev pub get_or : List A → ℕ → A → A
  get_or [] i d = d
  get_or (x ∷ xs) zero d = x
  get_or (x ∷ xs) (suc i) d = get_or xs i d

  abbrev pub is_nil : List A → Bool
  is_nil [] = true
  is_nil (x ∷ xs) = false

  -- A write out of bounds changes nothing.
  abbrev pub set : List A → ℕ → A → List A
  set [] i v = []
  set (x ∷ xs) zero v = v ∷ xs
  set (x ∷ xs) (suc i) v = x ∷ set xs i v

  abbrev pub replicate : ℕ → A → List A
  replicate zero a = []
  replicate (suc n) a = a ∷ replicate n a

  pub append-nil : (xs : List A) → xs ++ [] ≡ xs
  append-nil [] = refl
  append-nil (x ∷ xs) = ap (λ ys. x ∷ ys) (append-nil xs)

  pub length-append : (xs ys : List A) → length (xs ++ ys) ≡ length xs + length ys
  length-append [] ys = omega arith
  length-append (x ∷ xs) ys = omega (arith, length-append xs ys)

module _ {ℓ} {A : Type ℓ} where
  pub length-set : (xs : List A) (i : ℕ) (v : A) → length (set xs i v) ≡ length xs
  length-set [] i v = refl
  length-set (x ∷ xs) zero v = refl
  length-set (x ∷ xs) (suc i) v = ap suc (length-set xs i v)

  pub get_or-set_self :
      (xs : List A) (i : ℕ) (v d : A) → i < length xs → get_or (set xs i v) i d ≡ v
  get_or-set_self [] i v d h = elim h [ ]
  get_or-set_self (x ∷ xs) zero v d h = refl
  get_or-set_self (x ∷ xs) (suc i) v d h = get_or-set_self xs i v d (omega arith)

  pub get_or-set_ne :
      (xs : List A) (i j : ℕ) (v d : A) → i ≢ j → get_or (set xs i v) j d ≡ get_or xs j d
  get_or-set_ne [] i j v d h = refl
  get_or-set_ne (x ∷ xs) zero zero v d h = absurd (h refl)
  get_or-set_ne (x ∷ xs) zero (suc j) v d h = refl
  get_or-set_ne (x ∷ xs) (suc i) zero v d h = refl
  get_or-set_ne (x ∷ xs) (suc i) (suc j) v d h = get_or-set_ne xs i j v d (λ e. h (ap suc e))

  pub length-replicate : (n : ℕ) (a : A) → length (replicate n a) ≡ n
  length-replicate zero a = refl
  length-replicate (suc n) a = ap suc (length-replicate n a)

-- Is the number among the list's?
unfoldable pub has : ℕ → List ℕ → Bool
has a [] = false
has a (x ∷ xs) = (x == a) || has a xs

-- The list without its first occurrence of the number.
unfoldable pub remove : ℕ → List ℕ → List ℕ
remove a [] = []
remove a (x ∷ xs) = if x == a then xs else x ∷ remove a xs

pub has-append : (a : ℕ) (xs ys : List ℕ) → has a (xs ++ ys) ≡ (has a xs || has a ys)
unfolding has
has-append a [] ys = refl
has-append a (x ∷ xs) ys = ground (arith, has-append a xs ys)

-- No number stands twice.
abbrev pub Distinct : List ℕ → Type 0
Distinct [] = Unit
Distinct (x ∷ xs) = (has x xs ≡ false) × Distinct xs

pub has-remove_ne : (a b : ℕ) (xs : List ℕ) → a ≢ b → has a (remove b xs) ≡ has a xs
unfolding has remove
has-remove_ne a b [] h = refl
has-remove_ne a b (x ∷ xs) h = ground (arith, has-remove_ne a b xs h)

pub has-remove_self : (a : ℕ) (xs : List ℕ) → Distinct xs → has a (remove a xs) ≡ false
unfolding has remove
has-remove_self a [] d = refl
has-remove_self a (x ∷ xs) d = ground (arith, has-remove_self a xs d.1)

pub has-remove_of_not : (a b : ℕ) (xs : List ℕ) → has a xs ≡ false → has a (remove b xs) ≡ false
unfolding has remove
has-remove_of_not a b [] h = refl
has-remove_of_not a b (x ∷ xs) h = ground (arith, has-remove_of_not a b xs)

pub Distinct-remove : (a : ℕ) (xs : List ℕ) → Distinct xs → Distinct (remove a xs)
unfolding has remove
Distinct-remove a [] d = tt
Distinct-remove a (x ∷ xs) d =
    ground (arith, Distinct-remove a xs d.1, has-remove_of_not x a xs d.0)

pub Distinct-append_one :
    (a : ℕ) (xs : List ℕ) → Distinct xs → has a xs ≡ false → Distinct (xs ++ a ∷ [])
unfolding has
Distinct-append_one a [] d h = (refl, tt)
Distinct-append_one a (x ∷ xs) d h =
    ground (arith, Distinct-append_one a xs d.1, has-append x xs (a ∷ []))

-- A function changed at one number.
abbrev pub update {ℓ} : {A : Type ℓ} → (ℕ → A) → ℕ → A → ℕ → A
update f k v j = if j == k then v else f j

-- A list without one of its numbers.
pub Distinct-middle :
    (a : ℕ) (xs ys : List ℕ)
    → Distinct (xs ++ a ∷ ys)
    → Distinct (xs ++ ys) × (has a (xs ++ ys) ≡ false)
unfolding has
Distinct-middle a [] ys d = (d.1, d.0)
Distinct-middle a (x ∷ xs) ys d =
    ground (arith, Distinct-middle a xs ys d.1, has-append x xs ys, has-append x xs (a ∷ ys), d.0)

pub Distinct-apart :
    (a : ℕ) (xs ys : List ℕ) → Distinct (xs ++ ys) → has a xs ≡ true → has a ys ≡ false
unfolding has
Distinct-apart a [] ys d m = cc
Distinct-apart a (x ∷ xs) ys d m =
    ground (arith, Distinct-apart a xs ys d.1, has-append x xs ys, d.0, m)

pub Distinct-prefix : (xs ys : List ℕ) → Distinct (xs ++ ys) → Distinct xs
unfolding has
Distinct-prefix [] ys d = tt
Distinct-prefix (x ∷ xs) ys d = ground (arith, Distinct-prefix xs ys d.1, has-append x xs ys, d.0)

pub Distinct-insert :
    (a : ℕ) (xs ys : List ℕ)
    → Distinct (xs ++ ys)
    → has a (xs ++ ys) ≡ false
    → Distinct (xs ++ a ∷ ys)
unfolding has
Distinct-insert a [] ys d out = (out, d)
Distinct-insert a (x ∷ xs) ys d out =
    ground
      (arith, Distinct-insert a xs ys d.1, has-append x xs ys, has-append x xs (a ∷ ys), d.0, out)
