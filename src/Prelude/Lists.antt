-- ===== src/Prelude/Lists.antt =====
-- Lists measured by native numbers, lists of addresses, and predicates on lists.
use Prim.Native.Nat.{ℕ, zero, suc, ◌+◌, ◌≤◌}
use mathlib.Core.Path.{◌≡◌, refl, ap}
use mathlib.Core.Bool.{Bool, true, false, ◌||◌}
use mathlib.Core.List.{List, [], ◌∷◌, ◌++◌}
use mathlib.Core.Option.{Option, none, some}
use native.Mathlib.Omega.{arith}
use hustngx.Prelude.Tests.{◌==◌, if◌then◌else◌}

module _ {ℓ} {A : Type ℓ} where
  abbrev pub length : List A → ℕ
  length [] = 0
  length (x ∷ xs) = suc (length xs)

  abbrev pub get_elem? : List A → ℕ → Option A
  get_elem? [] i = none
  get_elem? (x ∷ xs) zero = some x
  get_elem? (x ∷ xs) (suc i) = get_elem? xs i

  abbrev pub take : ℕ → List A → List A
  take zero xs = []
  take (suc n) [] = []
  take (suc n) (x ∷ xs) = x ∷ take n xs

  abbrev pub drop : ℕ → List A → List A
  drop zero xs = xs
  drop (suc n) [] = []
  drop (suc n) (x ∷ xs) = drop n xs

  abbrev pub get_last? : List A → Option A
  get_last? [] = none
  get_last? (x ∷ []) = some x
  get_last? (x ∷ y ∷ xs) = get_last? (y ∷ xs)

  pub length-append : (xs ys : List A) → length (xs ++ ys) ≡ length xs + length ys
  length-append [] ys = omega arith
  length-append (x ∷ xs) ys = omega (arith, length-append xs ys)

  pub take-length : (n : ℕ) (xs : List A) → length xs ≤ n → take n xs ≡ xs
  take-length zero [] h = refl
  take-length zero (x ∷ xs) h = absurd (omega arith)
  take-length (suc n) [] h = refl
  take-length (suc n) (x ∷ xs) h = ap (◌∷◌ x) (take-length n xs (omega arith))

-- Addresses.
abbrev pub mem : ℕ → List ℕ → Bool
mem a [] = false
mem a (x ∷ xs) = a == x || mem a xs

-- The list without the first occurrence of an address.
abbrev pub erase : ℕ → List ℕ → List ℕ
erase a [] = []
erase a (x ∷ xs) = if a == x then xs else x ∷ erase a xs

abbrev pub IsDistinct : List ℕ → Type 0
IsDistinct [] = Unit
IsDistinct (x ∷ xs) = (mem x xs ≡ false) × IsDistinct xs

pub mem-append : (a : ℕ) (xs ys : List ℕ) → mem a (xs ++ ys) ≡ (mem a xs || mem a ys)
mem-append a [] ys = refl
mem-append a (x ∷ xs) ys = ground (arith, mem-append a xs ys)

pub mem-erase_ne : (a b : ℕ) (xs : List ℕ) → (b == a) ≡ false → mem b (erase a xs) ≡ mem b xs
mem-erase_ne a b [] h = refl
mem-erase_ne a b (x ∷ xs) h = ground (arith, mem-erase_ne a b xs)

pub mem-erase_self : (a : ℕ) (xs : List ℕ) → IsDistinct xs → mem a (erase a xs) ≡ false
mem-erase_self a [] d = refl
mem-erase_self a (x ∷ xs) d = ground (arith, mem-erase_self a xs)

pub mem-erase :
    (a b : ℕ) (xs : List ℕ)
    → IsDistinct xs
    → mem b (erase a xs) ≡ (if b == a then false else mem b xs)
mem-erase a b xs d = ground (arith, mem-erase_ne a b xs, mem-erase_self a xs d)

pub erase-IsDistinct : (a : ℕ) (xs : List ℕ) → IsDistinct xs → IsDistinct (erase a xs)
erase-IsDistinct a [] d = tt
erase-IsDistinct a (x ∷ xs) d = ground (arith, erase-IsDistinct a xs, mem-erase_ne a x xs)

pub mem-get_last? : (xs : List ℕ) {a : ℕ} → get_last? xs ≡ some a → mem a xs ≡ true
mem-get_last? [] h = cc
mem-get_last? (x ∷ []) h = ground arith
mem-get_last? (x ∷ y ∷ xs) {a} h = ground (arith, mem-get_last? (y ∷ xs) {a = a} h)

pub get_last?-eq-none : {xs : List ℕ} → get_last? xs ≡ none → xs ≡ []
get_last?-eq-none {xs = []} h = refl
get_last?-eq-none {xs = x ∷ []} h = cc
get_last?-eq-none {xs = x ∷ y ∷ xs} h = absurd (cc (get_last?-eq-none {xs = y ∷ xs} h))

pub mem-append_right : (a : ℕ) (xs ys : List ℕ) → mem a ys ≡ true → mem a (xs ++ ys) ≡ true
mem-append_right a xs ys h = ground (arith, mem-append a xs ys)

pub mem-append_left : (a : ℕ) (xs ys : List ℕ) → mem a xs ≡ true → mem a (xs ++ ys) ≡ true
mem-append_left a xs ys h = ground (arith, mem-append a xs ys)

pub length-erase : (a : ℕ) (xs : List ℕ) → mem a xs ≡ true → length (erase a xs) + 1 ≡ length xs
length-erase a [] h = cc
length-erase a (x ∷ xs) h = ground (arith, length-erase a xs)
