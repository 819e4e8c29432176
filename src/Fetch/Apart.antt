-- ===== src/Fetch/Apart.antt =====
-- Two lists without a common element, as the two queues of a cache are.
use hustngx.Prelude.{
  ℕ, ◌≡◌, refl, sym, ◌∙◌, true, false, List, [], ◌∷◌, ◌==◌, ==_iff, mem, erase, IsDistinct,
  mem-erase_self, mem-erase_ne, erase-IsDistinct, arith, inl, inr, Bool-cases,
}
use mathlib.Core.List.{Perm}
use mathlib.Core.List.Perm

pub record Apart (xs ys : List ℕ) : Type 0 where
  pub left : IsDistinct xs
  pub right : IsDistinct ys
  pub common : (y : ℕ) → mem y xs ≡ true → mem y ys ≡ false

pub Apart-flip : (xs ys : List ℕ) → Apart xs ys → Apart ys xs
Apart-flip xs ys h = record {
  left = h.right;
  right = h.left;
  common =
      λ y e. elim (Bool-cases (mem y xs)) [ inl f ↦ absurd (cc (e, h.common y f)) | inr f ↦ f ];
}

-- An element moves to the front of the other list.
pub Apart-move :
    (x : ℕ) (xs ys : List ℕ) → Apart xs ys → mem x xs ≡ true → Apart (erase x xs) (x ∷ ys)
Apart-move x xs ys h e = record {
  left = erase-IsDistinct x xs h.left;
  right = (h.common x e, h.right);
  common = λ y f. elim (Bool-cases (y == x)) [
    | inl g ↦ absurd (cc (rw ((==_iff y x).0 g) at f, mem-erase_self x xs h.left))
    | inr g ↦ rw (g, h.common y (sym (mem-erase_ne x y xs g) ∙ f)) refl
  ];
}

-- An element moves to the front of its list.
pub Apart-front :
    (x : ℕ) (xs ys : List ℕ) → Apart xs ys → mem x xs ≡ true → Apart (x ∷ erase x xs) ys
Apart-front x xs ys h e = record {
  left = (mem-erase_self x xs h.left, erase-IsDistinct x xs h.left);
  right = h.right;
  common = λ y f. elim (Bool-cases (y == x)) [
    | inl g ↦ rw ((==_iff y x).0 g) (h.common x e)
    | inr g ↦ h.common y (sym (mem-erase_ne x y xs g) ∙ (rw g at f))
  ];
}

-- An item that is in a queue goes to its front.
pub erase-Perm : (x : ℕ) (xs : List ℕ) → mem x xs ≡ true → Perm (x ∷ erase x xs) xs
erase-Perm x [] e = absurd (cc)
erase-Perm x (y ∷ xs) e = elim (Bool-cases (x == y)) [
  | inl f ↦ rw (f, (==_iff x y).0 f) Perm.rfl
  | inr f ↦
      rw f (Perm.trans (Perm.swap y x (erase x xs)) (Perm.cons y (erase-Perm x xs (ground arith))))
]
