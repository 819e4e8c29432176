-- ===== src/HustdbHa/Numbers.antt =====
-- The numbers of hustdb_ha_table_inner.h, and when the loop of `__set_table_item`
-- (hustdb_ha_table_def.c) leaves the table.
use hustngx.Prelude.{
  ℕ, zero, suc, ◌+◌, ◌≡◌, ◌<◌, inl, inr, refl, ap, true, ltb, arith, ==_iff, Bool-cases,
}
use hustngx.HustdbHa.Table.{ℤ, pos, negsuc, int_lt, int_eq, Cell, overrun, write, set_cells}

pub int_eq-true : (a b : ℤ) → int_eq a b ≡ true → a ≡ b
unfolding int_eq
int_eq-true (pos a) (pos b) e = ap pos ((==_iff a b).0 e)
int_eq-true (pos a) (negsuc b) e = absurd (cc)
int_eq-true (negsuc a) (pos b) e = absurd (cc)
int_eq-true (negsuc a) (negsuc b) e = ap negsuc ((==_iff a b).0 e)

pub pos-injective : (a b : ℕ) → pos a ≡ pos b → a ≡ b
pos-injective a b e = ap (λ z. elim z [ pos n ↦ n | negsuc n ↦ 0 ]) e

pub int_eq_refl : (a : ℤ) → int_eq a a ≡ true
unfolding int_eq
int_eq_refl (pos a) = (==_iff a a).1 refl
int_eq_refl (negsuc a) = (==_iff a a).1 refl

pub pos_lt : (a : ℕ) (z : ℤ) → int_lt (pos a) z ≡ true → (b : ℕ) × (z ≡ pos b) × (a < b)
unfolding int_lt
pos_lt a (pos b) e = (b, refl, ground arith)
pos_lt a (negsuc b) e = absurd (cc)

module _ {P : Type 0} (table_size : ℕ) where
  pub set_cells_past :
      (n i : ℕ) (c : Cell P) (t : ℕ → Cell P)
      → 0 < n
      → table_size < i + n
      → set_cells table_size n i c t ≡ overrun
  unfolding set_cells
  set_cells_past zero i c t p q = absurd (omega arith)
  set_cells_past (suc n) i c t p q = elim (Bool-cases (ltb i table_size)) [
    | inr f ↦ rw f refl
    | inl f ↦
        let more : 0 < n = ground arith in
        rw f (set_cells_past n (i + 1) c (write t i c) more (omega (arith, q)))
  ]

  pub set_cells_overrun :
      (n i : ℕ) (c : Cell P) (t : ℕ → Cell P)
      → set_cells table_size n i c t ≡ overrun
      → table_size < i + n
  unfolding set_cells
  set_cells_overrun zero i c t e = absurd (cc)
  set_cells_overrun (suc n) i c t e = elim (Bool-cases (ltb i table_size)) [
    | inr f ↦ ground arith
    | inl f ↦ omega (arith, set_cells_overrun n (i + 1) c (write t i c) (rw f at e))
  ]
