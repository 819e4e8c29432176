-- ===== src/HustdbHa/Cells.antt =====
-- What `__set_table_item` of hustdb_ha_table_def.c writes.
use hustngx.Prelude.{
  ℕ, zero, suc, ◌+◌, ◌-◌, ◌≡◌, ◌≤◌, ◌<◌, ◌⊎◌, inl, inr, refl, sym, ap, ◌∙◌, List, [], ◌∷◌, ltb,
  ◌==◌, arith, ==_iff, Bool-cases,
}
use hustngx.HustdbHa.Table.{
  ℤ, pos, negsuc, Pair, key_at, start, end, Cell, Result, done, refused, overrun, write, set_cells,
  set_range, set_table_item, to_size,
}

pub done-injective {ℓ} : {A : Type ℓ} (d x y : A) → done x ≡ done y → x ≡ y
done-injective d x y e = ap (λ r. elim r [ done z ↦ z | refused ↦ d | overrun ↦ d ]) e

module _ (table_size : ℕ) {P : Type 0} where
  set_cells-done :
      (n i : ℕ) (c : Cell P) (t t' : ℕ → Cell P)
      → set_cells table_size n i c t ≡ done t'
      → (j : ℕ) → (t' j ≡ t j) ⊎ ((i ≤ j) × (j < i + n) × (t' j ≡ c))
  unfolding set_cells write
  set_cells-done zero i c t t' e j = inl (ap (λ f. f j) (sym (done-injective t t t' e)))
  set_cells-done (suc n) i c t t' e j = elim (Bool-cases (ltb i table_size)) [
    | inr f ↦ absurd (cc (rw f at e))
    | inl f ↦ elim (set_cells-done n (i + 1) c (write t i c) t' (rw f at e) j) [
      | inr (l, u, g) ↦ inr (omega (arith, l), omega (arith, u), g)
      | inl g ↦ elim (Bool-cases (j == i)) [
        | inl h ↦
            inr (omega (arith, (==_iff j i).0 h), omega (arith, (==_iff j i).0 h), g ∙ rw h refl)
        | inr h ↦ inl (g ∙ rw h refl)
      ]
    ]
  ]

  -- A write of a range that ends well changes only cells of the range.
  set_range-done :
      (a b : ℤ) (c : Cell P) (t t' : ℕ → Cell P)
      → set_range table_size a b c t ≡ done t'
      → (j : ℕ)
      → (t' j ≡ t j)
        ⊎ ((x : ℕ) × (y : ℕ) × (a ≡ pos x) × (b ≡ pos y) × (x ≤ j) × (j < y) × (t' j ≡ c))
  unfolding set_range
  set_range-done (pos a) (pos b) c t t' e j = elim (set_cells-done (b - a) a c t t' e j) [
    | inl f ↦ inl f
    | inr (l, u, f) ↦ inr (a, b, refl, refl, l, omega (arith, l, u), f)
  ]
  set_range-done (pos a) (negsuc b) c t t' e j = inl (ap (λ f. f j) (sym (done-injective t t t' e)))
  set_range-done (negsuc a) (pos b) c t t' e j = absurd (cc)
  set_range-done (negsuc a) (negsuc b) c t t' e j = elim (Bool-cases (ltb b a)) [
    | inl f ↦ absurd (cc (rw f at e))
    | inr f ↦ inl (ap (λ g. g j) (sym (done-injective t t t' (rw f at e))))
  ]

  pub set_table_item-done :
      (p : Pair) (reads writes : List P) (index : ℕ) (t t' : ℕ → Cell P) (index' : ℕ)
      → set_table_item table_size p reads writes index t ≡ done (t', index')
      → (j : ℕ)
      → (t' j ≡ t j)
        ⊎ ((key_at p start ≡ pos (t' j).start)
            × (key_at p end ≡ pos (t' j).end)
            × ((t' j).start ≤ j)
            × (j < (t' j).end)
            × ((t' j).readlist ≡ reads)
            × ((t' j).writelist ≡ writes))
  unfolding set_table_item
  set_table_item-done p [] writes index t t' index' e j =
      inl
        (ap (λ k. k j) (sym (ap (λ r. r.0) (done-injective (t, index) (t, index) (t', index') e))))
  set_table_item-done p (x ∷ reads) [] index t t' index' e j =
      inl
        (ap (λ k. k j) (sym (ap (λ r. r.0) (done-injective (t, index) (t, index) (t', index') e))))
  set_table_item-done p (x ∷ reads) (y ∷ writes) index t t' index' e j =
      go (set_range table_size (key_at p start) (key_at p end) c t) refl
    where
      c : Cell P
      c = record {
        readlist = x ∷ reads;
        writelist = y ∷ writes;
        index = index;
        start = to_size (key_at p start);
        end = to_size (key_at p end);
      }

      go :
          (r : Result (ℕ → Cell P))
          → set_range table_size (key_at p start) (key_at p end) c t ≡ r
          → (t' j ≡ t j)
            ⊎ ((key_at p start ≡ pos (t' j).start)
                × (key_at p end ≡ pos (t' j).end)
                × ((t' j).start ≤ j)
                × (j < (t' j).end)
                × ((t' j).readlist ≡ x ∷ reads)
                × ((t' j).writelist ≡ y ∷ writes))
      go refused f = absurd (cc (rw (set_table_item, f) at e))
      go overrun f = absurd (cc (rw (set_table_item, f) at e))
      go (done t'') f =
          let g : t'' ≡ t' =
            ap (λ r. r.0)
              (done-injective (t, index) (t'', index + 1) (t', index')
                (rw (set_table_item, f) at e)) in
          elim (set_range-done (key_at p start) (key_at p end) c t t'' f j) [
            | inl h ↦ inl (ap (λ f. f j) (sym g) ∙ h)
            | inr (m, k, a, b, l, u, h) ↦
                let cell : t' j ≡ c = ap (λ f. f j) (sym g) ∙ h in
                let s : c.start ≡ m = ap to_size a ∙ (unfold to_size in refl) in
                let n : c.end ≡ k = ap to_size b ∙ (unfold to_size in refl) in
                inr (
                  rw (cell, s) a,
                  rw (cell, n) b,
                  rw (cell, s) l,
                  rw (cell, n) u,
                  rw cell refl,
                  rw cell refl,
                )
          ]
