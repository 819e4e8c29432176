-- ===== src/HustdbHa/Fits.antt =====
-- The writes of hustdb_ha_table_def.c for tables whose items end in the table.
use hustngx.Prelude.{
  ℕ, ◌≡◌, ◌≢◌, inl, inr, refl, sym, ap, ◌∙◌, Bool, true, false, not, ◌&&◌, ◌||◌, Option, none, some,
  some-injective, subst, List, [], ◌∷◌, ◌==◌, if◌then◌else◌, length, arith, Bool-cases,
  Option-cases,
}
use hustngx.CDict.Table.{Table}
use hustngx.HustdbHa.Table.{
  pos, int_lt, int_eq, Pair, key_at, start, end, Incr, Elem, Cell, Result, done, refused, overrun,
}
use hustngx.HustdbHa.Check.{
  enable_increase, check_incr_key, check_incr_item, check_table_item_base, check_first_table_item,
  check_table_item, review_table, precheck_table,
}
use hustngx.HustdbHa.Build.{
  State, append_table_item, build_table_item, build_items, build_table, build_hash_table,
  include_increase, include_decrease, Bucket, build_bucket_table,
}
use hustngx.HustdbHa.Shares.{both}
use hustngx.HustdbHa.Numbers.{int_eq-true, pos_lt, pos-injective}
use hustngx.HustdbHa.Writes.{Fits, append_list-Fits, append_decr_item-Fits, increase-Fits}

split_conditions :
    (i : Incr) (item : Pair)
    → check_incr_item i item ≡ true
    → (int_eq (key_at i.low start) (key_at item start) ≡ true)
      × (int_eq (key_at i.high end) (key_at item end) ≡ true)
      × (int_eq (key_at i.low end) (key_at i.high start) ≡ true)
      × (int_lt (key_at i.low start) (key_at i.low end) ≡ true)
      × (int_lt (key_at i.high start) (key_at i.high end) ≡ true)
unfolding check_incr_item check_incr_key
split_conditions i item c = (ground arith, ground arith, ground arith, ground arith, ground arith)

module _ (table_size : ℕ) where
  split-Fits :
      (e : Elem)
      → check_incr_item e.increase e.item ≡ true
      → Fits table_size (key_at e.item start)
      → Fits table_size (key_at e.item end)
      → Fits table_size (key_at e.increase.low start)
        × Fits table_size (key_at e.increase.low end)
        × Fits table_size (key_at e.increase.high start)
        × Fits table_size (key_at e.increase.high end)
  split-Fits e c (a, f, p) (b, g, q) =
      let (from, to, meet, less, more) = split_conditions e.increase e.item c in
      let from' = int_eq-true _ _ from ∙ f in
      let to' = int_eq-true _ _ to ∙ g in
      let (m, mid, _) =
        pos_lt a (key_at e.increase.low end)
          (ap (λ z. int_lt z (key_at e.increase.low end)) (sym from') ∙ less) in
      let mid' = sym (int_eq-true _ _ meet) ∙ mid in
      let (b', end', u) =
        pos_lt m (key_at e.increase.high end)
          (ap (λ z. int_lt z (key_at e.increase.high end)) (sym mid') ∙ more) in
      let same_end : b' ≡ b = pos-injective b' b (sym end' ∙ to') in
      (
        (a, from', p),
        (m, mid, omega (arith, u, same_end, q)),
        (m, mid', omega (arith, u, same_end, q)),
        (b, to', q),
      )

module _ {P : Type 0} (table_size : ℕ) where
  module _ (dict : Table P) where
    -- An element that has been checked, and whose item fits.
    build_table_item-Fits :
        (d : Bool) (x : Elem) (s : State P)
        → check_table_item_base d x ≡ true
        → Fits table_size (key_at x.item start)
        → Fits table_size (key_at x.item end)
        → build_table_item dict table_size d x s ≢ overrun
    unfolding build_table_item append_table_item check_table_item_base
    build_table_item-Fits true x s c u v e = elim (Bool-cases x.has_decrease) [
      | inl f ↦ append_decr_item-Fits table_size dict x.decrease x.item s u v (rw f at e)
      | inr f ↦ append_list-Fits table_size dict x.item (both x.item) s u v (rw f at e)
    ]
    build_table_item-Fits false x s c u v e = elim (Bool-cases (enable_increase x)) [
      | inr f ↦ append_list-Fits table_size dict x.item (both x.item) s u v (rw f at e)
      | inl f ↦
          let incr : check_incr_item x.increase x.item ≡ true =
            rw (check_table_item_base, f) at c in
          let (w, y, y', z) = split-Fits table_size x incr u v in
          increase-Fits table_size dict x.increase.low x.increase.high s w y y' z
            (unfold append_table_item in rw f at e)
    ]

    -- Every item ends in the table or at its end.
    abbrev pub EndsFit : List Elem → Type 0
    EndsFit [] = Unit
    EndsFit (x ∷ items) = Fits table_size (key_at x.item end) × EndsFit items

    -- An item that has been checked starts in the table, and passed the checks of its changes.
    checked_item :
        (d last : Bool) (prev : Option Elem) (x : Elem)
        → ((p : Elem) → prev ≡ some p → Fits table_size (key_at p.item end))
        → check_table_item table_size d last prev x ≡ true
        → Fits table_size (key_at x.item start) × (check_table_item_base d x ≡ true)
    unfolding check_table_item check_first_table_item
    checked_item d last prev x fits e =
        elim (Bool-cases (not (length x.item.key == 2) || not (length x.item.val == 2))) [
          | inl f ↦ absurd (cc (rw (check_table_item, f) at e))
          | inr f ↦ place prev f e fits
        ]
      where
        first :
            check_first_table_item table_size d x ≡ true
            → Fits table_size (key_at x.item start) × (check_table_item_base d x ≡ true)
        first e = elim (Bool-cases (int_eq (pos 0) (key_at x.item start))) [
          | inr f ↦ absurd (cc (rw (check_first_table_item, f) at e))
          | inl f ↦
              elim (Bool-cases (
                int_lt (key_at x.item end) (pos 1)
                || int_lt (pos table_size) (key_at x.item end))) [
                  | inl g ↦ absurd (cc (rw (check_first_table_item, f, g) at e))
                  | inr g ↦ (
                    (0, sym (int_eq-true _ _ f), omega arith),
                    rw (check_first_table_item, f, g) at e,
                  )
                ]
        ]

        place :
            (prev : Option Elem)
            → (not (length x.item.key == 2) || not (length x.item.val == 2)) ≡ false
            → check_table_item table_size d last prev x ≡ true
            → ((p : Elem) → prev ≡ some p → Fits table_size (key_at p.item end))
            → Fits table_size (key_at x.item start) × (check_table_item_base d x ≡ true)
        place none f e fits = first (rw (check_table_item, f) at e)
        place (some p) f e fits =
            elim (Bool-cases (last && not (int_eq (pos table_size) (key_at x.item end)))) [
              | inl g ↦ absurd (cc (rw (check_table_item, f, g) at e))
              | inr g ↦ elim (Bool-cases (int_eq (key_at p.item end) (key_at x.item start))) [
                | inr h ↦ absurd (cc (rw (check_table_item, f, g, h) at e))
                | inl h ↦ (
                  subst (Fits table_size) (int_eq-true _ _ h) (fits p refl),
                  rw (check_table_item, f, g, h) at e,
                )
              ]
            ]

    build_items-Fits :
        (d : Bool) (prev : Option Elem) (items : List Elem) (s : State P)
        → ((p : Elem) → prev ≡ some p → Fits table_size (key_at p.item end))
        → EndsFit items
        → build_items dict table_size d prev items s ≢ overrun
    unfolding build_items
    build_items-Fits d prev [] s fits u e = absurd (cc)
    build_items-Fits d prev (x ∷ rest) s fits (v, u) e =
        elim (Bool-cases (check_table_item table_size d (length rest == 0) prev x)) [
          | inr f ↦ absurd (cc (rw (build_items, f) at e))
          | inl f ↦
              go f
                (λ y.
                  build_items-Fits d (some x) rest y
                    (λ p g.
                      subst (λ z. Fits table_size (key_at z.item end)) (some-injective _ _ g) v)
                    u)
                (build_table_item dict table_size d x s) refl
        ]
      where
        go :
            check_table_item table_size d (length rest == 0) prev x ≡ true
            → ((y : State P) → build_items dict table_size d (some x) rest y ≢ overrun)
            → (r : Result (State P)) → build_table_item dict table_size d x s ≡ r
            → ⊥
        go f later refused g = absurd (cc (rw (build_items, f, g) at e))
        go f later (done y) g = later y (rw (build_items, f, g) at e)
        go f later overrun g =
            let (w, base) = checked_item d (length rest == 0) prev x fits f in
            build_table_item-Fits d x s base w v g

    finish_fits :
        (c : Option Bool) (index : ℕ) (t : ℕ → Cell P)
        → ◌≡◌ {A = Result ((ℕ → Cell P) × List (Bucket P))}
            (elim c [
              | none ↦ refused
              | some false ↦ refused
              | some true ↦
                  if review_table table_size t
                  then elim (build_bucket_table table_size index t) [
                    | none ↦ refused
                    | some bs ↦ done (t, bs)
                  ]
                  else refused
            ])
            overrun
        → ⊥
    finish_fits none index t e = absurd (cc)
    finish_fits (some false) index t e = absurd (cc)
    finish_fits (some true) index t e = elim (Bool-cases (review_table table_size t)) [
      | inr f ↦ absurd (cc (rw f at e))
      | inl f ↦ elim (Option-cases (build_bucket_table table_size index t)) [
        | inl g ↦ absurd (cc (rw (f, g) at e))
        | inr (bs, g) ↦ absurd (cc (rw (f, g) at e))
      ]
    ]

    -- If every item of the declared table has an end from 0 to the size of the table, building
    -- never writes outside of it, whatever the other fields, the pool and the dictionary are.
    pub build_hash_table-Fits :
        (malloc realloc : Bool) (fuel room : ℕ) (items : List Elem) (table : ℕ → Cell P)
        → EndsFit items
        → build_hash_table dict table_size malloc realloc fuel room items table ≢ overrun
    unfolding build_hash_table build_table
    build_hash_table-Fits malloc realloc fuel room items table u e =
        elim (Bool-cases (precheck_table items)) [
          | inr f ↦ absurd (cc (rw (build_hash_table, f) at e))
          | inl f ↦ elim (Bool-cases (include_increase items && include_decrease items)) [
            | inl g ↦ absurd (cc (rw (build_hash_table, f, g) at e))
            | inr g ↦
                go (rw (build_hash_table, f, g) at e)
                  (build_items dict table_size (include_decrease items) none items s) refl
          ]
        ]
      where
        s : State P
        s = record { table = table; index = 0; room = room }

        go :
            build_table dict table_size malloc realloc fuel (include_decrease items) items s
              ≡ overrun
            → (r : Result (State P))
            → build_items dict table_size (include_decrease items) none items s ≡ r
            → ⊥
        go e overrun g =
            build_items-Fits (include_decrease items) none items s (λ p f. absurd (cc)) u g
        go e refused g = absurd (cc (rw (build_table, g) at e))
        go e (done s') g = finish_fits _ s'.index s'.table (rw (build_table, g) at e)
