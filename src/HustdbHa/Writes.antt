-- ===== src/HustdbHa/Writes.antt =====
-- Ranges that hustdb_ha_table_def.c stores inside of the table.
use hustngx.Prelude.{
  ℕ, ◌+◌, ◌-◌, ◌≡◌, ◌≢◌, ◌≤◌, ◌<◌, inl, inr, refl, List, [], ◌∷◌, arith, Option-cases,
}
use hustngx.Nginx.{Bytes}
use hustngx.CDict.Table.{Table}
use hustngx.HustdbHa.Table.{
  ℤ, pos, Pair, key_at, val_at, start, end, master1, master2, Decr, Cell, Result, done, refused,
  overrun, set_range, set_table_item, to_size,
}
use hustngx.HustdbHa.Check.{get_remove_idx}
use hustngx.HustdbHa.Build.{
  State, get_remained_idx, build_peer_list, store_item, append_list, append_table_item,
  append_incr_item, append_decr_item,
}
use hustngx.HustdbHa.Shares.{both}
use hustngx.HustdbHa.Numbers.{set_cells_overrun}

module _ (table_size : ℕ) where
  -- A number of a key is in the table, or is its size.
  abbrev pub Fits : ℤ → Type 0
  Fits z = (b : ℕ) × (z ≡ pos b) × (b ≤ table_size)
  -- The two ranges of an increase lie in the range of the item.

module _ {P : Type 0} (table_size : ℕ) where
  set_range-Fits :
      (x y : ℤ) (c : Cell P) (t : ℕ → Cell P)
      → Fits table_size x
      → Fits table_size y
      → set_range table_size x y c t ≢ overrun
  unfolding set_range
  set_range-Fits x y c t (a, e, p) (b, f, q) g =
      let past : table_size < a + (b - a) =
        set_cells_overrun table_size (b - a) a c t (rw (e, f) at g) in
      absurd (omega (arith, past, p, q))

  set_table_item-Fits :
      (p : Pair) (reads writes : List P) (index : ℕ) (t : ℕ → Cell P)
      → Fits table_size (key_at p start)
      → Fits table_size (key_at p end)
      → set_table_item table_size p reads writes index t ≢ overrun
  unfolding set_table_item
  set_table_item-Fits p [] writes index t u v e = absurd (cc)
  set_table_item-Fits p (x ∷ reads) [] index t u v e = absurd (cc)
  set_table_item-Fits p (x ∷ reads) (y ∷ writes) index t u v e =
      go (set_range table_size (key_at p start) (key_at p end) c t) refl
    where
      c : Cell P
      c = record {
        readlist = x ∷ reads;
        writelist = y ∷ writes;
        index = index;
        start = to_size (key_at p start);
        end = to_size (key_at p end);
      }

      go :
          (r : Result (ℕ → Cell P))
          → set_range table_size (key_at p start) (key_at p end) c t ≡ r
          → ⊥
      go (done t') f = absurd (cc (rw (set_table_item, f) at e))
      go refused f = absurd (cc (rw (set_table_item, f) at e))
      go overrun f = set_range-Fits (key_at p start) (key_at p end) c t u v f

  module _ (dict : Table P) where
    store_item-Fits :
        (p : Pair) (reads writes : List P) (room : ℕ) (s : State P)
        → Fits table_size (key_at p start)
        → Fits table_size (key_at p end)
        → store_item dict table_size p reads writes room s ≢ overrun
    unfolding store_item
    store_item-Fits p reads writes room s u v e =
        go (set_table_item table_size p reads writes s.index s.table) refl
      where
        go :
            (r : Result ((ℕ → Cell P) × ℕ))
            → set_table_item table_size p reads writes s.index s.table ≡ r
            → ⊥
        go (done x) f = absurd (cc (rw (store_item, f) at e))
        go refused f = absurd (cc (rw (store_item, f) at e))
        go overrun f = set_table_item-Fits p reads writes s.index s.table u v f

    pub append_list-Fits :
        (p : Pair) (keys : List Bytes) (s : State P)
        → Fits table_size (key_at p start)
        → Fits table_size (key_at p end)
        → append_list dict table_size p keys s ≢ overrun
    unfolding append_list
    append_list-Fits p keys s u v e = elim (Option-cases (build_peer_list dict s.room keys)) [
      | inl f ↦ absurd (cc (rw (append_list, f) at e))
      | inr ((list, room), f) ↦ store_item-Fits p list list room s u v (rw (append_list, f) at e)
    ]

    pub append_incr_item-Fits :
        (high low : Pair) (s : State P)
        → Fits table_size (key_at high start)
        → Fits table_size (key_at high end)
        → append_incr_item dict table_size high low s ≢ overrun
    unfolding append_incr_item
    append_incr_item-Fits high low s u v e =
        elim (Option-cases (build_peer_list dict s.room (both high))) [
          | inl f ↦ absurd (cc (rw (append_incr_item, f) at e))
          | inr ((writes, room), f) ↦
              elim (Option-cases (
                build_peer_list dict room (
                  val_at high master1
                  ∷ val_at high master2
                  ∷ val_at low master2
                  ∷ val_at low master2
                  ∷ []))) [
                    | inl g ↦ absurd (cc (rw (append_incr_item, f, g) at e))
                    | inr ((reads, room'), g) ↦
                        store_item-Fits high reads writes room' s u v
                          (rw (append_incr_item, f, g) at e)
                  ]
        ]

    pub append_decr_item-Fits :
        (d : Decr) (p : Pair) (s : State P)
        → Fits table_size (key_at p start)
        → Fits table_size (key_at p end)
        → append_decr_item dict table_size d p s ≢ overrun
    unfolding append_decr_item
    append_decr_item-Fits d p s u v e =
        elim (Option-cases (get_remained_idx (get_remove_idx d p))) [
          | inl f ↦ absurd (cc (rw (append_decr_item, f) at e))
          | inr (i, f) ↦ append_list-Fits p _ s u v (rw (append_decr_item, f) at e)
        ]

    pub increase-Fits :
        (low high : Pair) (s : State P)
        → Fits table_size (key_at low start)
        → Fits table_size (key_at low end)
        → Fits table_size (key_at high start)
        → Fits table_size (key_at high end)
        → (elim (append_table_item dict table_size low s) [
          | done s'' ↦ append_incr_item dict table_size high low s''
          | refused ↦ refused
          | overrun ↦ overrun
        ])
          ≢ overrun
    unfolding append_table_item
    increase-Fits low high s u v w x e = go (append_list dict table_size low (both low) s) refl
      where
        go : (r : Result (State P)) → append_list dict table_size low (both low) s ≡ r → ⊥
        go refused f = absurd (cc (rw f at e))
        go (done s'') f = append_incr_item-Fits high low s'' w x (rw f at e)
        go overrun f = append_list-Fits low (both low) s u v f
