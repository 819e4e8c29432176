-- ===== src/HustdbHa/Overrun.antt =====
-- Writes outside of the table by hustdb_ha_table_def.c.
use hustngx.Prelude.{
  ℕ, suc, ◌-◌, ◌≡◌, ◌<◌, refl, true, false, some, List, [], ◌∷◌, ◌==◌, length, arith,
}
use hustngx.Nginx.{Bytes}
use hustngx.CDict.Table.{Table}
use hustngx.HustdbHa.Table.{pos, Pair, key_at, start, end, Elem, overrun, set_range, set_table_item}
use hustngx.HustdbHa.Check.{enable_increase, check_table_item_base, check_table_item}
use hustngx.HustdbHa.Build.{
  State, build_peer_list, store_item, append_list, append_table_item, build_table_item, build_items,
}
use hustngx.HustdbHa.Shares.{both}
use hustngx.HustdbHa.Numbers.{int_eq_refl, set_cells_past}

suc_nonzero : (n : ℕ) → (suc n == 0) ≡ false
suc_nonzero n = ground arith

module _ {P : Type 0} (table_size : ℕ) (dict : Table P) where
  append_list_past :
      (p : Pair) (keys : List Bytes) (s : State P) (a b room : ℕ) (peers : List P)
      → key_at p start ≡ pos a
      → key_at p end ≡ pos b
      → a < b
      → table_size < b
      → build_peer_list dict s.room keys ≡ some (peers, room)
      → 0 < length peers
      → append_list dict table_size p keys s ≡ overrun
  unfolding append_list store_item set_table_item set_range
  append_list_past p keys s a b room [] g h less past l n = absurd (omega arith)
  append_list_past p keys s a b room (q ∷ peers) g h less past l n =
      rw
        (
          append_list,
          l,
          store_item,
          set_table_item,
          g,
          h,
          set_range,
          set_cells_past table_size (b - a) a _ s.table (omega (arith, less)) (omega (arith, past)),
        )
        refl

  -- A plain item between two others, with two numbers and two names, that starts where the one
  -- before it ends, and ends after that and past the table, passes the checks, and if its peers
  -- are found it is written outside of the table.
  pub middle_item_overruns :
      (p x y : Elem) (rest : List Elem) (s : State P) (a b room : ℕ) (peers : List P)
      → length x.item.key ≡ 2
      → length x.item.val ≡ 2
      → x.has_increase ≡ false
      → key_at p.item end ≡ pos a
      → key_at x.item start ≡ pos a
      → key_at x.item end ≡ pos b
      → a < b
      → table_size < b
      → build_peer_list dict s.room (both x.item) ≡ some (peers, room)
      → 0 < length peers
      → build_items dict table_size false (some p) (x ∷ y ∷ rest) s ≡ overrun
  unfolding build_items check_table_item check_table_item_base enable_increase build_table_item
      append_table_item append_list store_item set_table_item set_range
  middle_item_overruns p x y rest s a b room peers k v i f g h less past l n =
      rw (build_items, passes, unchanged) refl
    where
      passes : check_table_item table_size false (length (y ∷ rest) == 0) (some p) x ≡ true
      passes = rw (suc_nonzero (length rest), k, v, f, g, i, int_eq_refl (pos a)) refl

      unchanged : build_table_item dict table_size false x s ≡ overrun
      unchanged = rw i (append_list_past x.item (both x.item) s a b room peers g h less past l n)
