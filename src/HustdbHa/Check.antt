-- ===== src/HustdbHa/Check.antt =====
-- hustdb_ha_table_checker.c.
use hustngx.Prelude.{
  ℕ, zero, suc, ◌+◌, Bool, true, false, not, ◌&&◌, ◌||◌, Option, none, some, List, [], ◌∷◌, ltb,
  ◌==◌, if◌then◌else◌, length,
}
use hustngx.Nginx.{Bytes}
use hustngx.CDict.Table.{Table, same}
use hustngx.CDict.Table
use hustngx.CDict.Iter
use hustngx.HustdbHa.Table.{
  pos, int_lt, int_eq, Pair, key_at, val_at, start, end, master1, master2, Incr, Decr, Elem, Cell,
}

unfoldable pub check_incr_key : Incr → Pair → Bool
check_incr_key incr item =
    length incr.low.key == 2
    && length incr.high.key == 2
    && int_eq (key_at incr.low start) (key_at item start)
    && int_eq (key_at incr.high end) (key_at item end)
    && int_eq (key_at incr.low end) (key_at incr.high start)
    && int_lt (key_at incr.low start) (key_at incr.low end)
    && int_lt (key_at incr.high start) (key_at incr.high end)

unfoldable pub check_incr_val : Incr → Pair → Bool
check_incr_val incr item =
    length incr.low.val == 2
    && length incr.high.val == 2
    && same (val_at incr.low master1) (val_at item master1)
    && same (val_at incr.high master2) (val_at item master2)
    && not (same (val_at incr.low master2) (val_at item master1))
    && not (same (val_at incr.low master2) (val_at item master2))
    && not (same (val_at incr.high master1) (val_at item master1))
    && not (same (val_at incr.high master1) (val_at item master2))

unfoldable pub check_incr_item : Incr → Pair → Bool
check_incr_item incr item = check_incr_key incr item && check_incr_val incr item

-- `hustdb_ha_get_remove_idx` of hustdb_ha_table_def.c; `none` is UNKNOWN_MASTER.
unfoldable pub get_remove_idx : Decr → Pair → Option ℕ
get_remove_idx decr item =
    if same decr.remove (val_at item master1)
    then some master1
    else if same decr.remove (val_at item master2)
    then some master2
    else none

unfoldable pub check_remove_idx : Option ℕ → Bool
check_remove_idx none = false
check_remove_idx (some idx) = master1 == idx || master2 == idx

unfoldable pub check_decr_item : Decr → Pair → Bool
check_decr_item decr item =
    if not decr.has_remove || not decr.has_replace_by
    then false
    else if same decr.remove decr.replace_by
    then false
    else check_remove_idx (get_remove_idx decr item)

unfoldable pub enable_increase : Elem → Bool
enable_increase e = e.has_increase && e.increase.has_low && e.increase.has_high

unfoldable pub check_table_item_base : Bool → Elem → Bool
check_table_item_base include_decrease e =
    if include_decrease
    then if e.has_decrease then check_decr_item e.decrease e.item else true
    else if enable_increase e
    then check_incr_item e.increase e.item
    else true

unfoldable pub check_first_table_item : ℕ → Bool → Elem → Bool
check_first_table_item table_size include_decrease e =
    if not (int_eq (pos 0) (key_at e.item start))
    then false
    else if int_lt (key_at e.item end) (pos 1) || int_lt (pos table_size) (key_at e.item end)
    then false
    else check_table_item_base include_decrease e

unfoldable pub check_table_item : ℕ → Bool → Bool → Option Elem → Elem → Bool
check_table_item table_size include_decrease last prev e =
    if not (length e.item.key == 2) || not (length e.item.val == 2) then false else elim prev [
      | none ↦ check_first_table_item table_size include_decrease e
      | some p ↦
          if last && not (int_eq (pos table_size) (key_at e.item end))
          then false
          else if not (int_eq (key_at p.item end) (key_at e.item start))
          then false
          else check_table_item_base include_decrease e
    ]

-- `hustdb_ha_precheck_table`
unfoldable pub precheck_table : List Elem → Bool
precheck_table [] = true
precheck_table (e ∷ rest) = e.has_item && precheck_table rest

module _ {P : Type 0} where
  unfoldable pub review_writelist : List P → Bool
  review_writelist list = length list == 2

  -- The loop of `hustdb_ha_review_table` over `n` cells from `i` on.
  unfoldable pub review_cells : ℕ → ℕ → (ℕ → Cell P) → Bool
  review_cells zero i table = true
  review_cells (suc n) i table =
      ltb 0 (length (table i).readlist)
      && ltb 0 (length (table i).writelist)
      && review_writelist (table i).writelist
      && review_cells n (i + 1) table

  unfoldable pub review_table : ℕ → (ℕ → Cell P) → Bool
  review_table table_size table = review_cells table_size 0 table

-- A name is put into a set if it is not there.
unfoldable pub put_name : Bool → Bool → Bytes → Table ℕ → Table ℕ
put_name malloc realloc key dict = elim (Table.get key dict) [
  | none ↦ (Table.set malloc realloc key 1 dict).1
  | some val ↦ dict
]

-- The first loop of `hustdb_ha_check_decrease`: the removed names and their replacements.
unfoldable pub collect : Bool → Bool → List Elem → Table ℕ → Table ℕ → Table ℕ × Table ℕ
collect malloc realloc [] remove_dict replace_dict = (remove_dict, replace_dict)
collect malloc realloc (e ∷ rest) remove_dict replace_dict =
    if e.has_decrease
    then collect malloc realloc rest (put_name malloc realloc e.decrease.remove remove_dict)
        (put_name malloc realloc e.decrease.replace_by replace_dict)
    else collect malloc realloc rest remove_dict replace_dict

-- The second loop, over the names that the iterator visits.
unfoldable pub none_removed : List Bytes → Table ℕ → Bool
none_removed [] remove_dict = true
none_removed (key ∷ rest) remove_dict = elim (Table.get key remove_dict) [
  | some val ↦ false
  | none ↦ none_removed rest remove_dict
]

-- `hustdb_ha_check_decrease`, on fuel for the iterator.
unfoldable pub check_decrease : Bool → Bool → ℕ → List Elem → Option Bool
check_decrease malloc realloc fuel table =
    let (remove_dict, replace_dict) = collect malloc realloc table Table.init Table.init in
    elim (Iter.visit fuel replace_dict Iter.iter) [
      | none ↦ none
      | some keys ↦ some (none_removed keys remove_dict)
    ]
