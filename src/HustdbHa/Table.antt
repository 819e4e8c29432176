-- ===== src/HustdbHa/Table.antt =====
-- The data of hustdb_ha_def.h and hustdb_ha_table_inner.h, and the writes into the table of
-- hustdb_ha_table_def.c.
use hustngx.Prelude.{
  ℕ, zero, suc, ◌+◌, ◌-◌, ◌^◌, Bool, true, false, none, some, List, [], ◌∷◌, ltb, ◌==◌,
  if◌then◌else◌, get_elem?,
}
use hustngx.Nginx.{Bytes}

-- `json_int_t`, which is an `int`, and its tests.
pub data ℤ : Type 0 where
  pos : ℕ → ℤ
  negsuc : ℕ → ℤ

unfoldable pub int_lt : ℤ → ℤ → Bool
int_lt (pos a) (pos b) = ltb a b
int_lt (pos a) (negsuc b) = false
int_lt (negsuc a) (pos b) = true
int_lt (negsuc a) (negsuc b) = ltb b a

unfoldable pub int_eq : ℤ → ℤ → Bool
int_eq (pos a) (pos b) = a == b
int_eq (pos a) (negsuc b) = false
int_eq (negsuc a) (pos b) = false
int_eq (negsuc a) (negsuc b) = a == b

-- `HustDbHaTablePair`, and its `key.arr[i]` and `val.arr[i].buf`. The code reads them where it has
-- checked the sizes; an element that is missing is 0 or empty here.
pub record Pair : Type 0 where
  pub key : List ℤ
  pub val : List Bytes

-- The entries of the arrays of a pair. The code reads them without a test; one that is missing is
-- outside of the array and has no meaning, here 0 or an empty string. Where the arrays have not been
-- checked before, in hustdb_ha_load_backends, a model tests them first.
unfoldable pub key_at : Pair → ℕ → ℤ
key_at p i = elim (get_elem? p.key i) [ none ↦ pos 0 | some k ↦ k ]

unfoldable pub val_at : Pair → ℕ → Bytes
val_at p i = elim (get_elem? p.val i) [ none ↦ [] | some v ↦ v ]

abbrev pub start : ℕ
start = 0

abbrev pub end : ℕ
end = 1

abbrev pub master1 : ℕ
master1 = 0

abbrev pub master2 : ℕ
master2 = 1

-- `HustDbHaTableIncr`, `HustDbHaTableDecr`, `HustDbHaTableElem`
pub record Incr : Type 0 where
  pub low : Pair
  pub high : Pair
  pub has_low : Bool
  pub has_high : Bool

pub record Decr : Type 0 where
  pub remove : Bytes
  pub replace_by : Bytes
  pub has_remove : Bool
  pub has_replace_by : Bool

pub record Elem : Type 0 where
  pub item : Pair
  pub increase : Incr
  pub decrease : Decr
  pub has_item : Bool
  pub has_increase : Bool
  pub has_decrease : Bool

-- HUSTDB_TABLE_SIZE. The functions take the size as an argument, so that runs can have few cells.
abbrev pub hustdb_table_size : ℕ
hustdb_table_size = 1024

-- `hustdb_ha_table_elem_t`; a null list is empty.
pub record Cell (P : Type 0) : Type 0 where
  pub readlist : List P
  pub writelist : List P
  pub index : ℕ
  pub start : ℕ
  pub end : ℕ

-- How building ends: with a value, with `false`, or with a write outside of the table.
pub data Result {ℓ} (A : Type ℓ) : Type ℓ where
  done : A → Result A
  refused : Result A
  overrun : Result A

-- An `int` that is stored in a `size_t`.
unfoldable pub to_size : ℤ → ℕ
to_size (pos a) = a
to_size (negsuc a) = 2 ^ 64 - 1 - a

-- `table->table[i] = cell`
unfoldable pub write : {P : Type 0} → (ℕ → Cell P) → ℕ → Cell P → ℕ → Cell P
write table i cell j = if j == i then cell else table j

module _ (table_size : ℕ) {P : Type 0} where
  -- The loop of `__set_table_item` over `n` cells from `i` on.
  unfoldable pub set_cells : ℕ → ℕ → Cell P → (ℕ → Cell P) → Result (ℕ → Cell P)
  set_cells zero i cell table = done table
  set_cells (suc n) i cell table =
      let rest = set_cells n (i + 1) cell (write table i cell) in
      if ltb i table_size then rest else overrun

  -- The loop of `__set_table_item`; a negative index is outside of the table.
  unfoldable pub set_range : ℤ → ℤ → Cell P → (ℕ → Cell P) → Result (ℕ → Cell P)
  set_range (pos a) (pos b) cell table = set_cells (b - a) a cell table
  set_range (pos a) (negsuc b) cell table = done table
  set_range (negsuc a) (pos b) cell table = overrun
  set_range (negsuc a) (negsuc b) cell table = if ltb b a then overrun else done table

  -- `__set_table_item`: the table, and the next index.
  unfoldable pub set_table_item :
      Pair → List P → List P → ℕ → (ℕ → Cell P) → Result ((ℕ → Cell P) × ℕ)
  set_table_item p [] writelist index table = done (table, index)
  set_table_item p (r ∷ readlist) [] index table = done (table, index)
  set_table_item p (r ∷ readlist) (w ∷ writelist) index table =
      let cell : Cell P = record {
        readlist = r ∷ readlist;
        writelist = w ∷ writelist;
        index = index;
        start = to_size (key_at p start);
        end = to_size (key_at p end);
      } in
      elim (set_range (key_at p start) (key_at p end) cell table) [
        | done table' ↦ done (table', index + 1)
        | refused ↦ refused
        | overrun ↦ overrun
      ]
