-- ===== src/HustdbHa/Build.antt =====
-- hustdb_ha_table_def.c.
use hustngx.Prelude.{
  ℕ, zero, suc, ◌+◌, Bool, true, false, not, ◌&&◌, ◌||◌, Option, none, some, List, [], ◌∷◌, ◌++◌,
  leb, ◌==◌, if◌then◌else◌, length, get_last?,
}
use hustngx.Nginx.{Bytes}
use hustngx.CDict.Table.{Table}
use hustngx.Peers.{palloc, append_peer, peer_dict_get}
use hustngx.HustdbHa.Table.{
  Pair, val_at, master1, master2, Decr, Elem, Cell, Result, done, refused, overrun, set_table_item,
}
use hustngx.HustdbHa.Check.{
  get_remove_idx, enable_increase, check_table_item, precheck_table, review_table, check_decrease,
}

-- `hustdb_ha_bucket_t`
pub record Bucket (P : Type 0) : Type 0 where
  pub readlist : List P
  pub writelist : List P
  pub start : ℕ
  pub end : ℕ

-- What building changes: the table, the next index, and the room in the pool.
pub record State (P : Type 0) : Type 0 where
  pub table : ℕ → Cell P
  pub index : ℕ
  pub room : ℕ

-- The helper `__get_remained_idx`; `none` is UNKNOWN_MASTER.
unfoldable pub get_remained_idx : Option ℕ → Option ℕ
get_remained_idx none = none
get_remained_idx (some idx) =
    if master1 == idx then some master2 else if master2 == idx then some master1 else none

unfoldable pub include_increase : List Elem → Bool
include_increase [] = false
include_increase (e ∷ rest) = e.has_increase || include_increase rest

unfoldable pub include_decrease : List Elem → Bool
include_decrease [] = false
include_decrease (e ∷ rest) = e.has_decrease || include_decrease rest

module _ {P : Type 0} (dict : Table P) where
  -- The loop of `__build_peer_list`.
  unfoldable pub append_keys : ℕ → List Bytes → List P → Option (List P × ℕ)
  append_keys room [] list = some (list, room)
  append_keys room (key ∷ keys) list = elim (peer_dict_get dict key) [
    | none ↦ none
    | some peer ↦ elim (append_peer room peer list) [
      | none ↦ none
      | some (list', room') ↦ append_keys room' keys list'
    ]
  ]

  unfoldable pub build_peer_list : ℕ → List Bytes → Option (List P × ℕ)
  build_peer_list room keys = elim (palloc room) [
    | none ↦ none
    | some room' ↦ append_keys room' keys []
  ]

  module _ (table_size : ℕ) where
    unfoldable pub store_item : Pair → List P → List P → ℕ → State P → Result (State P)
    store_item p readlist writelist room s =
        elim (set_table_item table_size p readlist writelist s.index s.table) [
          | done (table, index) ↦ done (record { table = table; index = index; room = room })
          | refused ↦ refused
          | overrun ↦ overrun
        ]

    -- One list that serves reads and writes of a range.
    unfoldable pub append_list : Pair → List Bytes → State P → Result (State P)
    append_list p keys s = elim (build_peer_list s.room keys) [
      | none ↦ refused
      | some (list, room) ↦ store_item p list list room s
    ]

    unfoldable pub append_table_item : Pair → State P → Result (State P)
    append_table_item item s = append_list item (val_at item master1 ∷ val_at item master2 ∷ []) s

    -- The second key of `low` stands twice among those that are read.
    unfoldable pub append_incr_item : Pair → Pair → State P → Result (State P)
    append_incr_item high low s =
        elim (build_peer_list s.room (val_at high master1 ∷ val_at high master2 ∷ [])) [
          | none ↦ refused
          | some (writelist, room) ↦
              elim (build_peer_list room (
                val_at high master1
                ∷ val_at high master2
                ∷ val_at low master2
                ∷ val_at low master2
                ∷ [])) [
                  | none ↦ refused
                  | some (readlist, room') ↦ store_item high readlist writelist room' s
                ]
        ]

    unfoldable pub append_decr_item : Decr → Pair → State P → Result (State P)
    append_decr_item decr item s = elim (get_remained_idx (get_remove_idx decr item)) [
      | none ↦ refused
      | some idx ↦ append_list item (val_at item idx ∷ decr.replace_by ∷ []) s
    ]

    unfoldable pub build_table_item : Bool → Elem → State P → Result (State P)
    build_table_item include_decrease e s =
        if include_decrease
        then if e.has_decrease
          then append_decr_item e.decrease e.item s
          else append_table_item e.item s
        else if enable_increase e
        then elim (append_table_item e.increase.low s) [
          | done s' ↦ append_incr_item e.increase.high e.increase.low s'
          | refused ↦ refused
          | overrun ↦ overrun
        ]
        else append_table_item e.item s

    -- The loop of `__build_table`.
    unfoldable pub build_items : Bool → Option Elem → List Elem → State P → Result (State P)
    build_items include_decrease prev [] s = done s
    build_items include_decrease prev (e ∷ rest) s =
        elim (check_table_item table_size include_decrease (length rest == 0) prev e) [
          | false ↦ refused
          | true ↦ elim (build_table_item include_decrease e s) [
            | done s' ↦ build_items include_decrease (some e) rest s'
            | refused ↦ refused
            | overrun ↦ overrun
          ]
        ]

module _ {P : Type 0} where
  unfoldable pub set_bucket : Cell P → Bucket P
  set_bucket c = record {
    readlist = c.readlist;
    writelist = c.writelist;
    start = c.start;
    end = c.end;
  }

  unfoldable pub skip : Cell P → Bucket P → Bool
  skip c b = c.start == b.start && c.end == b.end

  -- The loop of `__build_bucket_table` over `n` cells from `i` on.
  unfoldable pub bucket_cells :
      ℕ → ℕ → ℕ → (ℕ → Cell P) → List (Bucket P) → Option (List (Bucket P))
  bucket_cells size zero i table arr = some arr
  bucket_cells size (suc n) i table arr = elim (get_last? arr) [
    | none ↦ bucket_cells size n (i + 1) table (arr ++ set_bucket (table i) ∷ [])
    | some b ↦ elim (skip (table i) b) [
      | true ↦ bucket_cells size n (i + 1) table arr
      | false ↦
          if leb size (length arr)
          then none
          else bucket_cells size n (i + 1) table (arr ++ set_bucket (table i) ∷ [])
    ]
  ]

  unfoldable pub build_bucket_table : ℕ → ℕ → (ℕ → Cell P) → Option (List (Bucket P))
  build_bucket_table table_size size table =
      if size == 0 then none else bucket_cells size table_size 0 table []

  -- `__build_table`, with the calls that it makes after its loop. The results of `malloc` and
  -- `realloc` and the fuel are those of `hustdb_ha_check_decrease`.
  unfoldable pub build_table :
      Table P
      → ℕ
      → Bool
      → Bool
      → ℕ
      → Bool
      → List Elem
      → State P
      → Result ((ℕ → Cell P) × List (Bucket P))
  build_table dict table_size malloc realloc fuel include_decrease items s =
      elim (build_items dict table_size include_decrease none items s) [
        | refused ↦ refused
        | overrun ↦ overrun
        | done s' ↦
            elim (if include_decrease
              then check_decrease malloc realloc fuel items
              else some true) [
                | none ↦ refused
                | some false ↦ refused
                | some true ↦
                    if review_table table_size s'.table
                    then elim (build_bucket_table table_size s'.index s'.table) [
                      | none ↦ refused
                      | some buckets ↦ done (s'.table, buckets)
                    ]
                    else refused
              ]
      ]

  -- `hustdb_ha_build_hash_table`, into a table that has what `table` has.
  unfoldable pub build_hash_table :
      Table P
      → ℕ
      → Bool
      → Bool
      → ℕ
      → ℕ
      → List Elem
      → (ℕ → Cell P)
      → Result ((ℕ → Cell P) × List (Bucket P))
  build_hash_table dict table_size malloc realloc fuel room items table =
      if not (precheck_table items)
      then refused
      else if include_increase items && include_decrease items
      then refused
      else build_table dict table_size malloc realloc fuel (include_decrease items) items
          (record { table = table; index = 0; room = room })
