-- ===== src/HustdbHa/Backends.antt =====
-- hustdb_ha_load_backends of hustdb_ha_table_setter.c: the hosts that a declared table uses, by way of
-- two dictionaries. Whether allocations succeed is an argument.
use hustngx.Prelude.{
  ℕ, Bool, true, false, Option, none, some, List, [], ◌∷◌, ◌&&◌, leb, length, if◌then◌else◌,
}
use hustngx.Nginx.{Bytes}
use hustngx.CDict.Table
use hustngx.CDict.Table.{Table}
use hustngx.CDict.Iter.{iter, visit}
use hustngx.HustdbHa.Table.{Elem, val_at, master1, master2}
use hustngx.HustdbHa.Files.{Files}
use hustngx.HustdbHa.Setter.{Declaration}

-- The hosts of an element, in the order of the arrays of hustdb_ha_load_backends.
unfoldable pub hosts_of : Elem → List Bytes
hosts_of item =
    if item.has_increase
    then val_at item.increase.low master1
      ∷ val_at item.increase.low master2
      ∷ val_at item.increase.high master1
      ∷ val_at item.increase.high master2
      ∷ []
    else if item.has_decrease
    then val_at item.item master1 ∷ val_at item.item master2 ∷ item.decrease.replace_by ∷ []
    else val_at item.item master1 ∷ val_at item.item master2 ∷ []

-- The host that an element removes.
unfoldable pub removed_of : Elem → List Bytes
removed_of item =
    if item.has_increase then [] else if item.has_decrease then item.decrease.remove ∷ [] else []

-- Whether the pointers that hustdb_ha_load_backends reads without a test are there: the entries of
-- the two masters in the arrays, and the strings of a decrease.
unfoldable pub is_readable : Elem → Bool
is_readable item =
    if item.has_increase
    then leb 2 (length item.increase.low.val) && leb 2 (length item.increase.high.val)
    else if item.has_decrease
    then leb 2 (length item.item.val) && item.decrease.has_remove && item.decrease.has_replace_by
    else leb 2 (length item.item.val)

unfoldable pub all_readable : List Elem → Bool
all_readable [] = true
all_readable (item ∷ items) = is_readable item && all_readable items

-- How loading ends: with the hosts, with false, or with a null pointer or one outside of an array.
pub data Loading : Type 0 where
  loaded : List Bytes → Loading
  not_loaded : Loading
  bad_pointer : Loading

-- The hosts that were found, where the fuel was enough for it.
unfoldable pub hosts_found : Option (List Bytes) → Loading
hosts_found none = not_loaded
hosts_found (some hosts) = loaded hosts

-- `__traverse_set` with `hustdb_ha_append_item`, over the hosts that the iterator gives.
unfoldable pub in_use : Table Bool → List Bytes → List Bytes
in_use backend_set [] = []
in_use backend_set (host ∷ hosts) =
    let rest = in_use backend_set hosts in
    elim (Table.get host backend_set) [ none ↦ rest | some val ↦ if val then host ∷ rest else rest ]

-- `__get_backends_from_set`, with a pool that has room.
unfoldable pub get_backends_from_set : ℕ → Table Bool → Option (List Bytes)
get_backends_from_set fuel backend_set = elim (visit fuel backend_set iter) [
  | none ↦ none
  | some hosts ↦ some (in_use backend_set hosts)
]

module _ (malloc realloc : Bool) where
  -- `__add_hosts`, and with `false` the body of `__update_hosts`; the result of a set is not looked
  -- at.
  unfoldable pub set_hosts : Bool → List Bytes → Table Bool → Table Bool
  set_hosts value [] dict = dict
  set_hosts value (host ∷ hosts) dict =
      set_hosts value hosts (Table.set malloc realloc host value dict).1

  -- The loop over the elements: the hosts in use, and the removed ones.
  unfoldable pub add_items : List Elem → Table Bool → Table Bool → Table Bool × Table Bool
  add_items [] backend_set removed_set = (backend_set, removed_set)
  add_items (item ∷ items) backend_set removed_set =
      add_items items (set_hosts true (hosts_of item) backend_set)
        (set_hosts true (removed_of item) removed_set)

  -- `__update_hosts`, whose iterator runs on fuel.
  unfoldable pub update_hosts : ℕ → Table Bool → Table Bool → Option (Table Bool)
  update_hosts fuel removed_set backend_set = elim (visit fuel removed_set iter) [
    | none ↦ none
    | some hosts ↦ some (set_hosts false hosts backend_set)
  ]

  unfoldable pub load_readable : ℕ → List Elem → Option (List Bytes)
  load_readable fuel items =
      let (backend_set, removed_set) = add_items items Table.init Table.init in
      elim (update_hosts fuel removed_set backend_set) [
        | none ↦ none
        | some updated ↦ get_backends_from_set fuel updated
      ]

  -- What follows the parsing.
  unfoldable pub load_items : ℕ → List Elem → Loading
  load_items fuel items =
      if all_readable items then hosts_found (load_readable fuel items) else bad_pointer

  -- `hustdb_ha_load_backends`
  unfoldable pub load_backends : (Bytes → Option Declaration) → ℕ → Bytes → Files → Loading
  load_backends parse fuel table_path files = elim (files table_path) [
    | none ↦ not_loaded
    | some content ↦ elim (parse content) [ none ↦ not_loaded | some d ↦ load_items fuel d.items ]
  ]
