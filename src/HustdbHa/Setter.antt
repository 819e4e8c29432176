-- ===== src/HustdbHa/Setter.antt =====
-- hustdb_ha_table_setter.c: a declared table is written to a file beside the table's own, checked
-- there, and takes its place. The parser of the declaration, which hustdb_ha_def.c has generated code
-- for over the cJSON library, is a parameter.
use hustngx.Prelude.{ℕ, Bool, true, false, Option, none, some, List, [], ◌∷◌, ◌++◌, if◌then◌else◌}
use hustngx.Nginx.{Bytes}
use hustngx.CDict.Table.{Table}
use hustngx.HustdbHa.Table.{Elem, Cell, Result, done, refused, overrun}
use hustngx.HustdbHa.Build.{build_hash_table}
use hustngx.HustdbHa.Files.{Files, save_to_file, rename}

-- `hustdb_ha_table_path_t`
pub record TablePath : Type 0 where
  pub table_path : Bytes
  pub table_tmp_path : Bytes
  pub table_del_path : Bytes

-- ".tmp" and ".del"
abbrev pub tmp_ext : Bytes
tmp_ext = 46 ∷ 116 ∷ 109 ∷ 112 ∷ []

abbrev pub del_ext : Bytes
del_ext = 46 ∷ 100 ∷ 101 ∷ 108 ∷ []

-- `hustdb_ha_init_table_path`
unfoldable pub init_table_path : Bytes → TablePath
init_table_path path = record {
  table_path = path;
  table_tmp_path = path ++ tmp_ext;
  table_del_path = path ++ del_ext;
}

-- `hustdb_ha_set_table_result_t`
pub data SetTableResult : Type 0 where
  set_table_success : SetTableResult
  write_table_tmp_err : SetTableResult
  check_table_err : SetTableResult
  rename_table_err : SetTableResult
  rename_table_tmp_err : SetTableResult
  rollback_overwrite_err : SetTableResult

-- `HustDbHaTable`; without `has_table` there are no elements.
pub record Declaration : Type 0 where
  pub has_table : Bool
  pub items : List Elem

-- `__include_incr`
unfoldable pub include_incr : List Elem → Bool
include_incr [] = false
include_incr (item ∷ items) = if item.has_increase then true else include_incr items

-- What surrounds the check: the parser, the dictionary of peers, and what the tables on the stack
-- hold before they are built.
pub record Checker (P : Type 0) : Type 0 where
  pub parse : Bytes → Option Declaration
  pub dict : Table P
  pub table_size : ℕ
  pub malloc : Bool
  pub realloc : Bool
  pub fuel : ℕ
  pub room : ℕ
  pub stack : ℕ → Cell P

-- What the system answers when the table is set: how much of the data it writes, and which files it
-- lets be renamed.
pub record System : Type 0 where
  pub written : Option ℕ
  pub move_table : Bool
  pub move_tmp : Bool
  pub move_back : Bool

module _ {P : Type 0} (c : Checker P) where
  unfoldable pub check_declaration : Declaration → Result (Unit {0})
  check_declaration d =
      if d.has_table
      then if include_incr d.items
        then done tt
        else elim (build_hash_table c.dict c.table_size c.malloc c.realloc c.fuel c.room d.items
            c.stack) [ done t ↦ done tt | refused ↦ refused | overrun ↦ overrun ]
      else refused

  -- `__check_table`
  unfoldable pub check_table : Bytes → Files → Result (Unit {0})
  check_table path files = elim (files path) [
    | none ↦ refused
    | some content ↦ elim (c.parse content) [ none ↦ refused | some d ↦ check_declaration d ]
  ]

  -- The end of `__overwrite_table`, when the table has got out of the way.
  unfoldable pub move_in : System → TablePath → Files → SetTableResult × Files
  move_in s path files =
      let (moved, files') = rename s.move_tmp path.table_tmp_path path.table_path files in
      let (back, files'') = rename s.move_back path.table_del_path path.table_path files' in
      if moved
      then (set_table_success, files')
      else if back
      then (rename_table_tmp_err, files'')
      else (rollback_overwrite_err, files'')

  unfoldable pub replace_table : System → TablePath → Files → SetTableResult × Files
  replace_table s path files =
      let (moved, files') = rename s.move_table path.table_path path.table_del_path files in
      if moved then move_in s path files' else (rename_table_err, files')

  -- `__overwrite_table` behind the temporary file, which it checks; without a result it has written
  -- outside of the table that it built.
  unfoldable pub install : System → TablePath → Files → Option SetTableResult × Files
  install s path files = elim (check_table path.table_tmp_path files) [
    | refused ↦ (some check_table_err, files)
    | overrun ↦ (none, files)
    | done u ↦ let (r, files') = replace_table s path files in (some r, files')
  ]

  -- `__overwrite_table`
  unfoldable pub overwrite_table :
      System → TablePath → Bytes → Files → Option SetTableResult × Files
  overwrite_table s path content files =
      let (saved, files') = save_to_file s.written content path.table_tmp_path files in
      if saved then install s path files' else (some write_table_tmp_err, files')
