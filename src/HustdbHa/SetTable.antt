-- ===== src/HustdbHa/SetTable.antt =====
-- `__set_hash_table` of hustdb_ha_set_table_handler.c: under the lock the table and the servers of
-- the configuration are replaced, and the instance restarts.
use hustngx.Prelude.{ℕ, Bool, none, some, if◌then◌else◌}
use hustngx.Nginx.{Bytes}
use hustngx.HustdbHa.Files.{Files}
use hustngx.HustdbHa.Setter.{
  init_table_path, SetTableResult, set_table_success, write_table_tmp_err, check_table_err,
  rename_table_err, rename_table_tmp_err, rollback_overwrite_err, Checker, System, overwrite_table,
}
use hustngx.HustdbHa.Backends.{loaded, not_loaded, bad_pointer, load_backends}
use hustngx.HustdbHa.Conf.{ConfSystem, overwrite_backends}
use hustngx.HustdbHa.Identifiers.{Shctx, lock_table, unlock_table}

-- The value of the enumeration.
unfoldable pub result_code : SetTableResult → ℕ
result_code set_table_success = 1
result_code write_table_tmp_err = 2
result_code check_table_err = 3
result_code rename_table_err = 4
result_code rename_table_tmp_err = 5
result_code rollback_overwrite_err = 6

abbrev pub ngx_restart_instance_error : ℕ
ngx_restart_instance_error = 0

abbrev pub overwrite_backends_error : ℕ
overwrite_backends_error = 127

-- How setting the table ends: it is set, the table is locked, an error has a code, or the check has
-- written outside of its table.
pub data Ended : Type 0 where
  set : Ended
  locked : Ended
  failed : ℕ → Ended
  crashed : Ended

-- What the handler is configured with and what the system answers it.
pub record Setting (P : Type 0) : Type 0 where
  pub checker : Checker P
  pub table_path : Bytes
  pub conf_path : Bytes
  pub table_system : System
  pub conf_system : ConfSystem
  pub restarts : Bool

module _ {P : Type 0} (c : Setting P) where
  -- From `hustdb_ha_load_backends` on.
  unfoldable pub set_backends : Files → Ended × Files
  set_backends files =
      elim (load_backends c.checker.malloc c.checker.realloc c.checker.parse c.checker.fuel
        c.table_path files) [
          | not_loaded ↦ (failed overwrite_backends_error, files)
          | bad_pointer ↦ (crashed, files)
          | loaded backends ↦
              let (done, files') = overwrite_backends c.conf_system c.conf_path backends files in
              if done
              then if c.restarts then (set, files') else (failed ngx_restart_instance_error, files')
              else (failed overwrite_backends_error, files')
        ]

  -- What is done under the lock.
  unfoldable pub set_files : Bytes → Files → Ended × Files
  set_files content files =
      let (result, files') =
        overwrite_table c.checker c.table_system (init_table_path c.table_path) content files in
      elim result [
        | none ↦ (crashed, files')
        | some r ↦ elim r [
          | set_table_success ↦ set_backends files'
          | write_table_tmp_err ↦ (failed (result_code write_table_tmp_err), files')
          | check_table_err ↦ (failed (result_code check_table_err), files')
          | rename_table_err ↦ (failed (result_code rename_table_err), files')
          | rename_table_tmp_err ↦ (failed (result_code rename_table_tmp_err), files')
          | rollback_overwrite_err ↦ (failed (result_code rollback_overwrite_err), files')
        ]
      ]

  -- `__set_hash_table`; after a success the lock is not given back.
  unfoldable pub set_hash_table :
      {Queue : Type 0} → Bytes → Shctx Queue → Files → Ended × Shctx Queue × Files
  set_hash_table content sh files =
      let (taken, sh') = lock_table sh in
      let (ended, files') = set_files content files in
      if taken
      then elim ended [
        | set ↦ (set, sh', files')
        | locked ↦ (locked, sh', files')
        | failed code ↦ (failed code, unlock_table sh', files')
        | crashed ↦ (crashed, sh', files')
      ]
      else (locked, sh', files)
