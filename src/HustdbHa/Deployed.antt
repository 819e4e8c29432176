-- ===== src/HustdbHa/Deployed.antt =====
-- What `__set_hash_table` of hustdb_ha_set_table_handler.c leaves behind.
use hustngx.Prelude.{ℕ, ◌≡◌, ◌≢◌, true, false, some, List, ◌++◌, take, length, ◌≤◌}
use hustngx.Nginx.{Bytes}
use hustngx.HustdbHa.Files.{Files}
use hustngx.HustdbHa.Setter.{tmp_ext, del_ext, Declaration}
use hustngx.HustdbHa.Backends.{loaded, load_items}
use hustngx.HustdbHa.Reconfigured.Servers.{Replaced}
use hustngx.HustdbHa.Identifiers.{Shctx}
use hustngx.HustdbHa.SetTable.{Ended, set, locked, failed, Setting}

-- The files of the table and those of the configuration are not the same.
pub record AreDistinct (table conf : Bytes) : Type 0 where
  pub table_conf : table ≢ conf
  pub table_conf_tmp : table ≢ conf ++ tmp_ext
  pub table_conf_del : table ≢ conf ++ del_ext
  pub conf_table_tmp : conf ≢ table ++ tmp_ext
  pub conf_table_del : conf ≢ table ++ del_ext

module _ {P : Type 0} (c : Setting P) where
  -- The table's file holds what was sent, as far as it was written, and the servers in the
  -- configuration are those that its declaration uses.
  pub record IsDeployed (content : Bytes) (files files' : Files) : Type 0 where
    pub count : ℕ
    pub table_written : c.table_system.written ≡ some count
    pub declaration : Declaration
    pub backends : List Bytes
    pub conf_before : Bytes
    pub conf_after : Bytes
    pub conf_count : ℕ
    pub conf_written : c.conf_system.written ≡ some conf_count
    pub table_there : files' c.table_path ≡ some (take count content)
    pub parsed : c.checker.parse (take count content) ≡ some declaration
    pub hosts_loaded :
        load_items c.checker.malloc c.checker.realloc c.checker.fuel declaration.items
        ≡ loaded backends
    pub conf_was : files c.conf_path ≡ some conf_before
    pub replaced : Replaced conf_before conf_after backends
    pub conf_there : files' c.conf_path ≡ some (take conf_count conf_after)
    pub conf_whole : length conf_after ≤ conf_count → files' c.conf_path ≡ some conf_after

  -- How setting the table ends, the lock included.
  pub record Sets {Queue : Type 0} (content : Bytes) (sh : Shctx Queue) (files : Files)
      (r : Ended × Shctx Queue × Files) : Type 0 where
    pub deployed :
        r.0 ≡ set
        → (sh.table_locked ≡ false) × (r.1.table_locked ≡ true) × IsDeployed content files r.2
    pub excluded : sh.table_locked ≡ true → r ≡ (locked, sh, files)
    pub unlocked :
        (code : ℕ) → r.0 ≡ failed code → (sh.table_locked ≡ false) × (r.1.table_locked ≡ false)
