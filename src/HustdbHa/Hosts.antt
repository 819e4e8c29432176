-- ===== src/HustdbHa/Hosts.antt =====
-- The hosts that hustdb_ha_load_backends of hustdb_ha_table_setter.c finds.
pub mod Elements
use hustngx.Prelude.{◌+◌, ◌||◌, ◌++◌}
use hustngx.CDict.Table
use hustngx.CDict.Table.{Table}
use hustngx.CDict.Members.{has-append}
use hustngx.HustdbHa.Backends.{hosts_of, removed_of, Loading}
use hustngx.HustdbHa.Loaded.{set_hosts-AllPass}
use hustngx.HustdbHa.Hosts.Elements.{Added}
