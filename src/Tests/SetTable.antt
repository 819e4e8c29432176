-- ===== src/Tests/SetTable.antt =====
-- Runs of the setting of the table of hustdbha.
use hustngx.Prelude.{ℕ, ◌≡◌, refl, true, false, Option, none, some, List, [], ◌∷◌, ◌++◌, arith, mem}
use hustngx.Nginx.{Bytes}
use hustngx.CDict.Table.{
  char_to_unsigned, hash_loop, c_dict_hash, same, init, newnode, matches, find, assign, bucket,
  at_bucket, bucketidx, addnode, push_chain, chain_all, zeroed, readd, resize, get, set,
}
use hustngx.CDict.Iter.{iter, next_bucket, skip_bucket, next, visit}
use hustngx.Params.{strstr, starts_with}
use hustngx.Fetch.Cache.{match_item}
use hustngx.HustdbHa.Table.{pos, Pair, val_at, Elem}
use hustngx.HustdbHa.Files.{Files, put, save_to_file, rename}
use hustngx.HustdbHa.Setter.{
  init_table_path, include_incr, Checker, System, check_declaration, check_table, move_in,
  replace_table, install, overwrite_table,
}
use hustngx.HustdbHa.Overwrite.{Overwrites, overwrite_table-Overwrites}
use hustngx.HustdbHa.Backends.{
  hosts_of, removed_of, set_hosts, add_items, update_hosts, in_use, get_backends_from_set, loaded,
  is_readable, all_readable, hosts_found, load_readable, load_items, load_backends,
}
use hustngx.HustdbHa.Conf.{
  push_byte, lines_from, contains, find_tag, match_upstream_begin, servers, match_upstream_end,
  server_line, server_lines, new_conf, replace_conf, overwrite_backends, selector_tag, server_key,
}
use hustngx.HustdbHa.Identifiers.{
  Shctx, alloc_identifier, free_identifier, release, match_id, is_expired, refresh_expired,
  new_identifier, generate_identifier, lock_table, unlock_table, look, Phase, World, Reach, arrival,
  first_looks, refused, found, passed,
}
use hustngx.HustdbHa.Tidy.{IsTidy}
use hustngx.HustdbHa.OneTime.{generate_identifier-once, twice_accepted}
use hustngx.HustdbHa.Interleaved.{Reach-IsTidy}
use hustngx.HustdbHa.SetTable.{Ended, Setting, set_backends, set_files, set_hash_table}
use hustngx.Tests.Setting.{setting}

program : Unit {0}
unfolding char_to_unsigned hash_loop c_dict_hash same init newnode matches find assign bucket
    at_bucket bucketidx addnode push_chain chain_all zeroed readd resize get set iter next_bucket
    skip_bucket next visit starts_with strstr match_item val_at save_to_file rename init_table_path
    include_incr check_declaration check_table move_in replace_table install overwrite_table
    hosts_of removed_of is_readable all_readable hosts_found load_readable set_hosts add_items
    update_hosts in_use get_backends_from_set load_items load_backends push_byte lines_from contains
    find_tag match_upstream_begin servers match_upstream_end server_line server_lines new_conf
    replace_conf overwrite_backends alloc_identifier free_identifier release match_id is_expired
    refresh_expired new_identifier generate_identifier lock_table unlock_table look set_backends
    set_files set_hash_table setting
program = tt

-- A table that grows by the hosts 3 and 4, and takes 2 away elsewhere.
abbrev pair : ℕ → ℕ → ℕ → ℕ → Pair
pair a b m n = record { key = pos a ∷ pos b ∷ []; val = (m ∷ []) ∷ (n ∷ []) ∷ [] }

abbrev grown : Elem
grown = record {
  item = pair 0 4 1 2;
  increase = record { low = pair 0 2 1 3; high = pair 2 4 4 2; has_low = true; has_high = true };
  decrease = record { remove = []; replace_by = []; has_remove = false; has_replace_by = false };
  has_item = true;
  has_increase = true;
  has_decrease = false;
}

abbrev shrunk : Elem
shrunk = record grown {
  decrease = record {
    remove = 2 ∷ [];
    replace_by = 1 ∷ [];
    has_remove = true;
    has_replace_by = true;
  };
  has_increase = false;
  has_decrease = true;
}

abbrev items : List Elem
items = grown ∷ shrunk ∷ []

hosts_loaded : load_items true true 17 items ≡ loaded ((1 ∷ []) ∷ (4 ∷ []) ∷ (3 ∷ []) ∷ [])
unfolding program
hosts_loaded = refl

items_readable : all_readable items ≡ true
unfolding program
items_readable = refl

-- The files "t" and "c".
abbrev table_path : Bytes
table_path = 116 ∷ []

abbrev conf_path : Bytes
conf_path = 99 ∷ []

abbrev content : Bytes
content = 1 ∷ 2 ∷ []

-- "x", the selector, two servers, "}" and "y", a line each.
abbrev conf : Bytes
conf =
    120
    ∷ 10
    ∷ (selector_tag
        ++ (10 ∷ (server_key ++ (10 ∷ (server_key ++ (10 ∷ 125 ∷ 10 ∷ 121 ∷ 10 ∷ []))))))

abbrev files : Files
files = put table_path (some []) (put conf_path (some conf) (λ p. none))

abbrev checker : Checker ℕ
checker = record {
  parse = λ b. some (record { has_table = true; items = items });
  dict = init;
  table_size = 4;
  malloc = true;
  realloc = true;
  fuel = 17;
  room = 9;
  stack = λ i. record { readlist = []; writelist = []; index = 0; start = 0; end = 0 };
}

abbrev allows : System
allows = record { written = some 2; move_table = true; move_tmp = true; move_back = true }

overwrite_table-Overwrites_example :
    Overwrites checker
      (some 2)
      (init_table_path table_path)
      content
      files
      (overwrite_table checker allows (init_table_path table_path) content files).0
      (overwrite_table checker allows (init_table_path table_path) content files).1
overwrite_table-Overwrites_example =
    overwrite_table-Overwrites checker allows table_path content files

abbrev machine : Setting ℕ
machine = record {
  checker = checker;
  table_path = table_path;
  conf_path = conf_path;
  table_system = allows;
  conf_system = record { written = some 1000; move_conf = true; move_tmp = true };
  restarts = true;
}

-- An identifier "7" in use, and a free one.
abbrev memory : Shctx (List ℕ)
memory = record {
  cache_identifier = 1 ∷ [];
  free_identifier = 2 ∷ [];
  table_locked = false;
  item = λ x. record { exptime = 50; id = 55 ∷ [] };
}

-- The table is set.
is_set : (set_hash_table machine content memory files).0 ≡ Ended.set
unfolding program
is_set = refl

memory-IsTidy : IsTidy setting memory
unfolding program
memory-IsTidy = record {
  apart = record { left = (refl, tt); right = (refl, tt); common = λ y m. ground arith };
  unique = λ x y p q e. ground arith;
}

-- What the encryption makes of the identifier.
abbrev cipher : Option Bytes
cipher = some (1 ∷ [])

generate_identifier-once_example :
    (x : ℕ) × (look setting (56 ∷ []) (generate_identifier setting 20 9 (56 ∷ []) cipher memory).1
      ≡ found x)
    × (look setting
          (56 ∷ [])
          (release setting x (generate_identifier setting 20 9 (56 ∷ []) cipher memory).1)
        ≡ refused)
    × (cipher ≡ some (1 ∷ []))
unfolding program
generate_identifier-once_example =
    generate_identifier-once setting 20 9 (56 ∷ []) (1 ∷ []) cipher memory memory-IsTidy refl

twice_accepted_example :
    Reach setting (arrival memory) (record {
      sh = release setting 1 (release setting 1 memory);
      first = passed;
      second = passed;
    })
unfolding program
twice_accepted_example = twice_accepted setting (55 ∷ []) 1 memory refl

abbrev later : World (List ℕ)
later = record { sh = memory; first = found 1; second = Phase.asking }

reaches_later : Reach setting (arrival memory) later
unfolding program
reaches_later = Reach.next Reach.here (first_looks (55 ∷ []) refl refl)

Reach-IsTidy_example :
    IsTidy setting later.sh
    × ((y : ℕ)
        → mem y (setting.items memory.cache_identifier ++ setting.items memory.free_identifier)
          ≡ true
        → mem y (setting.items later.sh.cache_identifier ++ setting.items later.sh.free_identifier)
          ≡ true)
Reach-IsTidy_example = Reach-IsTidy setting memory later memory-IsTidy reaches_later
