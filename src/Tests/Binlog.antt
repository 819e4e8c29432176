-- ===== src/Tests/Binlog.antt =====
-- Runs of hustdb_ha_write_binlog.c.
use hustngx.Prelude.{ℕ, ◌+◌, ◌^◌, ◌≡◌, refl, true, false, some, [], ◌∷◌, ◌++◌, arith, length}
use hustngx.Nginx.{Bytes}
use hustngx.Params.{get_param_val}
use hustngx.HustdbHa.Head.{Head, head_of, encode_head}
use hustngx.HustdbHa.Write.{Args, decimal, format_binlog_args}
use hustngx.HustdbHa.Record.{read_head, read_head-encode_head}
use hustngx.HustdbHa.Replay.{
  in_memory, host_name, method_name, tb_name, key_name, tb_of, key_of,
  get_param_val-format_binlog_args,
}

-- The checksum of this setting is the length.
abbrev checksum : Bytes → ℕ
checksum = length

abbrev written : Head
written = record {
  method = 3;
  ver = 70000;
  key = 107 ∷ 49 ∷ [];
  key_crc = 2;
  ttl = 60;
  tb = 116 ∷ [];
  tb_crc = 1;
  score = 2 ^ 40;
  opt = 255;
}

fields : head_of checksum 3 true 70000 (107 ∷ 49 ∷ []) (116 ∷ []) 60 (2 ^ 40) 255 ≡ written
unfolding head_of
fields = refl

read_head-encode_head_example :
    (head : Bytes) × (encode_head true written ≡ some head)
    × (length head ≡ length written.key + length written.tb + 38)
    × (read_head (head ++ (1 ∷ 2 ∷ [])) ≡ some (length head, written, 1 ∷ 2 ∷ []))
read_head-encode_head_example = read_head-encode_head written (1 ∷ 2 ∷ []) (record {
  method = omega arith;
  ver = omega arith;
  key_crc = omega arith;
  ttl = omega arith;
  tb_crc = omega arith;
  score = omega arith;
  opt = omega arith;
  total = omega arith;
})

abbrev asked : Args
asked = record { key = 107 ∷ []; tb = []; has_tb = false; key_in_body = false }

-- "host=h&method=3&key=k"
abbrev args : Bytes
args = format_binlog_args 3 asked (104 ∷ [])

get_param_val-format_binlog_args_example :
    (get_param_val 30 (in_memory (38 ∷ 116 ∷ []) args) host_name ≡ some (some (104 ∷ [])))
    × (get_param_val 30 (in_memory (38 ∷ 116 ∷ []) args) method_name ≡ some (some (decimal 3)))
    × (get_param_val 30 (in_memory (38 ∷ 116 ∷ []) args) tb_name ≡ some (tb_of asked))
    × (get_param_val 30 (in_memory (38 ∷ 116 ∷ []) args) key_name ≡ some (key_of asked))
get_param_val-format_binlog_args_example =
    get_param_val-format_binlog_args 30 (38 ∷ 116 ∷ []) 3 asked (104 ∷ []) (omega arith)
      (record { equals = refl; ampersand = refl }) tt (record { equals = refl; ampersand = refl })
      (unfold format_binlog_args decimal in omega arith)
