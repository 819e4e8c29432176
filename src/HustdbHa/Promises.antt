-- ===== src/HustdbHa/Promises.antt =====
-- What the answers to a write promise (hustdb_ha_write_handler.c, hustdb_ha_write_binlog.c), and
-- writes to a table that hustdb_ha_table_def.c has built.
use hustngx.Prelude.{ℕ, ◌%◌, ◌≡◌, ◌<◌, Bool, true, false, Option, none, some, List, ◌∷◌, arith, ◌⊎◌}
use hustngx.Nginx.{Bytes}
use hustngx.CDict.Table.{Table}
use hustngx.HustdbHa.Table.{ℤ, Cell, Elem, done}
use hustngx.HustdbHa.Build.{Bucket, build_hash_table}
use hustngx.HustdbHa.Correct.{null_table, build_hash_table-serves}
use hustngx.HustdbHa.Write.{
  http_ok, WriteState, state_write_binlog, WriteCtx, Args, Outside, Action, run_subrequest,
  run_binlog, send_response, null_pointer, parsed, init_write_args, gen_subrequest, drive,
  get_writelist, parse_args,
}
use hustngx.HustdbHa.Answers.{Responds, drive-answers}

module _ {P : Type 0} where
  -- The server that a response names.
  abbrev named : P → Action P → P
  named d (send_response s v (some e)) = e
  named d (send_response s v none) = d
  named d (run_subrequest p) = d
  named d (run_binlog p b) = d
  named d null_pointer = d

  -- The log of this machine has the write for the server.
  abbrev pub Logged : Outside P → P → Type 0
  Logged o e = (o.has_value ≡ true) × (o.write_log e ≡ true)

  module _ (server : P → Bytes) (method : ℕ) (args : Args) where
    -- How a write that a response names a server for has been recorded for that server: in the
    -- binlog, by the request for the master that failed, or in the log of this machine.
    abbrev pub Recorded : WriteState → Option P → Outside P → P → Type 0
    Recorded st error_peer o e =
        ((st ≡ state_write_binlog) × (o.status ≡ http_ok) × (error_peer ≡ some e)) ⊎ Logged o e

    parse_args-init :
        (is_alive : P → Bool) (writelist : Bytes → List P) (has_tb : Bool) (key tb : Option Bytes)
        (c : WriteCtx P)
        → parse_args is_alive writelist has_tb key tb ≡ parsed c
        → (k : Bytes) × (init_write_args is_alive (writelist k) ≡ parsed c)
    unfolding parse_args
    parse_args-init is_alive writelist has_tb none tb c e = absurd (cc)
    parse_args-init is_alive writelist has_tb (some k) (some t) c e = (k, e)
    parse_args-init is_alive writelist true (some k) none c e = absurd (cc)
    parse_args-init is_alive writelist false (some k) none c e = (k, e)

    -- With a table of at least one cell that has been built into an empty one, a write whose
    -- parameters are accepted is answered after at most three subrequests, whatever they end with
    -- and whichever peers die in between, and no null pointer is followed on the way.
    pub drive-build_hash_table :
        (dict : Table P) (table_size : ℕ) (malloc realloc : Bool) (fuel room : ℕ)
        (items : List Elem) (table : ℕ → Cell P) (buckets : List (Bucket P))
        → build_hash_table dict table_size malloc realloc fuel room items
            (null_table dict table_size)
          ≡ done (table, buckets)
        → 0 < table_size
        → (is_alive : P → Bool) (ngx_hash_key : Bytes → ℕ) (has_tb : Bool) (key tb : Option Bytes)
          (c : WriteCtx P)
        → parse_args is_alive (get_writelist ngx_hash_key table_size table) has_tb key tb ≡ parsed c
        → (ngx_atoi : Bytes → ℤ) (o1 o2 o3 : Outside P) (os : List (Outside P))
        → Responds server ngx_atoi method args
            (drive server method args ngx_atoi (o1 ∷ o2 ∷ o3 ∷ os) (gen_subrequest c)).1
    unfolding get_writelist
    drive-build_hash_table dict table_size malloc realloc fuel room items table buckets built
          some_cells is_alive ngx_hash_key has_tb key tb c e ngx_atoi o1 o2 o3 os =
        let (k, init) =
          parse_args-init is_alive (get_writelist ngx_hash_key table_size table) has_tb key tb c
            e in
        let i = ngx_hash_key k % table_size in
        let within : i < table_size = omega (arith, some_cells) in
        drive-answers server ngx_atoi method args is_alive (table i).writelist c o1 o2 o3 os
          (build_hash_table-serves dict table_size malloc realloc fuel room items table buckets
            built i within).1
          init
