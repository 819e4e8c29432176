-- ===== src/Tests/Writes.antt =====
-- Runs of writes to two masters.
use hustngx.Prelude.{ℕ, ◌≡◌, refl, true, false, none, some, [], ◌∷◌, arith}
use hustngx.Nginx.{Bytes}
use hustngx.HustdbHa.Table.{ℤ, pos}
use hustngx.HustdbHa.Write.{
  state_write_master1, state_write_master2, WriteCtx, Args, Outside, run_binlog, send_response,
  parsed, match_method, skip_not_found_error, skip_precondition_error, skip_error, decimal,
  format_binlog_args, started, init_write_args, gen_subrequest, head_peer, update_error,
  write_sync_data, write_binlog, post_write_data, ask_second, on_write_master1_complete,
  on_write_master2_complete, on_write_binlog_complete, switch_state, on_subrequest_complete,
  on_event, drive, get_writelist, parse_args,
}
use hustngx.HustdbHa.Answers.{Responds}
use hustngx.HustdbHa.Promises.{drive-build_hash_table}
use hustngx.Tests.Hustdb.{dict, shrinking, cells, buckets, result, shrinking_done}

program : Unit {0}
unfolding match_method skip_not_found_error skip_precondition_error skip_error decimal
    format_binlog_args init_write_args gen_subrequest head_peer update_error write_sync_data
    write_binlog post_write_data ask_second on_write_master1_complete on_write_master2_complete
    on_write_binlog_complete switch_state on_subrequest_complete on_event drive get_writelist
    parse_args
program = tt

abbrev server : ℕ → Bytes
server n = n ∷ []

abbrev ngx_atoi : Bytes → ℤ
ngx_atoi [] = pos 0
ngx_atoi (b ∷ rest) = pos b

abbrev args : Args
args = record { key = 107 ∷ []; tb = 116 ∷ []; has_tb = true; key_in_body = false }

abbrev answer : ℕ → Outside ℕ
answer status = record {
  status = status;
  reply_version = some (5 ∷ []);
  is_alive = λ p. true;
  debug_sync = false;
  has_value = true;
  write_log = λ p. true;
  add_sync_head = λ p. true;
}

abbrev first : WriteCtx ℕ
first = started (1 ∷ 2 ∷ []) state_write_master1 0 none

-- The second master fails: the first one gets the record of the write for its binlog.
logged_at_first :
    (drive server 1 args ngx_atoi (answer 200 ∷ answer 500 ∷ []) (gen_subrequest first)).1
    ≡ run_binlog 1 (
        104 ∷ 111 ∷ 115 ∷ 116 ∷ 61 ∷ 2 ∷ 38 ∷ 109 ∷ 101 ∷ 116 ∷ 104 ∷ 111 ∷ 100 ∷ 61 ∷ 49 ∷ 38 ∷ 116
        ∷ 98 ∷ 61 ∷ 116 ∷ 38 ∷ 107 ∷ 101 ∷ 121 ∷ 61 ∷ 107 ∷ [])
unfolding program
logged_at_first = refl

-- A delete that one master has and the other one does not know is refused.
half_deleted :
    (drive server 2 args ngx_atoi (answer 404 ∷ answer 200 ∷ []) (gen_subrequest first)).1
    ≡ send_response 404 none none
unfolding program
half_deleted = refl

-- The second master is asked when the first one was dead, and then the log of this machine is used.
abbrev second : WriteCtx ℕ
second = started (2 ∷ []) state_write_master2 1 (some 1)

abbrev lonely : Outside ℕ
lonely = record (answer 200) { is_alive = λ p. false }

abbrev hash : Bytes → ℕ
hash key = 1

abbrev parsed_ctx : WriteCtx ℕ
parsed_ctx = started (2 ∷ 3 ∷ []) state_write_master1 0 none

parses :
    parse_args
      (λ p. true)
      (get_writelist hash 4 (cells (result shrinking)))
      true
      (some (107 ∷ []))
      (some (116 ∷ []))
    ≡ parsed parsed_ctx
unfolding program hustngx.Tests.Hustdb.program
parses = refl

drive-build_hash_table_example :
    Responds server ngx_atoi 1 args
      (drive server 1 args ngx_atoi
        (answer 200 ∷ answer 500 ∷ answer 200 ∷ [])
        (gen_subrequest parsed_ctx)).1
drive-build_hash_table_example =
    drive-build_hash_table server 1 args dict 4 true true 9 100 shrinking (cells (result shrinking))
      (buckets (result shrinking)) shrinking_done (omega arith) (λ p. true) hash true
      (some (107 ∷ [])) (some (116 ∷ [])) parsed_ctx parses ngx_atoi (answer 200) (answer 500)
      (answer 200) []
