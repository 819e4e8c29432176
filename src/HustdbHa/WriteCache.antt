-- ===== src/HustdbHa/WriteCache.antt =====
-- Writes to the caches of both masters: hustdb_ha_write_cache.c.
use hustngx.Prelude.{
  ℕ, zero, suc, ◌+◌, Bool, Option, none, some, List, [], ◌∷◌, ◌==◌, if◌then◌else◌,
}
use hustngx.Nginx.{Bytes}
use hustngx.HustdbHa.Write.{
  http_ok, http_not_found, WriteState, state_write_master1, state_write_master2, state_write_binlog,
  Parsed, parsed, unparsed, null_next, head_peer, init_write_args,
}

-- `hustdb_ha_write_cache_ctx_t`, with the response of its base.
pub record WriteCacheCtx (P : Type 0) : Type 0 where
  pub peer : List P
  pub state : WriteState
  pub error_count : ℕ
  pub error_peer : Option P
  pub response : Option Bytes

-- What a call of the handler ends with: a subrequest, a response with its body and the server under
-- the header `Fail`, NGX_ERROR, or a null pointer.
pub data CacheAction (P : Type 0) : Type 0 where
  run_subrequest : P → CacheAction P
  send_response : ℕ → Option Bytes → Option P → CacheAction P
  ngx_error : CacheAction P
  null_pointer : CacheAction P

-- What `__parse_cache_args` gives: a context, false, or a null pointer in the list of masters.
pub data CacheParsed (P : Type 0) : Type 0 where
  ready : WriteCacheCtx P → CacheParsed P
  refused : CacheParsed P
  null_list : CacheParsed P

-- How a master answers.
pub record Answer : Type 0 where
  pub status : ℕ
  pub body : Bytes

module _ {P : Type 0} where
  -- `__copy_args`, after `hustdb_ha_init_write_args`.
  unfoldable pub copy_args : Parsed P → CacheParsed P
  copy_args unparsed = refused
  copy_args null_next = null_list
  copy_args (parsed args) = ready (record {
    peer = args.peer;
    state = args.state;
    error_count = args.error_count;
    error_peer = args.error_peer;
    response = none;
  })

  -- `__parse_cache_args`: the parameter `key`, and whether the check passes.
  unfoldable pub parse_cache_args :
      (P → Bool) → (Bytes → List P) → Option Bytes → Bool → CacheParsed P
  parse_cache_args is_alive writelist none checked = refused
  parse_cache_args is_alive writelist (some key) checked =
      if checked then copy_args (init_write_args is_alive (writelist key)) else refused

  -- `__post_write_cache`
  unfoldable pub post_write_cache : Answer → WriteCacheCtx P → WriteCacheCtx P
  post_write_cache a ctx =
      if a.status == http_ok then record ctx { response = some a.body } else ctx

  -- `__update_cache_error`
  unfoldable pub update_cache_error : ℕ → WriteCacheCtx P → WriteCacheCtx P
  update_cache_error status ctx =
      if status == http_ok
      then ctx
      else record ctx { error_count = ctx.error_count + 1; error_peer = head_peer ctx.peer }

  module _ (is_alive : P → Bool) (add_field : Bool) where
    -- `__send_write_cache_response`
    unfoldable pub send_write_cache_response : WriteCacheCtx P → CacheAction P
    send_write_cache_response ctx =
        if ctx.error_count == 0
        then send_response http_ok ctx.response none
        else if ctx.error_count == 1
        then elim ctx.error_peer [
          | none ↦ null_pointer
          | some p ↦
              if add_field
              then send_response http_ok ctx.response (some p)
              else send_response http_not_found none none
        ]
        else send_response http_not_found none none

    -- `__on_write_cache_master1_complete`, when the first master's answer has been counted.
    unfoldable pub ask_second_cache : WriteCacheCtx P → WriteCacheCtx P × CacheAction P
    ask_second_cache ctx = elim ctx.peer [
      | [] ↦ (ctx, null_pointer)
      | p ∷ rest ↦ elim rest [
        | [] ↦ (ctx, null_pointer)
        | q ∷ more ↦
            if is_alive q
            then (record ctx { peer = q ∷ more; state = state_write_master2 }, run_subrequest q)
            else let failed = record ctx {
              peer = q ∷ more;
              error_count = ctx.error_count + 1;
              error_peer = some q;
            } in
              (failed, send_write_cache_response failed)
      ]
    ]

    -- `hustdb_ha_write_cache_handler`, when a subrequest has ended.
    unfoldable pub on_cache_event : Answer → WriteCacheCtx P → WriteCacheCtx P × CacheAction P
    on_cache_event a ctx =
        let counted = update_cache_error a.status (post_write_cache a ctx) in
        elim ctx.state [
          | state_write_master1 ↦ ask_second_cache counted
          | state_write_master2 ↦ (counted, send_write_cache_response counted)
          | state_write_binlog ↦ (ctx, ngx_error)
        ]

    -- The handler as subrequests end, for at most `n` of them.
    unfoldable pub drive_cache : ℕ → (P → Answer) → WriteCacheCtx P → CacheAction P → CacheAction P
    drive_cache zero answers ctx act = act
    drive_cache (suc n) answers ctx (send_response status body fail) =
        send_response status body fail
    drive_cache (suc n) answers ctx ngx_error = ngx_error
    drive_cache (suc n) answers ctx null_pointer = null_pointer
    drive_cache (suc n) answers ctx (run_subrequest p) =
        let next = on_cache_event (answers p) ctx in drive_cache n answers next.0 next.1

    -- `__post_cache_handler`
    unfoldable pub first_cache_request : WriteCacheCtx P → CacheAction P
    first_cache_request ctx = elim ctx.peer [ [] ↦ null_pointer | p ∷ rest ↦ run_subrequest p ]

    -- `__start_write_cache` with the parsed request, and all that follows.
    unfoldable pub start_write_cache : ℕ → (P → Answer) → CacheParsed P → CacheAction P
    start_write_cache n answers refused = send_response http_not_found none none
    start_write_cache n answers null_list = null_pointer
    start_write_cache n answers (ready ctx) = drive_cache n answers ctx (first_cache_request ctx)

    unfoldable pub write_cache :
        ℕ → (P → Answer) → (Bytes → List P) → Option Bytes → Bool → CacheAction P
    write_cache n answers writelist key checked =
        start_write_cache n answers (parse_cache_args is_alive writelist key checked)
