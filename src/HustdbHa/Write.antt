-- ===== src/HustdbHa/Write.antt =====
-- Writes to the two masters of a key: hustdb_ha_write_args.c, hustdb_ha_write_handler.c and the
-- parts of hustdb_ha_write_binlog.c and hustdb_ha_handler_base.c that they call. The lookup of
-- hustdb_ha_table_vars.c.
use hustngx.Prelude.{
  ℕ, ◌+◌, ◌/◌, ◌%◌, Bool, false, not, ◌&&◌, ◌||◌, Option, none, some, List, [], ◌∷◌, ◌++◌, ltb,
  ◌==◌, if◌then◌else◌,
}
use hustngx.Nginx.{Bytes}
use hustngx.HustdbHa.Table.{ℤ, int_lt, Cell}

abbrev pub http_ok : ℕ
http_ok = 200

abbrev pub http_not_found : ℕ
http_not_found = 404

abbrev pub http_precondition_failed : ℕ
http_precondition_failed = 412

-- `HUSTDB_METHOD_PUT` and the others
abbrev pub method_del : ℕ
method_del = 2

abbrev pub method_hset : ℕ
method_hset = 3

abbrev pub method_hdel : ℕ
method_hdel = 4

abbrev pub method_sadd : ℕ
method_sadd = 5

abbrev pub method_srem : ℕ
method_srem = 6

abbrev pub method_zadd : ℕ
method_zadd = 7

abbrev pub method_zrem : ℕ
method_zrem = 8

-- `hustdb_write_state_t`
pub data WriteState : Type 0 where
  state_write_master1 : WriteState
  state_write_master2 : WriteState
  state_write_binlog : WriteState

-- `hustdb_ha_write_ctx_t`, with the fields of its base that steer a write. A pointer into the list
-- of masters is the list from there on, and a null pointer is empty or missing.
pub record WriteCtx (P : Type 0) : Type 0 where
  pub peer : List P
  pub state : WriteState
  pub error_count : ℕ
  pub skip_error_count : ℕ
  pub error_peer : Option P
  pub health_peer : Option P
  pub version : Option Bytes

-- The parameters of the request.
pub record Args : Type 0 where
  pub key : Bytes
  pub tb : Bytes
  pub has_tb : Bool
  pub key_in_body : Bool

-- What a call of the handler sees when a subrequest has ended: its status and its version, which
-- peers are alive, the configuration, whether there is a value to log, and whether the log and the
-- headers take what is added.
pub record Outside (P : Type 0) : Type 0 where
  pub status : ℕ
  pub reply_version : Option Bytes
  pub is_alive : P → Bool
  pub debug_sync : Bool
  pub has_value : Bool
  pub write_log : P → Bool
  pub add_sync_head : P → Bool

-- What a call of the handler ends with: a subrequest to a master, a subrequest to the binlog of a
-- peer, a response with its version and the server under the header `Sync`, or a null pointer.
pub data Action (P : Type 0) : Type 0 where
  run_subrequest : P → Action P
  run_binlog : P → Bytes → Action P
  send_response : ℕ → Option Bytes → Option P → Action P
  null_pointer : Action P

-- How parsing ends.
pub data Parsed (P : Type 0) : Type 0 where
  parsed : WriteCtx P → Parsed P
  unparsed : Parsed P
  null_next : Parsed P

-- `__match_method`
unfoldable pub match_method : List ℕ → ℕ → Bool
match_method [] method = false
match_method (m ∷ rest) method = method == m || match_method rest method

unfoldable pub skip_not_found_error : ℕ → ℕ → Bool
skip_not_found_error method status =
    status == http_not_found
    && match_method (method_del ∷ method_hdel ∷ method_srem ∷ method_zrem ∷ []) method

unfoldable pub skip_precondition_error : ℕ → ℕ → Bool
skip_precondition_error method status =
    status == http_precondition_failed
    && match_method
        (method_del ∷ method_hdel ∷ method_srem ∷ method_zrem ∷ method_hset ∷ method_sadd
          ∷ method_zadd ∷ [])
        method

unfoldable pub skip_error : ℕ → ℕ → Bool
skip_error method status =
    skip_precondition_error method status || skip_not_found_error method status

-- `%d` of a number below 256.
unfoldable pub decimal : ℕ → Bytes
decimal n =
    if ltb n 10
    then (48 + n) ∷ []
    else if ltb n 100
    then (48 + n / 10) ∷ (48 + n % 10) ∷ []
    else (48 + n / 100) ∷ (48 + n / 10 % 10) ∷ (48 + n % 10) ∷ []

-- `__format_binlog_args`: "host=", "&method=", "&tb=", "&key="
unfoldable pub format_binlog_args : ℕ → Args → Bytes → Bytes
format_binlog_args method args host =
    (104 ∷ 111 ∷ 115 ∷ 116 ∷ 61 ∷ [])
    ++ host
    ++ (38 ∷ 109 ∷ 101 ∷ 116 ∷ 104 ∷ 111 ∷ 100 ∷ 61 ∷ [])
    ++ decimal method
    ++ (if args.has_tb then (38 ∷ 116 ∷ 98 ∷ 61 ∷ []) ++ args.tb else [])
    ++ (if args.key_in_body then [] else (38 ∷ 107 ∷ 101 ∷ 121 ∷ 61 ∷ []) ++ args.key)

module _ {P : Type 0} where
  abbrev pub started : List P → WriteState → ℕ → Option P → WriteCtx P
  started peer state error_count error_peer = record {
    peer = peer;
    state = state;
    error_count = error_count;
    skip_error_count = 0;
    error_peer = error_peer;
    health_peer = none;
    version = none;
  }

  -- `hustdb_ha_init_write_args` for a list of masters.
  unfoldable pub init_write_args : (P → Bool) → List P → Parsed P
  init_write_args is_alive [] = unparsed
  init_write_args is_alive (p ∷ rest) =
      if is_alive p then parsed (started (p ∷ rest) state_write_master1 0 none) else elim rest [
        | [] ↦ null_next
        | q ∷ rest' ↦
            if is_alive q
            then parsed (started (q ∷ rest') state_write_master2 1 (some p))
            else unparsed
      ]

  -- `hustdb_ha_get_writelist` and `hustdb_ha_get_readlist`, with the hash of nginx.
  unfoldable pub get_writelist : (Bytes → ℕ) → ℕ → (ℕ → Cell P) → Bytes → List P
  get_writelist ngx_hash_key table_size table key =
      (table (ngx_hash_key key % table_size)).writelist

  unfoldable pub get_readlist : (Bytes → ℕ) → ℕ → (ℕ → Cell P) → Bytes → List P
  get_readlist ngx_hash_key table_size table key = (table (ngx_hash_key key % table_size)).readlist

  -- `hustdb_ha_parse_args`: `key` and `tb` are the parameters of the request.
  unfoldable pub parse_args :
      (P → Bool) → (Bytes → List P) → Bool → Option Bytes → Option Bytes → Parsed P
  parse_args is_alive writelist has_tb none tb = unparsed
  parse_args is_alive writelist has_tb (some key) (some tb) =
      init_write_args is_alive (writelist key)
  parse_args is_alive writelist has_tb (some key) none =
      if has_tb then unparsed else init_write_args is_alive (writelist key)

  unfoldable pub head_peer : List P → Option P
  head_peer [] = none
  head_peer (p ∷ rest) = some p

  -- The first subrequest, which `hustdb_ha_start_del` and `__post_handler` send.
  unfoldable pub gen_subrequest : WriteCtx P → WriteCtx P × Action P
  gen_subrequest ctx = elim ctx.peer [
    | [] ↦ (ctx, null_pointer)
    | p ∷ rest ↦ (ctx, run_subrequest p)
  ]

  -- `__update_error`
  unfoldable pub update_error : ℕ → ℕ → WriteCtx P → WriteCtx P
  update_error method status ctx =
      if status == http_ok
      then record ctx { health_peer = head_peer ctx.peer }
      else if skip_error method status
      then record ctx { skip_error_count = ctx.skip_error_count + 1 }
      else record ctx { error_count = ctx.error_count + 1; error_peer = head_peer ctx.peer }

  -- `hustdb_ha_write_sync_data`
  unfoldable pub write_sync_data : Outside P → WriteCtx P → Action P
  write_sync_data o ctx =
      if not o.has_value then send_response http_not_found none none else elim ctx.error_peer [
        | none ↦ null_pointer
        | some server ↦
            if o.write_log server && o.add_sync_head server
            then send_response http_ok ctx.version (some server)
            else send_response http_not_found none none
      ]

  -- `hustdb_ha_on_subrequest_complete`, as far as it changes the version.
  unfoldable pub on_subrequest_complete : (Bytes → ℤ) → Outside P → WriteCtx P → WriteCtx P
  on_subrequest_complete ngx_atoi o ctx =
      if o.status == http_ok
      then elim o.reply_version [
        | none ↦ ctx
        | some val ↦ elim ctx.version [
          | none ↦ record ctx { version = some val }
          | some old ↦
              if int_lt (ngx_atoi old) (ngx_atoi val)
              then record ctx { version = some val }
              else ctx
        ]
      ]
      else ctx

  module _ (server : P → Bytes) (method : ℕ) (args : Args) where
    -- `hustdb_ha_write_binlog`
    unfoldable pub write_binlog : Outside P → WriteCtx P → WriteCtx P × Action P
    write_binlog o ctx = elim ctx.health_peer [
      | none ↦ (ctx, null_pointer)
      | some health ↦
          if not (o.is_alive health) then (ctx, write_sync_data o ctx) else elim ctx.error_peer [
            | none ↦ (ctx, null_pointer)
            | some error ↦ (
              record ctx { state = state_write_binlog },
              run_binlog health (format_binlog_args method args (server error)),
            )
          ]
    ]

    -- `__post_write_data`
    unfoldable pub post_write_data : Outside P → WriteCtx P → WriteCtx P × Action P
    post_write_data o ctx =
        if ctx.skip_error_count == 0 && ctx.error_count == 1
        then write_binlog o ctx
        else if ctx.skip_error_count == 0 && ctx.error_count == 0
        then (ctx, send_response http_ok ctx.version none)
        else (ctx, send_response http_not_found none none)

    -- The rest of `__on_write_master1_complete`, when the answer of the first master has been counted.
    unfoldable pub ask_second : Outside P → WriteCtx P → WriteCtx P × Action P
    ask_second o ctx = elim ctx.peer [
      | [] ↦ (ctx, null_pointer)
      | p ∷ rest ↦ elim rest [
        | [] ↦ (ctx, null_pointer)
        | q ∷ more ↦
            if o.is_alive q && not o.debug_sync
            then (record ctx { peer = q ∷ more; state = state_write_master2 }, run_subrequest q)
            else post_write_data o (record ctx {
              peer = q ∷ more;
              error_count = ctx.error_count + 1;
              error_peer = some q;
            })
      ]
    ]

    -- `__on_write_master1_complete`
    unfoldable pub on_write_master1_complete : Outside P → WriteCtx P → WriteCtx P × Action P
    on_write_master1_complete o ctx = ask_second o (update_error method o.status ctx)

    -- `__on_write_master2_complete`
    unfoldable pub on_write_master2_complete : Outside P → WriteCtx P → WriteCtx P × Action P
    on_write_master2_complete o ctx = post_write_data o (update_error method o.status ctx)

    -- `__on_write_binlog_complete`
    unfoldable pub on_write_binlog_complete : Outside P → WriteCtx P → WriteCtx P × Action P
    on_write_binlog_complete o ctx =
        if not (o.status == http_ok) then (ctx, write_sync_data o ctx) else elim ctx.error_peer [
          | none ↦ (ctx, null_pointer)
          | some error ↦
              if o.add_sync_head error
              then (ctx, send_response http_ok ctx.version (some error))
              else (ctx, send_response http_not_found none none)
        ]

    -- `__switch_state`
    unfoldable pub switch_state : Outside P → WriteCtx P → WriteCtx P × Action P
    switch_state o ctx = elim ctx.state [
      | state_write_master1 ↦ on_write_master1_complete o ctx
      | state_write_master2 ↦ on_write_master2_complete o ctx
      | state_write_binlog ↦ on_write_binlog_complete o ctx
    ]

    -- A subrequest has ended: its callback, and the handler.
    unfoldable pub on_event : (Bytes → ℤ) → Outside P → WriteCtx P → WriteCtx P × Action P
    on_event ngx_atoi o ctx = switch_state o (on_subrequest_complete ngx_atoi o ctx)

    -- The handler over the ends of subrequests, as long as it asks for one.
    unfoldable pub drive :
        (Bytes → ℤ) → List (Outside P) → WriteCtx P × Action P → WriteCtx P × Action P
    drive ngx_atoi [] x = x
    drive ngx_atoi (o ∷ rest) (ctx, run_subrequest p) =
        drive ngx_atoi rest (on_event ngx_atoi o ctx)
    drive ngx_atoi (o ∷ rest) (ctx, run_binlog p a) = drive ngx_atoi rest (on_event ngx_atoi o ctx)
    drive ngx_atoi (o ∷ rest) (ctx, send_response s v y) = (ctx, send_response s v y)
    drive ngx_atoi (o ∷ rest) (ctx, null_pointer) = (ctx, null_pointer)
