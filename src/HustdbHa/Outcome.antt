-- ===== src/HustdbHa/Outcome.antt =====
-- How a write to two masters ends (hustdb_ha_write_handler.c).
use hustngx.Prelude.{
  ℕ, ◌+◌, ◌≡◌, refl, ap, ◌∙◌, ◌&&◌, Option, none, some, List, [], ◌∷◌, ◌==◌, if◌then◌else◌, inl,
  inr, ◌⊎◌, Bool-cases, Option-cases,
}
use hustngx.Nginx.{Bytes}
use hustngx.HustdbHa.Table.{ℤ, int_lt}
use hustngx.HustdbHa.Write.{
  http_ok, http_not_found, WriteState, state_write_master1, state_write_binlog, WriteCtx, Args,
  Outside, Action, run_binlog, send_response, skip_error, format_binlog_args, started, head_peer,
  update_error, write_sync_data, write_binlog, post_write_data, on_subrequest_complete,
}

-- What the answer of a master comes to.
pub data Verdict : Type 0 where
  accepted : Verdict
  skipped : Verdict
  failed : Verdict

abbrev pub judge : ℕ → ℕ → Verdict
judge method status =
    if status == http_ok then accepted else if skip_error method status then skipped else failed

module _ {P : Type 0} where
  -- The larger version of the one that is held and the one that a peer answers.
  abbrev pub newer : (Bytes → ℤ) → Outside P → Option Bytes → Option Bytes
  newer ngx_atoi o held =
      if o.status == http_ok
      then elim o.reply_version [
        | none ↦ held
        | some val ↦ elim held [
          | none ↦ some val
          | some old ↦ if int_lt (ngx_atoi old) (ngx_atoi val) then some val else some old
        ]
      ]
      else held

  pub on_subrequest_complete-newer :
      (ngx_atoi : Bytes → ℤ) (o : Outside P) (c : WriteCtx P)
      → on_subrequest_complete ngx_atoi o c ≡ record c { version = newer ngx_atoi o c.version }
  unfolding on_subrequest_complete
  on_subrequest_complete-newer ngx_atoi o c = elim (Bool-cases (o.status == http_ok)) [
    | inr f ↦ rw f refl
    | inl f ↦ elim (Option-cases o.reply_version) [
      | inl g ↦ rw (f, g) refl
      | inr (val, g) ↦ elim (Option-cases c.version) [
        | inl h ↦ rw (f, g, h) refl
        | inr (old, h) ↦ elim (Bool-cases (int_lt (ngx_atoi old) (ngx_atoi val))) [
          | inl k ↦ rw (f, g, h, k) refl
          | inr k ↦ rw (f, g, h, k) (ap (λ v. record c { version = v }) h)
        ]
      ]
    ]
  ]

  -- The counters after a verdict on a master.
  abbrev pub counted : Verdict → P → WriteCtx P → WriteCtx P
  counted accepted p c = record c { health_peer = some p }
  counted skipped p c = record c { skip_error_count = c.skip_error_count + 1 }
  counted failed p c = record c { error_count = c.error_count + 1; error_peer = some p }

  pub update_error-counted :
      (method status : ℕ) (p : P) (rest : List P) (c : WriteCtx P)
      → c.peer ≡ p ∷ rest
      → update_error method status c ≡ counted (judge method status) p c
  unfolding update_error head_peer
  update_error-counted method status p rest c e = elim (Bool-cases (status == http_ok)) [
    | inl f ↦ rw (f, e) refl
    | inr f ↦ elim (Bool-cases (skip_error method status)) [
      | inl g ↦ rw (f, g) refl
      | inr g ↦ rw (f, g, e) refl
    ]
  ]

  module _ (server : P → Bytes) (method : ℕ) (args : Args) where
    -- The write is recorded for the server in the log of this machine.
    abbrev pub record_sync : Outside P → P → Option Bytes → Action P
    record_sync o error v =
        if o.has_value && o.write_log error && o.add_sync_head error
        then send_response http_ok v (some error)
        else send_response http_not_found none none

    -- The write is recorded for the server in the binlog of the other master, or in the log.
    abbrev pub record_binlog : Outside P → P → P → Option Bytes → Action P
    record_binlog o error health v =
        if o.is_alive health
        then run_binlog health (format_binlog_args method args (server error))
        else record_sync o error v

    -- What the verdicts on both masters lead to.
    abbrev pub decide : Outside P → Verdict → Verdict → P → P → Option Bytes → Action P
    decide o accepted accepted p q v = send_response http_ok v none
    decide o accepted failed p q v = record_binlog o q p v
    decide o failed accepted p q v = record_binlog o p q v
    decide o accepted skipped p q v = send_response http_not_found none none
    decide o skipped accepted p q v = send_response http_not_found none none
    decide o skipped skipped p q v = send_response http_not_found none none
    decide o skipped failed p q v = send_response http_not_found none none
    decide o failed skipped p q v = send_response http_not_found none none
    decide o failed failed p q v = send_response http_not_found none none

    -- The context in which the second master is asked, or found dead.
    abbrev pub asked_second : WriteState → Verdict → P → P → Option Bytes → WriteCtx P
    asked_second st v1 p q v =
        record (counted v1 p (started (p ∷ q ∷ []) state_write_master1 0 none)) {
          peer = q ∷ [];
          state = st;
          version = v;
        }

    -- Both masters have been counted.
    abbrev pub both_counted : WriteState → Verdict → Verdict → P → P → Option Bytes → WriteCtx P
    both_counted st v1 v2 p q v = counted v2 q (asked_second st v1 p q v)

    -- The handler has answered, or asks for a record in the binlog of a peer.
    abbrev pub Settles : WriteCtx P × Action P → Type 0
    Settles (c, a) =
        ((s : ℕ) × (v : Option Bytes) × (y : Option P) × (a ≡ send_response s v y))
        ⊎ ((h : P) × (b : Bytes) × (e : P) × (a ≡ run_binlog h b)
            × (c.state ≡ state_write_binlog)
            × (c.error_peer ≡ some e))

    pub write_sync_data-record_sync :
        (o : Outside P) (c : WriteCtx P) (e : P)
        → c.error_peer ≡ some e
        → write_sync_data o c ≡ record_sync o e c.version
    unfolding write_sync_data
    write_sync_data-record_sync o c e f = elim (Bool-cases o.has_value) [
      | inl g ↦ rw (g, f) refl
      | inr g ↦ rw g refl
    ]

    pub record_sync-answers :
        (o : Outside P) (e : P) (v : Option Bytes)
        → (s : ℕ) × (w : Option Bytes) × (y : Option P) × (record_sync o e v ≡ send_response s w y)
    record_sync-answers o e v =
        elim (Bool-cases (o.has_value && o.write_log e && o.add_sync_head e)) [
          | inl g ↦ (http_ok, v, some e, rw g refl)
          | inr g ↦ (http_not_found, none, none, rw g refl)
        ]

    pub write_binlog-record_binlog :
        (o : Outside P) (c : WriteCtx P) (e h : P)
        → c.error_peer ≡ some e
        → c.health_peer ≡ some h
        → ((write_binlog server method args o c).1 ≡ record_binlog o e h c.version)
          × Settles (write_binlog server method args o c)
    unfolding write_binlog write_sync_data
    write_binlog-record_binlog o c e h f g = elim (Bool-cases (o.is_alive h)) [
      | inl k ↦ (rw (g, k, f) refl, rw (g, k, f) (inr (h, _, e, refl, refl, f)))
      | inr k ↦
          let (s, w, y, sent) = record_sync-answers o e c.version in
          (
            rw (g, k) (write_sync_data-record_sync o c e f),
            rw (g, k) (inl (s, w, y, write_sync_data-record_sync o c e f ∙ sent)),
          )
    ]

    pub post_write_data-decide :
        (o : Outside P) (st : WriteState) (v1 v2 : Verdict) (p q : P) (v : Option Bytes)
        → ((post_write_data server method args o (both_counted st v1 v2 p q v)).1
            ≡ decide o v1 v2 p q v)
          × Settles (post_write_data server method args o (both_counted st v1 v2 p q v))
    unfolding post_write_data
    post_write_data-decide o st accepted accepted p q v = (refl, inl (http_ok, v, none, refl))
    post_write_data-decide o st accepted failed p q v =
        write_binlog-record_binlog o (both_counted st accepted failed p q v) q p refl refl
    post_write_data-decide o st failed accepted p q v =
        write_binlog-record_binlog o (both_counted st failed accepted p q v) p q refl refl
    post_write_data-decide o st accepted skipped p q v =
        (refl, inl (http_not_found, none, none, refl))
    post_write_data-decide o st skipped accepted p q v =
        (refl, inl (http_not_found, none, none, refl))
    post_write_data-decide o st skipped skipped p q v =
        (refl, inl (http_not_found, none, none, refl))
    post_write_data-decide o st skipped failed p q v =
        (refl, inl (http_not_found, none, none, refl))
    post_write_data-decide o st failed skipped p q v =
        (refl, inl (http_not_found, none, none, refl))
    post_write_data-decide o st failed failed p q v = (refl, inl (http_not_found, none, none, refl))
