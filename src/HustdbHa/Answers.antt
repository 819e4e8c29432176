-- ===== src/HustdbHa/Answers.antt =====
-- How many steps the answer to a write takes (hustdb_ha_write_handler.c).
use hustngx.Prelude.{
  ℕ, ◌≡◌, refl, ◌∙◌, Bool, not, ◌&&◌, Option, none, some, List, [], ◌∷◌, ◌==◌, length, arith, inl,
  inr, Bool-cases,
}
use hustngx.Nginx.{Bytes}
use hustngx.HustdbHa.Table.{ℤ}
use hustngx.HustdbHa.Write.{
  http_ok, http_not_found, state_write_master1, state_write_master2, state_write_binlog, WriteCtx,
  Args, Outside, Action, send_response, parsed, started, init_write_args, gen_subrequest,
  write_sync_data, on_write_binlog_complete, switch_state, on_event, drive,
}
use hustngx.HustdbHa.Outcome.{
  Verdict, failed, judge, newer, Settles, on_subrequest_complete-newer, write_sync_data-record_sync,
  record_sync-answers, post_write_data-decide,
}
use hustngx.HustdbHa.Masters.{
  event, post, both, asked, first_answers, second_answers, parsed-injective,
}

module _ {P : Type 0} (server : P → Bytes) (ngx_atoi : Bytes → ℤ) (method : ℕ) (args : Args) where
  -- The handler has sent a response.
  abbrev pub Responds : Action P → Type 0
  Responds a = (s : ℕ) × (v : Option Bytes) × (y : Option P) × (a ≡ send_response s v y)

  drive_stays :
      (os : List (Outside P)) (x : WriteCtx P × Action P)
      → Responds x.1
      → Responds (drive server method args ngx_atoi os x).1
  unfolding drive
  drive_stays [] x r = r
  drive_stays (o ∷ os) (c, a) (s, v, y, e) = (s, v, y, rw e refl)

  binlog_answers :
      (o : Outside P) (c : WriteCtx P) (e : P)
      → c.state ≡ state_write_binlog
      → c.error_peer ≡ some e
      → Responds (switch_state server method args o c).1
  unfolding switch_state on_write_binlog_complete write_sync_data
  binlog_answers o c e f g = elim (Bool-cases (o.status == http_ok)) [
    | inr h ↦
        let (s, w, y, sent) = record_sync-answers server method args o e c.version in
        (s, w, y, rw (f, h) (write_sync_data-record_sync server method args o c e g ∙ sent))
    | inl h ↦ elim (Bool-cases (o.add_sync_head e)) [
      | inl k ↦ (http_ok, c.version, some e, rw (f, h, g, k) refl)
      | inr k ↦ (http_not_found, none, none, rw (f, h, g, k) refl)
    ]
  ]

  Settles-answers :
      (o : Outside P) (os : List (Outside P)) (x : WriteCtx P × Action P)
      → Settles server method args x
      → Responds (drive server method args ngx_atoi (o ∷ os) x).1
  unfolding drive on_event
  Settles-answers o os (c, a) (inl r) = drive_stays (o ∷ os) (c, a) r
  Settles-answers o os (c, a) (inr (h, b, e, f, g, k)) = rw f (
      drive_stays os (on_event server method args ngx_atoi o c) (
        rw (on_subrequest_complete-newer ngx_atoi o c)
          (binlog_answers o (record c { version = newer ngx_atoi o c.version }) e g k)))

  -- After three subrequests a write to two masters has been answered.
  pub drive-answers :
      (is_alive : P → Bool) (masters : List P) (c : WriteCtx P) (o1 o2 o3 : Outside P)
      (os : List (Outside P))
      → length masters ≡ 2
      → init_write_args is_alive masters ≡ parsed c
      → Responds (drive server method args ngx_atoi (o1 ∷ o2 ∷ o3 ∷ os) (gen_subrequest c)).1
  unfolding init_write_args gen_subrequest drive event post both asked
  drive-answers is_alive [] c o1 o2 o3 os n e = absurd (omega (arith, n))
  drive-answers is_alive (p ∷ []) c o1 o2 o3 os n e = absurd (omega (arith, n))
  drive-answers is_alive (p ∷ q ∷ m ∷ rest) c o1 o2 o3 os n e = absurd (omega (arith, n))
  drive-answers is_alive (p ∷ q ∷ []) c o1 o2 o3 os n e = elim (Bool-cases (is_alive p)) [
    | inl f ↦
        let c' : started (p ∷ q ∷ []) state_write_master1 0 none ≡ c =
          parsed-injective _ _ (rw f at e) in
        rw (← c') (first_alive p q)
    | inr f ↦ elim (Bool-cases (is_alive q)) [
      | inr g ↦ absurd (cc (rw (f, g) at e))
      | inl g ↦
          let c' : started (q ∷ []) state_write_master2 1 (some p) ≡ c =
            parsed-injective _ _ (rw (f, g) at e) in
          rw (← c') (after_second o1 failed p q none (o2 ∷ o3 ∷ os) o2 (o3 ∷ os) refl)
    ]
  ]
    where
      after_second :
          (o : Outside P) (v1 : Verdict) (p q : P) (v : Option Bytes) (os : List (Outside P))
          (o' : Outside P) (rest : List (Outside P))
          → os ≡ o' ∷ rest
          → Responds
              (drive server method args ngx_atoi os (
                event server ngx_atoi method args o (asked server ngx_atoi method args v1 p q v))).1
      after_second o v1 p q v os o' rest h =
          rw (h, second_answers server ngx_atoi method args o v1 p q v)
            (Settles-answers o' rest _
              (post_write_data-decide server method args o state_write_master2 v1
                (judge method o.status) p q (newer ngx_atoi o v)).1)

      first_alive :
          (p q : P)
          → Responds
              (drive server method args ngx_atoi (o2 ∷ o3 ∷ os) (
                event server ngx_atoi method args o1
                  (started (p ∷ q ∷ []) state_write_master1 0 none))).1
      first_alive p q = elim (Bool-cases (o1.is_alive q && not o1.debug_sync)) [
        | inl g ↦
            rw (first_answers server ngx_atoi method args o1 p q, g)
              (after_second o2 (judge method o1.status) p q (newer ngx_atoi o1 none) (o3 ∷ os) o3 os
                refl)
        | inr g ↦
            rw (first_answers server ngx_atoi method args o1 p q, g)
              (Settles-answers o2 (o3 ∷ os) _
                (post_write_data-decide server method args o1 state_write_master1
                  (judge method o1.status) failed p q (newer ngx_atoi o1 none)).1)
      ]
