-- ===== src/HustdbHa/Masters.antt =====
-- A write from the parsed request to its response (hustdb_ha_write_handler.c), for a key with two
-- masters.
use hustngx.Prelude.{
  ℕ, ◌≡◌, refl, ap, ◌∙◌, Bool, not, ◌&&◌, Option, none, List, [], ◌∷◌, if◌then◌else◌, inl, inr,
  Bool-cases,
}
use hustngx.Nginx.{Bytes}
use hustngx.HustdbHa.Table.{ℤ}
use hustngx.HustdbHa.Write.{
  WriteState, state_write_master1, state_write_master2, WriteCtx, Args, Outside, Action,
  run_subrequest, parsed, unparsed, null_next, started, post_write_data, on_write_master1_complete,
  on_write_master2_complete, ask_second, switch_state, on_event,
}
use hustngx.HustdbHa.Outcome.{
  Verdict, accepted, skipped, failed, judge, newer, counted, decide, asked_second, both_counted,
  on_subrequest_complete-newer, update_error-counted,
}

pub parsed-injective : {P : Type 0} (c d : WriteCtx P) → parsed c ≡ parsed d → c ≡ d
parsed-injective c d e = ap (λ r. elim r [ parsed x ↦ x | unparsed ↦ c | null_next ↦ c ]) e

module _ {P : Type 0} where
  -- The ends of subrequests that settle the verdicts on both masters.
  abbrev pub rounds : (P → Bool) → P → P → Outside P → Outside P → List (Outside P)
  rounds is_alive p q o1 o2 =
      if is_alive p
      then if o1.is_alive q && not o1.debug_sync then o1 ∷ o2 ∷ [] else o1 ∷ []
      else o1 ∷ []

module _ {P : Type 0} (server : P → Bytes) (ngx_atoi : Bytes → ℤ) (method : ℕ) (args : Args) where
  unfoldable pub event : Outside P → WriteCtx P → WriteCtx P × Action P
  event o c = on_event server method args ngx_atoi o c

  unfoldable pub post : Outside P → WriteCtx P → WriteCtx P × Action P
  post o c = post_write_data server method args o c

  unfoldable pub both : WriteState → Verdict → Verdict → P → P → Option Bytes → WriteCtx P
  both st v1 v2 p q v = both_counted server method args st v1 v2 p q v

  -- The second master has answered.
  pub second_answers :
      (o : Outside P) (v1 : Verdict) (p q : P) (v : Option Bytes)
      → event o (asked_second server method args state_write_master2 v1 p q v)
        ≡ post o (both state_write_master2 v1 (judge method o.status) p q (newer ngx_atoi o v))
  unfolding event post both on_event switch_state on_write_master2_complete
  second_answers o v1 p q v =
      ap (switch_state server method args o) (
        on_subrequest_complete-newer ngx_atoi o
          (asked_second server method args state_write_master2 v1 p q v))
      ∙ ap (post_write_data server method args o) (
          update_error-counted method o.status q []
            (asked_second server method args state_write_master2 v1 p q (newer ngx_atoi o v)) refl)

  unfoldable pub fresh : P → P → Option Bytes → WriteCtx P
  fresh p q v = record (started (p ∷ q ∷ []) state_write_master1 0 none) { version = v }

  unfoldable pub asked : Verdict → P → P → Option Bytes → WriteCtx P
  asked v1 p q v = asked_second server method args state_write_master2 v1 p q v

  -- The first master has been counted.
  ask_second-asked :
      (o : Outside P) (v1 : Verdict) (p q : P) (v : Option Bytes)
      → ask_second server method args o (counted v1 p (fresh p q v)) ≡ (
          if o.is_alive q && not o.debug_sync
          then (asked v1 p q v, run_subrequest q)
          else post o (both state_write_master1 v1 failed p q v))
  unfolding post both ask_second fresh asked
  ask_second-asked o accepted p q v = elim (Bool-cases (o.is_alive q && not o.debug_sync)) [
    | inl g ↦ rw g refl
    | inr g ↦ rw g refl
  ]
  ask_second-asked o skipped p q v = elim (Bool-cases (o.is_alive q && not o.debug_sync)) [
    | inl g ↦ rw g refl
    | inr g ↦ rw g refl
  ]
  ask_second-asked o failed p q v = elim (Bool-cases (o.is_alive q && not o.debug_sync)) [
    | inl g ↦ rw g refl
    | inr g ↦ rw g refl
  ]

  -- The first master has answered.
  pub first_answers :
      (o : Outside P) (p q : P)
      → event o (started (p ∷ q ∷ []) state_write_master1 0 none) ≡ (
          if o.is_alive q && not o.debug_sync
          then (asked (judge method o.status) p q (newer ngx_atoi o none), run_subrequest q)
          else post o
              (both state_write_master1 (judge method o.status) failed p q (newer ngx_atoi o none)))
  unfolding event on_event switch_state on_write_master1_complete fresh
  first_answers o p q =
      ap (switch_state server method args o)
        (on_subrequest_complete-newer ngx_atoi o (started (p ∷ q ∷ []) state_write_master1 0 none))
      ∙ ap (ask_second server method args o)
          (update_error-counted method o.status p (q ∷ []) (fresh p q (newer ngx_atoi o none)) refl)
      ∙ ask_second-asked o (judge method o.status) p q (newer ngx_atoi o none)

  -- What they lead to. A master that is dead has failed.
  abbrev pub conclusion : (P → Bool) → P → P → Outside P → Outside P → Action P
  conclusion is_alive p q o1 o2 =
      let first = newer ngx_atoi o1 none in
      if is_alive p
      then if o1.is_alive q && not o1.debug_sync
        then decide server method args o2 (judge method o1.status) (judge method o2.status) p q
            (newer ngx_atoi o2 first)
        else decide server method args o1 (judge method o1.status) failed p q first
      else decide server method args o1 failed (judge method o1.status) p q first
