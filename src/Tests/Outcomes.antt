-- ===== src/Tests/Outcomes.antt =====
-- When the writers of ngx_shm_dict_writer.c succeed, in the concrete setting.
use hustngx.Prelude.{false, ◌+◌, ◌^◌, ◌<◌, ◌≡◌, true, refl, some, [], ◌∷◌, arith}
use hustngx.Tests.Setting.{setting}
use hustngx.Tests.Shm.{program, clock, soon, late, empty, alpha, empty-IsValid}
use hustngx.Shm.Node.{expires_at, to_ms}
use hustngx.Shm.Zone.{is_kept, is_stale}
use hustngx.Shm.Times.{expires_at-exact, expires_at_le}
use hustngx.Shm.Writer.{ok, Request}
use hustngx.Shm.Store
use hustngx.Shm.Outcomes.{set_absent}

-- A third key, set by `ngx_shm_dict_safe_set` at a time when `alpha` has expired.
abbrev put_gamma : Request
put_gamma = record {
  time = late;
  key = 99 ∷ [];
  value = some (1 ∷ 2 ∷ 3 ∷ []);
  value_type = 10;
  exptime = 0;
  user_flags = 0;
  flags = 4;
}

set_absent_example :
    ((Store.set setting soon alpha (some (some (1 ∷ []))) 10 0 0 empty).0 ≡ ok)
    × ((Store.safe_set setting soon alpha (some (some (1 ∷ []))) 10 0 0 empty).0 ≡ ok)
    × ((Store.add setting soon alpha (some (some (1 ∷ []))) 10 0 0 empty).0 ≡ ok)
    × ((Store.safe_add setting soon alpha (some (some (1 ∷ []))) 10 0 0 empty).0 ≡ ok)
unfolding program
set_absent_example =
    set_absent setting soon alpha (1 ∷ []) 10 0 0 empty empty-IsValid (omega arith) (omega arith)
      (omega arith) 4 (record { room = 4; used = 4 ∷ 2 ∷ 1 ∷ [] }) (λ b h. absurd (cc)) refl

expires_at-exact_example :
    (is_kept 1 (expires_at clock 5) (to_ms late) ≡ false)
    × (is_stale (expires_at clock 5) (to_ms late) ≡ true)
unfolding program
expires_at-exact_example =
    expires_at-exact clock late 5 (omega arith) (omega arith) (omega arith) (omega arith)

expires_at_le_example : expires_at clock 4294968 < 1000500 + 2 ^ 32
unfolding program
expires_at_le_example = expires_at_le clock 4294968 (omega arith) (omega arith)

-- A lifetime of 4294968 seconds is over in less than a second.
wrapped : expires_at clock 4294968 ≡ 1000500 + 704
unfolding program
wrapped = refl
