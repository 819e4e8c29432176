-- ===== src/Tests/Typed.antt =====
-- Runs of ngx_shm_dict_code.c and of the key lists of ngx_shm_dict.c in the concrete setting.
use hustngx.Prelude.{ℕ, ◌^◌, ◌+◌, ◌%◌, ◌≡◌, refl, some, List, arith}
use hustngx.Tests.Setting.{Blocks, setting}
use hustngx.Tests.Shm.{program, clock, soon, empty, alpha, beta, empty-IsValid}
use hustngx.Shm.Node.{Zone}
use hustngx.Shm.Valid.{IsValid}
use hustngx.Shm.Store.{store}
use hustngx.Shm.Typed.{
  uint16, code, width, from_number, to_number, get_number, modify, incr, decr, add_and_fetch,
  sub_and_fetch, poke, from_value, value_code, add_value, safe_add_value, replace_value, set_value,
  safe_set_value, get_string, get_binary, copy_bin,
}
use hustngx.Shm.Counters.{incr-store}

typed : Unit {0}
unfolding program code width from_number to_number get_number modify incr decr add_and_fetch
    sub_and_fetch poke from_value value_code add_value safe_add_value replace_value set_value
    safe_set_value get_string get_binary copy_bin
typed = tt

abbrev no_double : ℕ → ℕ → ℕ
no_double a b = 0

-- A 16-bit counter of 65530 under the key `alpha`.
abbrev counted : Zone (List ℕ) Blocks
counted =
    (store setting 0 clock alpha (some (some (from_number (width uint16) 65530))) (code uint16) 5 0
      empty).1

incr-store_example :
    let r = incr setting no_double uint16 soon alpha 10 5 counted in
    (r.0 ≡ some ((65530 + 10) % 256 ^ width uint16))
    × IsValid setting r.1
    × ((get_number setting uint16 soon alpha r.1).0 ≡ some ((65530 + 10) % 256 ^ width uint16))
unfolding typed
incr-store_example =
    incr-store setting no_double 0 uint16 65530 10 clock soon soon alpha 5 empty counted
      empty-IsValid (λ e. absurd (cc)) (omega arith) (omega arith) (omega arith) refl refl refl

counted_wraps : (incr setting no_double uint16 soon alpha 10 5 counted).0 ≡ some 4
unfolding typed
counted_wraps = refl

counted_down : (decr setting no_double uint16 soon alpha 1 5 counted).0 ≡ some 65529
unfolding typed
counted_down = refl

missing_set : (incr setting no_double uint16 soon beta 10 5 counted).0 ≡ some 10
unfolding typed
missing_set = refl
