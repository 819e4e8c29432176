-- ===== src/Tests/Params.antt =====
-- Runs of the functions on query strings (ngx_http_utils_module.c).
use hustngx.Prelude.{◌≡◌, refl, some, [], ◌∷◌}
use hustngx.Nginx.{Bytes}
use hustngx.CDict.Table.{same}
use hustngx.Params.{
  starts_with, strstr, first_byte, match_loop, scan_end, match_key, get_param_val, own_str,
  append_arg, remove_first_param, remove_last_param, remove_mid_param, remove_param,
}
use hustngx.Params.Pairs.{Pairs}

program : Unit {0}
unfolding same starts_with strstr first_byte match_loop scan_end match_key get_param_val append_arg
    remove_first_param remove_last_param remove_mid_param remove_param
program = tt

-- "k"
abbrev name : Bytes
name = 107 ∷ []

-- "a=1&k=2"
abbrev two : Pairs
two = (97 ∷ [], 49 ∷ []) ∷ (name, 50 ∷ []) ∷ []

-- " HTTP"
abbrev protocol : Bytes
protocol = 32 ∷ 72 ∷ 84 ∷ 84 ∷ 80 ∷ []

-- "mk=3" has no parameter of that name, and yet its value is returned.
longer_name : get_param_val 9 (own_str (109 ∷ 107 ∷ 61 ∷ 51 ∷ [])) name ≡ some (some (51 ∷ []))
unfolding program
longer_name = refl

-- "k=2&" keeps its parameter, since nothing would be left behind the sign.
trailing_sign :
    remove_param 9 (own_str (107 ∷ 61 ∷ 50 ∷ 38 ∷ [])) name
    ≡ some (own_str (107 ∷ 61 ∷ 50 ∷ 38 ∷ []))
unfolding program
trailing_sign = refl
