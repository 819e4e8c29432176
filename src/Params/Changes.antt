-- ===== src/Params/Changes.antt =====
-- `ngx_http_append_arg` and `ngx_http_remove_param` on query strings (ngx_http_utils_module.c).
use hustngx.Prelude.{◌≡◌, refl, ap, List, [], ◌∷◌, ◌++◌, length}
use hustngx.Nginx.{Bytes}
use hustngx.Params.{Str}
use hustngx.Params.Pairs.{Pairs, print}

pub append_nil {ℓ} : {A : Type ℓ} (xs : List A) → xs ++ [] ≡ xs
append_nil [] = refl
append_nil (x ∷ xs) = ap (◌∷◌ x) (append_nil xs)

-- The arguments whose first `len` bytes are the pairs.
abbrev pub args_of : Pairs → Bytes → Str
args_of ps behind = record { bytes = print ps ++ behind; len = length (print ps) }

abbrev new_pair : Bytes → Bytes → Pairs
new_pair key val = (key, val) ∷ []
