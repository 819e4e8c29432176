-- ===== src/Tests/Cache.antt =====
-- Runs of hustdb_ha_write_cache.c.
use hustngx.Prelude.{ℕ, ◌≡◌, refl, true, some, List, [], ◌∷◌, ◌==◌, if◌then◌else◌}
use hustngx.Nginx.{Bytes}
use hustngx.HustdbHa.Write.{http_ok, http_not_found}
use hustngx.HustdbHa.WriteCache.{send_response, Answer, write_cache}
use hustngx.HustdbHa.Cached.{write_cache-verdict}

-- The masters 1 and 2 of every key.
abbrev two_masters : Bytes → List ℕ
two_masters key = 1 ∷ 2 ∷ []

-- The second master does not find the key.
abbrev second_fails : ℕ → Answer
second_fails p = record { status = if p == 2 then http_not_found else http_ok; body = p ∷ [] }

write_cache-verdict_example :
    write_cache (λ p. true) true 2 second_fails two_masters (some (107 ∷ [])) true
    ≡ send_response http_ok (some (1 ∷ [])) (some 2)
write_cache-verdict_example =
    write_cache-verdict (λ p. true) true second_fails two_masters (107 ∷ []) 1 2 refl
