-- ===== src/Tests/Dict.antt =====
-- Runs of c_dict.c.
use hustngx.Prelude.{ℕ, ◌≡◌, refl, true, false, none, some, [], ◌∷◌, arith, length, ◌≢◌}
use hustngx.Nginx.{Bytes}
use hustngx.CDict.Table.{
  Table, char_to_unsigned, hash_loop, c_dict_hash, same, init, newnode, matches, find, assign,
  unlink, bucket, at_bucket, bucketidx, addnode, push_chain, chain_all, zeroed, readd, resize, get,
  set, remove,
}
use hustngx.CDict.Laws.{IsValid, SetEffect, set-SetEffect}
use hustngx.CDict.Remove.{remove-others}

program : Unit {0}
unfolding char_to_unsigned hash_loop c_dict_hash same init newnode matches find assign unlink bucket
    at_bucket bucketidx addnode push_chain chain_all zeroed readd resize get set remove
program = tt

abbrev fresh : Table ℕ
fresh = init

abbrev first : Table ℕ
first = (set true true (97 ∷ []) 1 fresh).1

abbrev second : Table ℕ
second = (set true true (98 ∷ []) 2 first).1

abbrev third : Table ℕ
third = (set true true (99 ∷ []) 3 second).1

set-SetEffect_example : SetEffect (97 ∷ []) 1 fresh (set true true (97 ∷ []) 1 fresh)
unfolding init
set-SetEffect_example = set-SetEffect true true (97 ∷ []) 1 fresh tt (omega arith)

-- Two resizes have made four buckets.
grown : length third.buckets ≡ 4
unfolding program
grown = refl

found_first : get (97 ∷ []) third ≡ some 1
unfolding program
found_first = refl

-- The hash of one byte above 127 is that of a negative `char`.
hash_negative : c_dict_hash (200 ∷ []) ≡ 4294789741
unfolding program
hash_negative = refl

unlinked : get (98 ∷ []) (remove (98 ∷ []) third) ≡ none
unfolding program
unlinked = refl

kept_by_failure : get (97 ∷ []) (set true false (100 ∷ []) 4 second).1 ≡ some 1
unfolding program
kept_by_failure = refl

third-IsValid : IsValid third
unfolding program
third-IsValid = ((refl, tt), (tt, ((refl, tt), ((refl, tt), tt))))

remove-others_example :
    IsValid (remove (98 ∷ []) third)
    × ((k : Bytes) → k ≢ 98 ∷ [] → get k (remove (98 ∷ []) third) ≡ get k third)
remove-others_example = remove-others (98 ∷ []) third third-IsValid
