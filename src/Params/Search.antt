-- ===== src/Params/Search.antt =====
-- The search of `__match_key` as a walk over the bytes (ngx_http_utils_module.c).
use hustngx.Prelude.{
  ℕ, zero, suc, ◌+◌, ◌-◌, ◌≡◌, ◌<◌, ◌≤◌, refl, sym, ap, ◌∙◌, Bool, true, false, Option, none, some,
  [], ◌∷◌, leb, ◌==◌, if◌then◌else◌, length, drop, arith, inl, inr, Bool-cases, Option-cases,
}
use hustngx.Nginx.{Bytes}
use hustngx.Params.{starts_with, strstr, first_byte, match_loop, equals_sign}

-- One byte at a time; the first argument counts the bytes that are to be skipped.
abbrev pub walk : Bytes → ℕ → ℕ → ℕ → Bytes → Option ℕ
walk key len skip offset [] = none
walk key len (suc skip) offset (x ∷ hay) = walk key len skip (offset + 1) hay
walk key len zero offset (x ∷ hay) =
    let skipped = walk key len (length key - 1) (offset + 1) hay in
    let next = walk key len 0 (offset + 1) hay in
    if starts_with key (x ∷ hay)
    then if leb len (offset + length key)
      then none
      else if first_byte (drop (length key) (x ∷ hay)) == equals_sign
      then some offset
      else skipped
    else next

-- What the loop does where it finds the key.
abbrev at_match : Bytes → ℕ → ℕ → Bytes → Option ℕ
at_match key len offset hay =
    if leb len (offset + length key)
    then none
    else if first_byte (drop (length key) hay) == equals_sign
    then some offset
    else walk key len 0 (offset + length key) (drop (length key) hay)

walk_skips :
    (key : Bytes) (len n offset : ℕ) (hay : Bytes)
    → walk key len n offset hay ≡ walk key len 0 (offset + n) (drop n hay)
walk_skips key len zero offset [] = refl
walk_skips key len (suc n) offset [] = refl
walk_skips key len zero offset (x ∷ hay) = ap (λ o. walk key len 0 o (x ∷ hay)) (omega arith)
walk_skips key len (suc n) offset (x ∷ hay) =
    walk_skips key len n (offset + 1) hay ∙ ap (λ o. walk key len 0 o (drop n hay)) (omega arith)

skip_rest :
    (k : ℕ) (key : Bytes) (len offset : ℕ) (hay : Bytes)
    → walk (k ∷ key) len (length (k ∷ key) - 1) (offset + 1) hay
      ≡ walk (k ∷ key) len 0 (offset + length (k ∷ key)) (drop (length key) hay)
skip_rest k key len offset hay =
    let less : suc (length key) - 1 ≡ length key = omega arith in
    ap (λ n. walk (k ∷ key) len n (offset + 1) hay) less
    ∙ walk_skips (k ∷ key) len (length key) (offset + 1) hay
    ∙ ap (λ o. walk (k ∷ key) len 0 o (drop (length key) hay)) (omega arith)

-- A walk goes to the first occurrence.
walk-strstr :
    (k : ℕ) (key : Bytes) (len offset : ℕ) (hay : Bytes)
    → walk (k ∷ key) len 0 offset hay ≡ elim (strstr (k ∷ key) hay) [
      | none ↦ none
      | some i ↦ at_match (k ∷ key) len (offset + i) (drop i hay)
    ]
unfolding strstr
walk-strstr k key len offset [] = unfold starts_with in refl
walk-strstr k key len offset (x ∷ hay) = elim (Bool-cases (starts_with (k ∷ key) (x ∷ hay))) [
  | inl e ↦
      let here : offset + 0 ≡ offset = omega arith in
      rw (e, here, skip_rest k key len offset hay) refl
  | inr e ↦ elim (Option-cases (strstr (k ∷ key) hay)) [
    | inl f ↦ rw (e, f) (walk-strstr k key len (offset + 1) hay ∙ rw f refl)
    | inr (i, f) ↦
        rw (e, f)
          (walk-strstr k key len (offset + 1) hay
            ∙ rw f (ap (λ o. at_match (k ∷ key) len o (drop i hay)) (omega arith)))
  ]
]

drop_nil : (n : ℕ) → drop {A = ℕ} n [] ≡ []
drop_nil zero = refl
drop_nil (suc n) = refl

drop-drop : (i n : ℕ) (xs : Bytes) → drop n (drop i xs) ≡ drop (i + n) xs
drop-drop zero n xs = ap (λ m. drop m xs) (omega arith)
drop-drop (suc i) n [] = drop_nil n ∙ sym (drop_nil (suc i + n))
drop-drop (suc i) n (x ∷ xs) =
    let next : suc i + n ≡ suc (i + n) = omega arith in
    drop-drop i n xs ∙ ap (λ m. drop m (x ∷ xs)) (sym next)

length-drop_le : (n : ℕ) (xs : Bytes) → length (drop n xs) ≤ length xs
length-drop_le zero xs = omega arith
length-drop_le (suc n) [] = omega arith
length-drop_le (suc n) (x ∷ xs) = omega (arith, length-drop_le n xs)

length-drop_lt : (n x : ℕ) (xs : Bytes) → 0 < n → length (drop n (x ∷ xs)) ≤ length xs
length-drop_lt zero x xs p = absurd (omega arith)
length-drop_lt (suc n) x xs p = length-drop_le n xs

-- The loop finds what the walk finds; fuel above the number of bytes is enough.
pub match_loop-walk :
    (fuel k : ℕ) (key : Bytes) (len offset : ℕ) (hay : Bytes)
    → length hay < fuel
    → match_loop fuel (k ∷ key) len offset hay ≡ some (walk (k ∷ key) len 0 offset hay)
unfolding match_loop
match_loop-walk zero k key len offset hay p = absurd (omega (arith, p))
match_loop-walk (suc fuel) k key len offset [] p = unfold strstr starts_with in refl
match_loop-walk (suc fuel) k key len offset (x ∷ hay) p =
    elim (Option-cases (strstr (k ∷ key) (x ∷ hay))) [
      | inl e ↦
          rw (match_loop, e) (ap some (sym (walk-strstr k key len offset (x ∷ hay) ∙ rw e refl)))
      | inr (i, e) ↦
          let n = i + length (k ∷ key) in
          let later =
            match_loop-walk fuel k key len (offset + i + length (k ∷ key)) (drop n (x ∷ hay))
              (omega (arith, p, length-drop_lt n x hay (omega arith))) in
          let same_bytes = drop-drop i (length (k ∷ key)) (x ∷ hay) in
          rw (match_loop, e, later, walk-strstr k key len offset (x ∷ hay), e, same_bytes)
            (branches (leb len (offset + i + length (k ∷ key)))
              (first_byte (drop n (x ∷ hay)) == equals_sign) (offset + i)
              (walk (k ∷ key) len 0 (offset + i + length (k ∷ key)) (drop n (x ∷ hay))))
    ]
  where
    branches :
        (b c : Bool) (o : ℕ) (w : Option ℕ)
        → (if b then some none else if c then some (some o) else some w)
          ≡ some (if b then none else if c then some o else w)
    branches true c o w = refl
    branches false true o w = refl
    branches false false o w = refl
