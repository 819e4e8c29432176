-- ===== src/Params/Walk.antt =====
-- The search of `__match_key` over the pairs of a query string (ngx_http_utils_module.c).
use hustngx.Prelude.{
  ℕ, zero, suc, ◌+◌, ◌-◌, ◌≡◌, ◌≢◌, ◌<◌, ◌≤◌, refl, ap, ◌∙◌, Bool, true, false, ◌||◌, none, some,
  [], ◌∷◌, ◌++◌, leb, ◌==◌, ==_iff, length, drop, mem, arith, inl, inr, Bool-cases,
}
use hustngx.Nginx.{Bytes}
use hustngx.CDict.Table.{same}
use hustngx.Params.{starts_with, first_byte, equals_sign}
use hustngx.Params.Search.{walk}

-- Behind the end of the string nothing is found.
walk_behind :
    (key : Bytes) (len skip offset : ℕ) (hay : Bytes)
    → len ≤ offset
    → walk key len skip offset hay ≡ none
walk_behind key len skip offset [] p = refl
walk_behind key len (suc skip) offset (x ∷ hay) p =
    walk_behind key len skip (offset + 1) hay (omega (arith, p))
walk_behind key len zero offset (x ∷ hay) p = elim (Bool-cases (starts_with key (x ∷ hay))) [
  | inl e ↦ let past : leb len (offset + length key) ≡ true = ground arith in rw (e, past) refl
  | inr e ↦ rw e (walk_behind key len zero (offset + 1) hay (omega (arith, p)))
]

-- A key that has not the byte `c` and starts in `q`, which `c` follows, ends in `q`.
starts_with-bound :
    (key q : Bytes) (c : ℕ) (rest : Bytes)
    → mem c key ≡ false
    → starts_with key (q ++ c ∷ rest) ≡ true
    → length key ≤ length q
unfolding starts_with
starts_with-bound [] q c rest m e = omega arith
starts_with-bound (k ∷ key) [] c rest m e = absurd (ground arith)
starts_with-bound (k ∷ key) (x ∷ q) c rest m e =
    let later = starts_with-bound key q c rest (ground arith) (ground arith) in omega (arith, later)

-- The key, with the sign behind it, starts nowhere in `q`.
abbrev pub IsFree : Bytes → Bytes → Bytes → Type 0
IsFree key [] rest = Unit
IsFree key (x ∷ q) rest =
    ((starts_with key (x ∷ (q ++ rest)) ≡ true
      → (first_byte (drop (length key) (x ∷ (q ++ rest))) == equals_sign) ≡ false))
    × IsFree key q rest

-- The walk comes through such bytes to what stands behind the byte that is not in the key.
pub walk-IsFree :
    (k : ℕ) (key : Bytes) (len skip offset : ℕ) (q : Bytes) (c : ℕ) (rest : Bytes)
    → mem c (k ∷ key) ≡ false
    → IsFree (k ∷ key) q (c ∷ rest)
    → skip ≤ length q
    → offset + length q < len
    → walk (k ∷ key) len skip offset (q ++ c ∷ rest)
      ≡ walk (k ∷ key) len 0 (offset + length q + 1) rest
walk-IsFree k key len (suc skip) offset [] c rest m free p u = absurd (omega (arith, p))
walk-IsFree k key len zero offset [] c rest m free p u =
    let other : starts_with (k ∷ key) (c ∷ rest) ≡ false = unfold starts_with in ground arith in
    rw other (ap (λ o. walk (k ∷ key) len 0 o rest) (omega arith))
walk-IsFree k key len (suc skip) offset (x ∷ q) c rest m (f, free) p u =
    walk-IsFree k key len skip (offset + 1) q c rest m free (omega (arith, p)) (omega (arith, u))
    ∙ ap (λ o. walk (k ∷ key) len 0 o rest) (omega arith)
walk-IsFree k key len zero offset (x ∷ q) c rest m (f, free) p u =
    elim (Bool-cases (starts_with (k ∷ key) (x ∷ (q ++ c ∷ rest)))) [
      | inr e ↦ rw e (
          walk-IsFree k key len zero (offset + 1) q c rest m free (omega arith) (omega (arith, u))
          ∙ ap (λ o. walk (k ∷ key) len 0 o rest) (omega arith))
      | inl e ↦
          let inside = starts_with-bound (k ∷ key) (x ∷ q) c rest m e in
          let before : leb len (offset + length (k ∷ key)) ≡ false = ground (arith, inside, u) in
          rw (e, before, f e)
            (walk-IsFree k key len (length (k ∷ key) - 1) (offset + 1) q c rest m free
                (omega (arith, inside)) (omega (arith, u))
              ∙ ap (λ o. walk (k ∷ key) len 0 o rest) (omega arith))
    ]

-- Bytes without the sign do not show it.
inner_byte :
    (n : ℕ) (q rest : Bytes)
    → mem equals_sign q ≡ false
    → n < length q
    → (first_byte (drop n (q ++ rest)) == equals_sign) ≡ false
unfolding first_byte
inner_byte n [] rest m p = absurd (omega (arith, p))
inner_byte zero (x ∷ q) rest m p = ground arith
inner_byte (suc n) (x ∷ q) rest m p = inner_byte n q rest (ground arith) (omega (arith, p))

drop-append : (q rest : Bytes) → drop (length q) (q ++ rest) ≡ rest
drop-append [] rest = refl
drop-append (x ∷ q) rest = drop-append q rest

pub walk-last :
    (key : Bytes) (len skip offset : ℕ) (q behind : Bytes)
    → mem equals_sign q ≡ false
    → 0 < length key
    → skip ≤ length q
    → len ≡ offset + length q
    → walk key len skip offset (q ++ behind) ≡ none
walk-last key len skip offset [] behind m n p u =
    walk_behind key len skip offset behind (omega (arith, u))
walk-last key len (suc skip) offset (x ∷ q) behind m n p u =
    walk-last key len skip (offset + 1) q behind (ground arith) n (omega (arith, p))
      (omega (arith, u))
walk-last key len zero offset (x ∷ q) behind m n p u =
    elim (Bool-cases (starts_with key (x ∷ (q ++ behind)))) [
      | inr e ↦ rw e (
          walk-last key len zero (offset + 1) q behind (ground arith) n (omega arith)
            (omega (arith, u)))
      | inl e ↦ elim (Bool-cases (leb len (offset + length key))) [
        | inl f ↦ rw (e, f) refl
        | inr f ↦
            let inside : length key < length (x ∷ q) = ground (arith, u) in
            rw (e, f, inner_byte (length key) (x ∷ q) behind m inside)
              (walk-last key len (length key - 1) (offset + 1) q behind (ground arith) n
                (omega (arith, inside)) (omega (arith, u)))
      ]
    ]

starts_with-same :
    (key q rest : Bytes)
    → starts_with key (q ++ rest) ≡ true
    → length key ≡ length q
    → same key q ≡ true
unfolding starts_with same
starts_with-same [] [] rest e p = refl
starts_with-same [] (x ∷ q) rest e p = absurd (omega (arith, p))
starts_with-same (k ∷ key) [] rest e p = absurd (omega (arith, p))
starts_with-same (k ∷ key) (x ∷ q) rest e p =
    let later = starts_with-same key q rest (ground arith) (omega (arith, p)) in
    ground (arith, later)

-- The bytes end with the key.
abbrev pub has_suffix : Bytes → Bytes → Bool
has_suffix key [] = false
has_suffix key (x ∷ q) = same key (x ∷ q) || has_suffix key q

-- A name that does not end with the key is free of it.
pub name-IsFree :
    (key q rest : Bytes)
    → mem equals_sign key ≡ false
    → mem equals_sign q ≡ false
    → has_suffix key q ≡ false
    → IsFree key q (equals_sign ∷ rest)
name-IsFree key [] rest k m s = tt
name-IsFree key (x ∷ q) rest k m s = (
  λ e.
      let inside = starts_with-bound key (x ∷ q) equals_sign rest k e in
      elim (Bool-cases (length key == length (x ∷ q))) [
        | inl f ↦
            let all_of_it =
              starts_with-same key (x ∷ q) (equals_sign ∷ rest) e ((==_iff _ _).0 f) in
            absurd (ground arith)
        | inr f ↦ inner_byte (length key) (x ∷ q) (equals_sign ∷ rest) m (ground (arith, inside))
      ],
  name-IsFree key q rest k (ground arith) (ground arith),
)

-- A value is free of the key.
pub value-IsFree :
    (key q : Bytes) (c : ℕ) (rest : Bytes)
    → mem c key ≡ false
    → c ≢ equals_sign
    → mem equals_sign q ≡ false
    → IsFree key q (c ∷ rest)
unfolding first_byte
value-IsFree key [] c rest k n m = tt
value-IsFree key (x ∷ q) c rest k n m = (
  λ e.
      let inside = starts_with-bound key (x ∷ q) c rest k e in
      elim (Bool-cases (length key == length (x ∷ q))) [
        | inl f ↦ rw ((==_iff _ _).0 f, drop-append (x ∷ q) (c ∷ rest)) (ground arith)
        | inr f ↦ inner_byte (length key) (x ∷ q) (c ∷ rest) m (ground (arith, inside))
      ],
  value-IsFree key q c rest k n (ground arith),
)

starts_with-append : (key rest : Bytes) → starts_with key (key ++ rest) ≡ true
unfolding starts_with
starts_with-append [] rest = refl
starts_with-append (k ∷ key) rest = ground (arith, starts_with-append key rest)

-- The key itself, with the sign behind it, is found.
pub walk-found :
    (k : ℕ) (key : Bytes) (len offset : ℕ) (rest : Bytes)
    → offset + length (k ∷ key) < len
    → walk (k ∷ key) len 0 offset ((k ∷ key) ++ equals_sign ∷ rest) ≡ some offset
unfolding first_byte
walk-found k key len offset rest p =
    let within : leb len (offset + length (k ∷ key)) ≡ false = ground arith in
    rw
      (
        starts_with-append (k ∷ key) (equals_sign ∷ rest),
        within,
        drop-append key (equals_sign ∷ rest),
      )
      refl
