-- ===== src/Params/Values.antt =====
-- `ngx_http_get_param_val` and `ngx_http_append_arg` on query strings (ngx_http_utils_module.c).
use hustngx.Prelude.{
  ℕ, zero, suc, ◌+◌, ◌-◌, ◌≡◌, ◌<◌, refl, ap, ◌∙◌, false, none, some, [], ◌∷◌, ◌++◌, ◌==◌, length,
  drop, take, mem, arith, inl, inr, Bool-cases,
}
use hustngx.Nginx.{Bytes}
use hustngx.Params.{Str, equals_sign, ampersand, first_byte, scan_end, match_key, get_param_val}
use hustngx.Params.Search.{walk, match_loop-walk}
use hustngx.Params.Pairs.{
  Pairs, print, value_of, ArePlain, IsKey, print_back, back_of, Found, Outcome, walk-print,
}

scan_end-ampersand :
    (n : ℕ) (value after : Bytes)
    → mem ampersand value ≡ false
    → length value < n
    → scan_end n (value ++ ampersand ∷ after) ≡ length value + 1
unfolding scan_end first_byte
scan_end-ampersand zero value after m p = absurd (omega (arith, p))
scan_end-ampersand (suc n) [] after m p = omega arith
scan_end-ampersand (suc n) (x ∷ value) after m p =
    let other : (x == ampersand) ≡ false = ground (arith, m) in
    rw other (omega (arith, scan_end-ampersand n value after (ground arith) (omega (arith, p))))

scan_end-all :
    (value after : Bytes)
    → mem ampersand value ≡ false
    → scan_end (suc (length value)) (value ++ after) ≡ suc (length value)
unfolding scan_end first_byte
scan_end-all [] after m = elim (Bool-cases (first_byte after == ampersand)) [
  | inl e ↦ rw e refl
  | inr e ↦ rw e refl
]
scan_end-all (x ∷ value) after m =
    let other : (x == ampersand) ≡ false = ground (arith, m) in
    rw other (ap suc (scan_end-all value after (ground arith)))

pub drop-append : (n : ℕ) (xs ys : Bytes) → drop (length xs + n) (xs ++ ys) ≡ drop n ys
drop-append n [] ys = ap (λ m. drop m ys) (omega arith)
drop-append n (x ∷ xs) ys =
    let next : length (x ∷ xs) + n ≡ suc (length xs + n) = omega arith in
    ap (λ m. drop m (x ∷ (xs ++ ys))) next ∙ drop-append n xs ys

pub take-append : (xs ys : Bytes) → take (length xs) (xs ++ ys) ≡ xs
take-append [] ys = refl
take-append (x ∷ xs) ys = ap (◌∷◌ x) (take-append xs ys)

-- The bytes behind a name and its sign.
drop-name :
    (before key rest : Bytes) (n : ℕ)
    → n ≡ length before + length key + 1
    → drop n (before ++ (key ++ equals_sign ∷ rest)) ≡ rest
drop-name before key rest n e =
    let split : n ≡ length before + (length key + 1) = omega (arith, e) in
    ap (λ m. drop m (before ++ (key ++ equals_sign ∷ rest))) split
    ∙ drop-append (length key + 1) before (key ++ equals_sign ∷ rest)
    ∙ drop-append 1 key (equals_sign ∷ rest)

-- How far the value goes that was found.
scan_end-Found :
    {key hay behind : Bytes} {len : ℕ} {ps : Pairs} (f : Found key len 0 hay behind ps)
    → scan_end
        (len - (length f.before + length key))
        (f.value ++ (print_back (back_of key ps) ++ behind))
      ≡ length f.value + 1
scan_end-Found {key} {hay} {behind} {len} {ps} f = ends (back_of key ps) f.size
  where
    ends :
        (qs : Pairs)
        → 0 + length f.before + length key + 1 + length f.value + length (print_back qs) ≡ len
        → scan_end (len - (length f.before + length key)) (f.value ++ (print_back qs ++ behind))
          ≡ length f.value + 1
    ends [] e =
        let rounds : len - (length f.before + length key) ≡ suc (length f.value) =
          omega (arith, e) in
        rw rounds (scan_end-all f.value behind f.no_ampersand ∙ omega arith)
    ends (q ∷ qs) e =
        scan_end-ampersand (len - (length f.before + length key)) f.value (print (q ∷ qs) ++ behind)
          f.no_ampersand (omega (arith, e))

-- The search yields the key's place and the end of its value.
pub match_key-Found :
    (fuel k : ℕ) (key : Bytes) (args : Str) {behind : Bytes} {ps : Pairs}
    → length args.bytes < fuel
    → (f : Found (k ∷ key) args.len 0 args.bytes behind ps)
    → match_key fuel (k ∷ key) args
      ≡ some (some (length f.before, length f.before + length (k ∷ key) + (length f.value + 1)))
unfolding match_key
match_key-Found fuel k key args {behind} {ps} p f =
    let end = length f.before + length (k ∷ key) in
    let room : (args.len == end) ≡ false = ground (arith, f.size) in
    let behind =
      ap (drop (end + 1)) f.layout
      ∙ drop-name f.before (k ∷ key) (f.value ++ (print_back (back_of (k ∷ key) ps) ++ behind))
          (end + 1) refl in
    let start : 0 + length f.before ≡ length f.before = omega arith in
    let found =
      match_loop-walk fuel k key args.len 0 args.bytes p ∙ ap some (f.found ∙ ap some start) in
    rw (match_key, found, room, behind, scan_end-Found f) refl

pub match_key-none :
    (fuel k : ℕ) (key : Bytes) (args : Str)
    → length args.bytes < fuel
    → walk (k ∷ key) args.len 0 0 args.bytes ≡ none
    → match_key fuel (k ∷ key) args ≡ some none
unfolding match_key
match_key-none fuel k key args p n =
    rw (match_key, match_loop-walk fuel k key args.len 0 args.bytes p, n) refl

get_param_val-Outcome :
    (fuel k : ℕ) (key : Bytes) (args : Str) (behind : Bytes) (ps : Pairs)
    → length args.bytes < fuel
    → Outcome (k ∷ key) args.len 0 args.bytes behind ps
    → get_param_val fuel args (k ∷ key) ≡ some (value_of (k ∷ key) ps)
unfolding get_param_val
get_param_val-Outcome fuel k key args behind ps p (inl (n, v)) =
    rw (get_param_val, match_key-none fuel k key args p n, v) refl
get_param_val-Outcome fuel k key args behind ps p (inr f) =
    let start = length f.before + (length (k ∷ key) + 1) in
    let size : length f.before + length (k ∷ key) + (length f.value + 1) - start ≡ length f.value =
      omega arith in
    let bytes =
      ap (drop start) f.layout
      ∙ drop-name f.before (k ∷ key) (f.value ++ (print_back (back_of (k ∷ key) ps) ++ behind))
          start (omega arith) in
    rw
      (
        get_param_val,
        match_key-Found fuel k key args p f,
        size,
        bytes,
        take-append f.value (print_back (back_of (k ∷ key) ps) ++ behind),
        f.value_eq,
      )
      refl

pub get_param_val-print :
    (fuel k : ℕ) (key : Bytes) (ps : Pairs) (behind : Bytes)
    → IsKey (k ∷ key)
    → ArePlain (k ∷ key) ps
    → length (print ps ++ behind) < fuel
    → get_param_val fuel (record { bytes = print ps ++ behind; len = length (print ps) }) (k ∷ key)
      ≡ some (value_of (k ∷ key) ps)
get_param_val-print fuel k key ps behind i plain p =
    get_param_val-Outcome fuel k key
      (record { bytes = print ps ++ behind; len = length (print ps) }) behind ps p
      (walk-print k key (length (print ps)) 0 ps behind i plain (omega arith))
