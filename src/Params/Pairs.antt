-- ===== src/Params/Pairs.antt =====
-- A query string as the pairs it is made of (ngx_http_utils_module.c).
use hustngx.Prelude.{
  ℕ, ◌+◌, ◌≡◌, ◌<◌, refl, sym, ap, subst, ◌∙◌, ◌⊎◌, true, false, Option, none, some, List, [], ◌∷◌,
  ◌++◌, if◌then◌else◌, length, length-append, mem, arith, inl, inr, Bool-cases,
}
use hustngx.Nginx.{Bytes}
use hustngx.CDict.Table.{same}
use hustngx.CDict.Chain.{same_true}
use hustngx.Params.{equals_sign, ampersand}
use hustngx.Params.Search.{walk}
use hustngx.Params.Walk.{walk-IsFree, walk-last, has_suffix, name-IsFree, value-IsFree, walk-found}

abbrev pub Pairs : Type 0
Pairs = List (Bytes × Bytes)

-- `name=value&name=value`
abbrev pub print : Pairs → Bytes
print [] = []
print ((name, value) ∷ []) = name ++ equals_sign ∷ value
print ((name, value) ∷ p ∷ ps) = name ++ equals_sign ∷ (value ++ ampersand ∷ print (p ∷ ps))

-- The value of the first pair of that name.
abbrev pub value_of : Bytes → Pairs → Option Bytes
value_of key [] = none
value_of key ((name, value) ∷ ps) = if same key name then some value else value_of key ps

-- Neither sign stands in a name or a value, and no longer name ends with the key.
pub record IsPlain (key name value : Bytes) : Type 0 where
  pub name_equals : mem equals_sign name ≡ false
  pub value_equals : mem equals_sign value ≡ false
  pub value_ampersand : mem ampersand value ≡ false
  pub no_suffix : same key name ≡ false → has_suffix key name ≡ false

abbrev pub ArePlain : Bytes → Pairs → Type 0
ArePlain key [] = Unit
ArePlain key ((name, value) ∷ ps) = IsPlain key name value × ArePlain key ps

pub record IsKey (key : Bytes) : Type 0 where
  pub key_equals : mem equals_sign key ≡ false
  pub key_ampersand : mem ampersand key ≡ false

-- The pairs before the first one of that name, and those behind it.
abbrev pub front_of : Bytes → Pairs → Pairs
front_of key [] = []
front_of key ((name, value) ∷ ps) = if same key name then [] else (name, value) ∷ front_of key ps

abbrev pub back_of : Bytes → Pairs → Pairs
back_of key [] = []
back_of key ((name, value) ∷ ps) = if same key name then ps else back_of key ps

-- Pairs as they stand before others, and behind others.
abbrev pub print_front : Pairs → Bytes
print_front [] = []
print_front ((name, value) ∷ ps) = name ++ equals_sign ∷ (value ++ ampersand ∷ print_front ps)

abbrev pub print_back : Pairs → Bytes
print_back [] = []
print_back (p ∷ ps) = ampersand ∷ print (p ∷ ps)

-- What the walk finds in bytes that stand from `offset` on, before others.
pub record Found (key : Bytes) (len offset : ℕ) (hay behind : Bytes) (ps : Pairs) : Type 0 where
  pub before : Bytes
  pub value : Bytes
  pub no_ampersand : mem ampersand value ≡ false
  pub found : walk key len 0 offset hay ≡ some (offset + length before)
  pub value_eq : value_of key ps ≡ some value
  pub before_eq : before ≡ print_front (front_of key ps)
  pub layout :
      hay ≡ before ++ (key ++ equals_sign ∷ (value ++ (print_back (back_of key ps) ++ behind)))
  pub size :
      offset + length before + length key + 1 + length value + length (print_back (back_of key ps))
      ≡ len

abbrev pub Outcome : Bytes → ℕ → ℕ → Bytes → Bytes → Pairs → Type 0
Outcome key len offset hay behind ps =
    ((walk key len 0 offset hay ≡ none) × (value_of key ps ≡ none))
    ⊎ Found key len offset hay behind ps

pub append_assoc : (xs ys zs : Bytes) → (xs ++ ys) ++ zs ≡ xs ++ (ys ++ zs)
append_assoc [] ys zs = refl
append_assoc (x ∷ xs) ys zs = ap (◌∷◌ x) (append_assoc xs ys zs)

-- The walk passes a name, its sign, a value and the byte behind.
pass :
    (k : ℕ) (key name value rest : Bytes) (len offset : ℕ)
    → IsKey (k ∷ key)
    → IsPlain (k ∷ key) name value
    → same (k ∷ key) name ≡ false
    → offset + length name + 1 + length value < len
    → walk (k ∷ key) len 0 offset (name ++ equals_sign ∷ (value ++ ampersand ∷ rest))
      ≡ walk (k ∷ key) len 0 (offset + length name + 1 + length value + 1) rest
pass k key name value rest len offset i p d u =
    walk-IsFree k key len 0 offset name equals_sign (value ++ ampersand ∷ rest) i.key_equals
      (name-IsFree (k ∷ key) name (value ++ ampersand ∷ rest) i.key_equals p.name_equals
        (p.no_suffix d))
      (omega arith) (omega (arith, u))
    ∙ walk-IsFree k key len 0 (offset + length name + 1) value ampersand rest i.key_ampersand
        (value-IsFree (k ∷ key) value ampersand rest i.key_ampersand (omega arith) p.value_equals)
        (omega arith) (omega (arith, u))

-- A pair of that name is where the walk stops.
here :
    (k : ℕ) (key name value behind : Bytes) (len offset : ℕ) (ps : Pairs)
    → mem ampersand value ≡ false
    → same (k ∷ key) name ≡ true
    → offset + length (k ∷ key) + 1 + length value + length (print_back ps) ≡ len
    → Found
        (k ∷ key)
        len
        offset
        (name ++ equals_sign ∷ (value ++ (print_back ps ++ behind)))
        behind
        ((name, value) ∷ ps)
here k key name value behind len offset ps m e u =
    let none_before : offset + 0 ≡ offset = omega arith in
    let hay = λ (n : Bytes). n ++ equals_sign ∷ (value ++ (print_back ps ++ behind)) in
    let is_key = ap hay (sym (same_true (k ∷ key) name e)) in
    record {
      before = [];
      value = value;
      no_ampersand = m;
      found =
          ap (walk (k ∷ key) len 0 offset) is_key
          ∙ walk-found k key len offset (value ++ (print_back ps ++ behind)) (omega (arith, u))
          ∙ ap some (sym none_before);
      value_eq = rw e refl;
      before_eq = rw e refl;
      layout = rw e is_key;
      size = rw e (omega (arith, u));
    }

-- What is found behind a pair of another name is found.
further :
    (key name value hay behind : Bytes) (len offset : ℕ) (ps : Pairs)
    → same key name ≡ false
    → walk key len 0 offset (name ++ equals_sign ∷ (value ++ ampersand ∷ hay))
      ≡ walk key len 0 (offset + length name + 1 + length value + 1) hay
    → Outcome key len (offset + length name + 1 + length value + 1) hay behind ps
    → Outcome key len offset
        (name ++ equals_sign ∷ (value ++ ampersand ∷ hay))
        behind
        ((name, value) ∷ ps)
further key name value hay behind len offset ps d w (inl (n, v)) = inl (w ∙ n, rw d v)
further key name value hay behind len offset ps d w (inr f) =
    let found = key ++ equals_sign ∷ (f.value ++ (print_back (back_of key ps) ++ behind)) in
    let skipped = name ++ equals_sign ∷ (value ++ ampersand ∷ f.before) in
    let long : length skipped ≡ length name + 1 + length value + 1 + length f.before = omega (
      arith,
      length-append name (equals_sign ∷ (value ++ ampersand ∷ f.before)),
      length-append value (ampersand ∷ f.before),
    ) in
    let again : skipped ++ found
        ≡ name ++ equals_sign ∷ (value ++ ampersand ∷ (f.before ++ found)) =
      append_assoc name (equals_sign ∷ (value ++ ampersand ∷ f.before)) found
      ∙ ap (λ t. name ++ equals_sign ∷ t) (append_assoc value (ampersand ∷ f.before) found) in
    inr (record {
      before = skipped;
      value = f.value;
      no_ampersand = f.no_ampersand;
      found = w ∙ f.found ∙ ap some (omega (arith, long));
      value_eq = rw d f.value_eq;
      before_eq = rw d (ap (λ t. name ++ equals_sign ∷ (value ++ ampersand ∷ t)) f.before_eq);
      layout = rw d (ap (λ t. name ++ equals_sign ∷ (value ++ ampersand ∷ t)) f.layout ∙ sym again);
      size = rw d (omega (arith, long, f.size));
    })

-- The walk stops at the first pair of the key's name, or comes to the end.
pub walk-print :
    (k : ℕ) (key : Bytes) (len offset : ℕ) (ps : Pairs) (behind : Bytes)
    → IsKey (k ∷ key)
    → ArePlain (k ∷ key) ps
    → len ≡ offset + length (print ps)
    → Outcome (k ∷ key) len offset (print ps ++ behind) behind ps
walk-print k key len offset [] behind i p u =
    inl (walk-last (k ∷ key) len 0 offset [] behind refl (omega arith) (omega arith) u, refl)
walk-print k key len offset ((name, value) ∷ []) behind i (p, _) u =
    let long = length-append name (equals_sign ∷ value) in
    subst (λ h. Outcome (k ∷ key) len offset h behind ((name, value) ∷ []))
      (sym (append_assoc name (equals_sign ∷ value) behind))
      (elim (Bool-cases (same (k ∷ key) name)) [
        | inl e ↦
            let name_long = ap length (same_true (k ∷ key) name e) in
            inr (
              here k key name value behind len offset [] p.value_ampersand e
                (omega (arith, long, u, name_long)))
        | inr d ↦ inl (
          walk-IsFree k key len 0 offset name equals_sign (value ++ behind) i.key_equals
                (name-IsFree (k ∷ key) name (value ++ behind) i.key_equals p.name_equals
                  (p.no_suffix d))
                (omega arith) (omega (arith, u, long))
              ∙ walk-last (k ∷ key) len 0 (offset + length name + 1) value behind p.value_equals
                  (omega arith) (omega arith) (omega (arith, u, long)),
          rw d refl,
        )
      ])
walk-print k key len offset ((name, value) ∷ q ∷ ps) behind i (p, plain) u =
    let rest = print (q ∷ ps) in
    let long = length-append name (equals_sign ∷ (value ++ ampersand ∷ rest)) in
    let long' = length-append value (ampersand ∷ rest) in
    let layout : print ((name, value) ∷ q ∷ ps) ++ behind
        ≡ name ++ equals_sign ∷ (value ++ ampersand ∷ (rest ++ behind)) =
      append_assoc name (equals_sign ∷ (value ++ ampersand ∷ rest)) behind
      ∙ ap (λ t. name ++ equals_sign ∷ t) (append_assoc value (ampersand ∷ rest) behind) in
    subst (λ h. Outcome (k ∷ key) len offset h behind ((name, value) ∷ q ∷ ps)) (sym layout)
      (elim (Bool-cases (same (k ∷ key) name)) [
        | inl e ↦
            let name_long = ap length (same_true (k ∷ key) name e) in
            inr (
              here k key name value behind len offset (q ∷ ps) p.value_ampersand e
                (omega (arith, long, long', u, name_long)))
        | inr d ↦
            further (k ∷ key) name value (rest ++ behind) behind len offset (q ∷ ps) d
              (pass k key name value (rest ++ behind) len offset i p d
                (omega (arith, long, long', u)))
              (walk-print k key len (offset + length name + 1 + length value + 1) (q ∷ ps) behind i
                plain (omega (arith, long, long', u)))
      ])
