-- ===== src/HustdbHa/Loaded.antt =====
-- The dictionaries to which hustdb_ha_load_backends of hustdb_ha_table_setter.c adds hosts.
use hustngx.Prelude.{
  ℕ, ◌+◌, ◌^◌, ◌≡◌, ◌≤◌, ◌<◌, refl, sym, ap, ◌∙◌, ◌||◌, Bool, true, false, some, List, [], ◌∷◌,
  if◌then◌else◌, length, arith, inl, inr, Bool-cases,
}
use hustngx.Nginx.{Bytes}
use hustngx.CDict.Table
use hustngx.CDict.Table.{Table, Entry, same}
use hustngx.CDict.Chain.{same_refl, same_true}
use hustngx.CDict.Laws.{IsValid, set-SetEffect, set-ok}
use hustngx.CDict.Size.{IsSmall, set-IsSmall}
use hustngx.CDict.Members.{has, AllPass, set-AllPass}
use hustngx.CDict.Count.{node_count, set-count}
use hustngx.HustdbHa.Backends.{set_hosts}

-- A table that is well-formed and has at most `n` nodes.
pub record Holds (n : ℕ) (dict : Table Bool) : Type 0 where
  pub valid : IsValid dict
  pub small : IsSmall dict
  pub few : dict.nnodes ≤ n
  pub counted : node_count dict.buckets ≤ n

get-set :
    (value : Bool) (host key : Bytes) (dict : Table Bool)
    → IsValid dict
    → length dict.buckets < 2 ^ 31
    → Table.get key (Table.set true true host value dict).1
      ≡ (if same host key then some value else Table.get key dict)
get-set value host key dict v small =
    let s = set-SetEffect true true host value dict v small in
    elim (Bool-cases (same host key)) [
      | inl e ↦ rw e (
          ap (λ k. Table.get k (Table.set true true host value dict).1) (sym (same_true host key e))
          ∙ s.stored (set-ok host value dict))
      | inr e ↦ rw e (s.others key (λ f. cc (e, same_refl key, ap (λ k. same k key) (sym f))))
    ]

set-Holds :
    (n : ℕ) (value : Bool) (host : Bytes) (dict : Table Bool)
    → Holds n dict
    → n < 2 ^ 30
    → Holds (n + 1) (Table.set true true host value dict).1
set-Holds n value host dict h p =
    let (small, few) = set-IsSmall true true host value dict h.small (omega (arith, h.few, p)) in
    record {
      valid =
          (set-SetEffect true true host value dict h.valid
            (omega (arith, h.small, h.few, p))).valid;
      small = small;
      few = omega (arith, few, h.few);
      counted = omega (arith, set-count true true host value dict, h.counted);
    }

pub set_hosts-Holds :
    (n : ℕ) (value : Bool) (hosts : List Bytes) (dict : Table Bool)
    → Holds n dict
    → n + length hosts < 2 ^ 30
    → Holds (n + length hosts) (set_hosts true true value hosts dict)
unfolding set_hosts
set_hosts-Holds n value [] dict h p = record {
  valid = h.valid;
  small = h.small;
  few = omega (arith, h.few);
  counted = omega (arith, h.counted);
}
set_hosts-Holds n value (host ∷ hosts) dict h p =
    let r =
      set_hosts-Holds (n + 1) value hosts (Table.set true true host value dict).1
        (set-Holds n value host dict h (omega (arith, p))) (omega (arith, p)) in
    record {
      valid = r.valid;
      small = r.small;
      few = omega (arith, r.few);
      counted = omega (arith, r.counted);
    }

pub get-set_hosts :
    (n : ℕ) (value : Bool) (hosts : List Bytes) (key : Bytes) (dict : Table Bool)
    → Holds n dict
    → n + length hosts < 2 ^ 30
    → Table.get key (set_hosts true true value hosts dict)
      ≡ (if has key hosts then some value else Table.get key dict)
unfolding set_hosts
get-set_hosts n value [] key dict h p = refl
get-set_hosts n value (host ∷ hosts) key dict h p =
    let later =
      get-set_hosts (n + 1) value hosts key (Table.set true true host value dict).1
        (set-Holds n value host dict h (omega (arith, p))) (omega (arith, p)) in
    let now = get-set value host key dict h.valid (omega (arith, h.small, h.few, p)) in
    later ∙ both (has key hosts) (same host key) now
  where
    both :
        (b c : Bool)
        → Table.get key (Table.set true true host value dict).1
          ≡ (if c then some value else Table.get key dict)
        → (if b then some value else Table.get key (Table.set true true host value dict).1)
          ≡ (if c || b then some value else Table.get key dict)
    both true true e = refl
    both true false e = refl
    both false true e = e
    both false false e = e

pub set_hosts-AllPass :
    (q : Bytes → Bool) (value : Bool) (hosts : List Bytes) (dict : Table Bool)
    → ((h : Bytes) → has h hosts ≡ true → q h ≡ true)
    → AllPass q dict.buckets
    → AllPass q (set_hosts true true value hosts dict).buckets
unfolding set_hosts
set_hosts-AllPass q value [] dict f p = p
set_hosts-AllPass q value (host ∷ hosts) dict f p =
    set_hosts-AllPass q value hosts (Table.set true true host value dict).1
      (λ h e. f h (ground (arith, e)))
      (set-AllPass q true true host value dict (f host (ground (arith, same_refl host))) p)
