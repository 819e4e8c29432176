-- ===== src/HustdbHa/Hosts/Elements.antt =====
-- The hosts that hustdb_ha_load_backends of hustdb_ha_table_setter.c puts into its two dictionaries.
use hustngx.Prelude.{
  ℕ, suc, ◌+◌, ◌*◌, ◌^◌, ◌≡◌, ◌≤◌, ◌<◌, refl, sym, ap, ◌∙◌, ◌||◌, Bool, true, false, some, List, [],
  ◌∷◌, ◌++◌, if◌then◌else◌, length, arith,
}
use hustngx.Nginx.{Bytes}
use hustngx.CDict.Table
use hustngx.CDict.Table.{Table, Entry, same}
use hustngx.CDict.Members.{has, has-append, AllPass}
use hustngx.HustdbHa.Table.{Elem}
use hustngx.HustdbHa.Backends.{hosts_of, removed_of, set_hosts, add_items}
use hustngx.HustdbHa.Loaded.{Holds, get-set_hosts, set_hosts-Holds, set_hosts-AllPass}

-- The hosts that the elements name, and those that they remove.
abbrev pub used_hosts : List Elem → List Bytes
used_hosts [] = []
used_hosts (item ∷ items) = hosts_of item ++ used_hosts items

abbrev pub removed_hosts : List Elem → List Bytes
removed_hosts [] = []
removed_hosts (item ∷ items) = removed_of item ++ removed_hosts items

length-hosts_of : (item : Elem) → length (hosts_of item) ≤ 4
unfolding hosts_of
length-hosts_of item = ground arith

length-removed_of : (item : Elem) → length (removed_of item) ≤ 4
unfolding removed_of
length-removed_of item = ground arith

pub Holds-mono : {n : ℕ} (m : ℕ) {dict : Table Bool} → Holds n dict → n ≤ m → Holds m dict
Holds-mono m h p = record {
  valid = h.valid;
  small = h.small;
  few = omega (arith, h.few, p);
  counted = omega (arith, h.counted, p);
}

-- A dictionary to which these hosts have been added.
pub record Added (n : ℕ) (hosts : List Bytes) (old dict : Table Bool) : Type 0 where
  pub holds : Holds n dict
  pub gets :
      (key : Bytes) → Table.get key dict ≡ (if has key hosts then some true else Table.get key old)

set_hosts-Added :
    (n : ℕ) (hosts : List Bytes) (dict : Table Bool)
    → Holds n dict
    → length hosts ≤ 4
    → n + 4 < 2 ^ 30
    → Added (n + 4) hosts dict (set_hosts true true true hosts dict)
set_hosts-Added n hosts dict h few p = record {
  holds =
      Holds-mono (n + 4) (set_hosts-Holds n true hosts dict h (omega (arith, few, p)))
        (omega (arith, few));
  gets = λ key. get-set_hosts n true hosts key dict h (omega (arith, few, p));
}

Added-Added :
    {n m : ℕ} (hosts hosts' : List Bytes) {a b c : Table Bool}
    → Added n hosts a b
    → Added m hosts' b c
    → Added m (hosts ++ hosts') a c
Added-Added hosts hosts' {a = a} {b = b} first second = record {
  holds = second.holds;
  gets = λ key.
      second.gets key
      ∙ both key (has key hosts) (has key hosts') (first.gets key)
      ∙ ap (λ t. if t then some true else Table.get key a) (sym (has-append key hosts hosts'));
}
  where
    both :
        (key : Bytes) (x y : Bool)
        → Table.get key b ≡ (if x then some true else Table.get key a)
        → (if y then some true else Table.get key b)
          ≡ (if x || y then some true else Table.get key a)
    both key true true g = refl
    both key true false g = g
    both key false true g = refl
    both key false false g = g

pub add_items-Added :
    (n : ℕ) (items : List Elem) (backend_set removed_set : Table Bool)
    → Holds n backend_set
    → Holds n removed_set
    → n + 4 * length items < 2 ^ 30
    → Added
        (n + 4 * length items)
        (used_hosts items)
        backend_set
        (add_items true true items backend_set removed_set).0
      × Added
          (n + 4 * length items)
          (removed_hosts items)
          removed_set
          (add_items true true items backend_set removed_set).1
unfolding add_items
add_items-Added n [] backend_set removed_set h k p = (
  record { holds = Holds-mono (n + 4 * 0) h (omega arith); gets = λ key. refl },
  record { holds = Holds-mono (n + 4 * 0) k (omega arith); gets = λ key. refl },
)
add_items-Added n (item ∷ items) backend_set removed_set h k p =
    let used =
      set_hosts-Added n (hosts_of item) backend_set h (length-hosts_of item) (omega (arith, p)) in
    let gone =
      set_hosts-Added n (removed_of item) removed_set k (length-removed_of item)
        (omega (arith, p)) in
    let (used', gone') =
      add_items-Added (n + 4) items _ _ used.holds gone.holds (omega (arith, p)) in
    let enough : n + 4 + 4 * length items ≤ n + 4 * suc (length items) = omega arith in
    let all_used = Added-Added (hosts_of item) (used_hosts items) used used' in
    let all_gone = Added-Added (removed_of item) (removed_hosts items) gone gone' in
    (
      record {
        holds = Holds-mono (n + 4 * suc (length items)) all_used.holds enough;
        gets = all_used.gets;
      },
      record {
        holds = Holds-mono (n + 4 * suc (length items)) all_gone.holds enough;
        gets = all_gone.gets;
      },
    )

-- The dictionary of removed hosts has no other keys.
pub add_items-AllPass :
    (q : Bytes → Bool) (items : List Elem) (backend_set removed_set : Table Bool)
    → ((h : Bytes) → has h (removed_hosts items) ≡ true → q h ≡ true)
    → AllPass q removed_set.buckets
    → AllPass q (add_items true true items backend_set removed_set).1.buckets
unfolding add_items
add_items-AllPass q [] backend_set removed_set f p = p
add_items-AllPass q (item ∷ items) backend_set removed_set f p =
    add_items-AllPass q items (set_hosts true true true (hosts_of item) backend_set)
      (set_hosts true true true (removed_of item) removed_set)
      (λ h e. f h (has-append h (removed_of item) (removed_hosts items) ∙ ground (arith, e)))
      (set_hosts-AllPass q true (removed_of item) removed_set
        (λ h e. f h (has-append h (removed_of item) (removed_hosts items) ∙ ground (arith, e))) p)
