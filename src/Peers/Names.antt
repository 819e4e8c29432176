-- ===== src/Peers/Names.antt =====
-- The dictionary of peers by their names, which is a table of c_dict.c
-- (`ngx_http_init_peer_dict` and `ngx_http_peer_dict_get` of ngx_http_utils_module.c).
use hustngx.Prelude.{
  ℕ, ◌+◌, ◌^◌, ◌≡◌, ◌<◌, refl, sym, ap, ◌∙◌, Bool, true, Option, none, some, List, [], ◌∷◌,
  if◌then◌else◌, length, arith, inl, inr, Bool-cases,
}
use hustngx.Nginx.{Bytes}
use hustngx.CDict.Table.{Table, same}
use hustngx.CDict.Table
use hustngx.CDict.Chain.{same_refl, same_true}
use hustngx.CDict.Laws.{IsValid, set-SetEffect, set-ok}
use hustngx.CDict.Size.{IsSmall, set-IsSmall}
use hustngx.Peers.{peer_dict_get, set_all, init_peer_dict}

always : ℕ → Bool
always n = true

module _ {P : Type 0} (name : P → Bytes) where
  -- The last peer with the name, or what was there before.
  abbrev pub last_named : Bytes → List P → Option P → Option P
  last_named k [] d = d
  last_named k (p ∷ peers) d = last_named k peers (if same (name p) k then some p else d)

  get-set :
      (p : P) (dict : Table P) (k : Bytes)
      → IsValid dict
      → length dict.buckets < 2 ^ 31
      → Table.get k (Table.set true true (name p) p dict).1
        ≡ (if same (name p) k then some p else Table.get k dict)
  get-set p dict k v small =
      let s = set-SetEffect true true (name p) p dict v small in
      elim (Bool-cases (same (name p) k)) [
        | inl e ↦
            let f : name p ≡ k = same_true (name p) k e in
            rw e (
              ap (λ j. Table.get j (Table.set true true (name p) p dict).1) (sym f)
              ∙ s.stored (set-ok (name p) p dict))
        | inr e ↦ rw e (s.others k (λ f. cc (e, same_refl k, ap (λ x. same x k) (sym f))))
      ]

  get-set_all :
      (peers : List P) (dict : Table P) (k : Bytes)
      → IsValid dict
      → IsSmall dict
      → dict.nnodes + length peers < 2 ^ 30
      → Table.get k (set_all name always always peers dict) ≡ last_named k peers (Table.get k dict)
  unfolding set_all always
  get-set_all [] dict k v small few = refl
  get-set_all (p ∷ peers) dict k v small few =
      let s = set-SetEffect true true (name p) p dict v (omega (arith, small, few)) in
      let (small', count) = set-IsSmall true true (name p) p dict small (omega (arith, few)) in
      get-set_all peers _ k s.valid small' (omega (arith, count, few))
      ∙ ap (last_named k peers) (get-set p dict k v (omega (arith, small, few)))

  -- If no allocation fails, the dictionary of at least one and less than 2^30 peers finds the last
  -- peer with a name, and nothing for a name that no peer has.
  pub peer_dict_get-init_peer_dict :
      (peers : List P) (k : Bytes)
      → 0 < length peers
      → length peers < 2 ^ 30
      → (dict : Table P) × (init_peer_dict name (λ n. true) (λ n. true) peers ≡ some dict)
        × (peer_dict_get dict k ≡ last_named k peers none)
  unfolding init_peer_dict peer_dict_get always
  peer_dict_get-init_peer_dict [] k p few = absurd (omega arith)
  peer_dict_get-init_peer_dict (x ∷ peers) k p few = (
    set_all name always always (x ∷ peers) Table.init,
    refl,
    get-set_all (x ∷ peers) Table.init k (unfold Table.init in tt)
          (unfold Table.init in omega arith) (unfold Table.init in omega (arith, few))
        ∙ ap (last_named k (x ∷ peers)) (unfold Table.init Table.get in refl),
  )
