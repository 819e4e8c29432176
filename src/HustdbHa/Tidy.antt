-- ===== src/HustdbHa/Tidy.antt =====
-- The queues of identifiers through the calls of hustdb_ha_set_table_handler.c.
use hustngx.Prelude.{
  ℕ, zero, suc, ◌≡◌, refl, sym, ap, subst, ◌∙◌, Bool, true, false, none, some, List, [], ◌∷◌, ◌++◌,
  ◌==◌, ==_iff, mem, IsDistinct, mem-append, mem-append_left, some-injective, mem-erase, inl, inr,
  Bool-cases, Option-cases,
}
use hustngx.Nginx.{Nginx}
use hustngx.Fetch.Cache.{match_item}
use hustngx.Fetch.Conserved.{match_item-mem}
use hustngx.Fetch.Apart.{Apart, Apart-flip, Apart-move, Apart-front}
use hustngx.HustdbHa.Identifiers.{
  Identifier, Shctx, at_item, identifier_size, init_items, init_identifier_cache, free_identifier,
  release, is_expired, refresh_expired,
}

pub match_item-none :
    (test : ℕ → Bool) (xs : List ℕ)
    → match_item test xs ≡ none
    → (x : ℕ) → mem x xs ≡ true
    → test x ≡ false
unfolding match_item
match_item-none test [] e x m = absurd (cc)
match_item-none test (y ∷ xs) e x m = elim (Bool-cases (test y)) [
  | inl f ↦ absurd (cc (rw f at e))
  | inr f ↦ elim (Bool-cases (x == y)) [
    | inl g ↦ rw ((==_iff x y).0 g) f
    | inr g ↦ match_item-none test xs (rw f at e) x (rw g at m)
  ]
]

pub match_item-test :
    (test : ℕ → Bool) (xs : List ℕ) (x : ℕ) → match_item test xs ≡ some x → test x ≡ true
unfolding match_item
match_item-test test [] x e = absurd (cc)
match_item-test test (y ∷ xs) x e = elim (Bool-cases (test y)) [
  | inl f ↦ subst (λ z. test z ≡ true) (some-injective _ _ (rw f at e)) f
  | inr f ↦ match_item-test test xs x (rw f at e)
]

module _ {Queue Slab : Type 0} (ngx : Nginx Queue Slab) where
  -- No identifier is in both queues or twice in one, and no two of those in use are the same.
  pub record IsTidy (sh : Shctx Queue) : Type 0 where
    pub apart : Apart (ngx.items sh.cache_identifier) (ngx.items sh.free_identifier)
    pub unique :
        (x y : ℕ)
        → mem x (ngx.items sh.cache_identifier) ≡ true
        → mem y (ngx.items sh.cache_identifier) ≡ true
        → (sh.item x).id ≡ (sh.item y).id
        → x ≡ y

  -- Fewer identifiers in use, with the same names.
  pub narrow :
      {sh sh' : Shctx Queue}
      → IsTidy sh
      → Apart (ngx.items sh'.cache_identifier) (ngx.items sh'.free_identifier)
      → ((x : ℕ)
          → mem x (ngx.items sh'.cache_identifier) ≡ true
          → mem x (ngx.items sh.cache_identifier) ≡ true)
      → ((x : ℕ) → (sh'.item x).id ≡ (sh.item x).id)
      → IsTidy sh'
  narrow t a less names = record {
    apart = a;
    unique = λ x y p q e. t.unique x y (less x p) (less y q) (sym (names x) ∙ e ∙ names y);
  }

  pub free_identifier-IsTidy :
      (x : ℕ) (sh : Shctx Queue)
      → IsTidy sh
      → mem x (ngx.items sh.cache_identifier ++ ngx.items sh.free_identifier) ≡ true
      → IsTidy (free_identifier ngx x sh)
  unfolding free_identifier
  free_identifier-IsTidy x sh t m = elim (Bool-cases (mem x (ngx.items sh.cache_identifier))) [
    | inl e ↦
        let removed = ngx.items-remove sh.cache_identifier x e in
        let added = ngx.items-insert_head sh.free_identifier x (t.apart.common x e) in
        rw (free_identifier, e)
          (narrow t (rw (removed, added) (Apart-move x _ _ t.apart e))
            (λ y p. elim (Bool-cases (y == x)) [
              | inl g ↦ rw ((==_iff y x).0 g) e
              | inr g ↦
                  let left =
                    ap (mem y) removed
                    ∙ mem-erase x y (ngx.items sh.cache_identifier) t.apart.left in
                  sym (rw g at left) ∙ p
            ])
            (λ y. refl))
    | inr e ↦
        let flipped =
          Apart-flip (ngx.items sh.cache_identifier) (ngx.items sh.free_identifier) t.apart in
        let free : mem x (ngx.items sh.free_identifier) ≡ true =
          sym (
            mem-append x (ngx.items sh.cache_identifier) (ngx.items sh.free_identifier) ∙ rw e refl)
          ∙ m in
        let removed = ngx.items-remove sh.free_identifier x free in
        let fronted =
          Apart-front x (ngx.items sh.free_identifier) (ngx.items sh.cache_identifier) flipped
            free in
        let gone : mem x (ngx.items (ngx.remove sh.free_identifier x)) ≡ false =
          ap (mem x) removed ∙ fronted.left.0 in
        let added =
          ngx.items-insert_head (ngx.remove sh.free_identifier x) x gone ∙ ap (◌∷◌ x) removed in
        rw (free_identifier, e)
          (narrow t (rw added (Apart-flip _ _ fronted)) (λ y p. p) (λ y. refl))
  ]

  -- The names do not change when an expiry does.
  pub same_names :
      (x y : ℕ) (item : ℕ → Identifier)
      → (at_item x (record (item x) { exptime = 0 }) item y).id ≡ (item y).id
  same_names x y item = elim (Bool-cases (y == x)) [
    | inl e ↦ rw (e, (==_iff y x).0 e) refl
    | inr e ↦ rw e refl
  ]

  pub release-IsTidy :
      (x : ℕ) (sh : Shctx Queue)
      → IsTidy sh
      → mem x (ngx.items sh.cache_identifier ++ ngx.items sh.free_identifier) ≡ true
      → IsTidy (release ngx x sh)
  unfolding release
  release-IsTidy x sh t m =
      let sh' = record sh { item = at_item x (record (sh.item x) { exptime = 0 }) sh.item } in
      free_identifier-IsTidy x sh' (narrow t t.apart (λ y p. p) (λ y. same_names x y sh.item)) m

  pub refresh_expired-IsTidy :
      (now : ℕ) (sh : Shctx Queue) → IsTidy sh → IsTidy (refresh_expired ngx now sh)
  unfolding refresh_expired
  refresh_expired-IsTidy now sh t =
      elim (Option-cases
        (match_item (λ x. is_expired now (sh.item x)) (ngx.items sh.cache_identifier))) [
          | inl e ↦ rw (refresh_expired, e) t
          | inr (x, e) ↦
              rw (refresh_expired, e)
                (release-IsTidy x sh t (
                  mem-append_left x (ngx.items sh.cache_identifier) (ngx.items sh.free_identifier)
                    (match_item-mem _ _ _ e)))
        ]

  -- Queues that have just been set up.
  init_items-IsDistinct :
      (n : ℕ) (slab : Slab) (free : Queue) (item : ℕ → Identifier) (free' : Queue)
      (item' : ℕ → Identifier) (slab' : Slab)
      → IsDistinct (ngx.items free)
      → ((x : ℕ) → mem x (ngx.items free) ≡ true → ngx.in_use slab x ≡ true)
      → init_items ngx n slab free item ≡ some (free', item', slab')
      → IsDistinct (ngx.items free')
  unfolding init_items
  init_items-IsDistinct zero slab free item free' item' slab' d u e =
      subst (λ q. IsDistinct (ngx.items q)) (ap (λ r. r.0) (some-injective _ _ e)) d
  init_items-IsDistinct (suc n) slab free item free' item' slab' d u e =
      elim (Option-cases (ngx.slab_alloc slab identifier_size)) [
        | inl f ↦ absurd (cc (rw (init_items, f) at e))
        | inr ((x, rest), f) ↦
            let fresh = ngx.slab_alloc_fresh slab identifier_size x rest f in
            let used = ngx.in_use-slab_alloc slab identifier_size x rest f in
            let new : mem x (ngx.items free) ≡ false = elim (Bool-cases (mem x (ngx.items free))) [
              | inl g ↦ absurd (cc (fresh, u x g))
              | inr g ↦ g
            ] in
            let added = ngx.items-insert_head free x new in
            init_items-IsDistinct n rest (ngx.insert_head free x)
              (at_item x (record { exptime = 0; id = [] }) item) free' item' slab'
              (rw added (new, d))
              (λ y m. used y ∙ elim (Bool-cases (y == x)) [
                | inl g ↦ rw g refl
                | inr g ↦ rw g (u y (rw (added, g) at m))
              ])
              (rw (init_items, f) at e)
      ]

  pub init_identifier_cache-IsTidy :
      (n : ℕ) (slab : Slab) (item : ℕ → Identifier) (sh : Shctx Queue) (slab' : Slab)
      → init_identifier_cache ngx n slab item ≡ some (sh, slab')
      → IsTidy sh
  unfolding init_identifier_cache
  init_identifier_cache-IsTidy n slab item sh slab' e =
      elim (Option-cases (init_items ngx n slab ngx.queue_init item)) [
        | inl f ↦ absurd (cc (rw (init_identifier_cache, f) at e))
        | inr ((free, item', rest), f) ↦
            let empty = ngx.items-queue_init in
            subst IsTidy (ap (λ r. r.0) (some-injective _ _ (rw (init_identifier_cache, f) at e)))
              (record {
                apart = record {
                  left = rw empty tt;
                  right =
                      init_items-IsDistinct n slab ngx.queue_init item free item' rest (rw empty tt)
                        (λ x m. absurd (cc (rw empty at m))) f;
                  common = λ y m. absurd (cc (rw empty at m));
                };
                unique = λ x y p q g. absurd (cc (rw empty at p));
              })
      ]
