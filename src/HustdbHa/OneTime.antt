-- ===== src/HustdbHa/OneTime.antt =====
-- How often an identifier of hustdb_ha_set_table_handler.c is accepted.
use hustngx.Prelude.{
  ℕ, ◌+◌, ◌%◌, ◌^◌, ◌≡◌, refl, sym, ap, ◌∙◌, Bool, true, false, Option, none, some, List, [], ◌∷◌,
  ◌==◌, ==_iff, ==_refl, mem, erase, mem-erase, arith, inl, inr, Bool-cases, Option-cases,
}
use hustngx.Nginx.{Nginx, Bytes}
use hustngx.CDict.Table.{same}
use hustngx.CDict.Chain.{same_refl, same_true}
use hustngx.Fetch.Cache.{match_item}
use hustngx.Fetch.Conserved.{match_item-mem}
use hustngx.Fetch.Apart.{Apart, Apart-flip, Apart-move}
use hustngx.HustdbHa.Identifiers.{
  Shctx, ok, at_item, alloc_identifier, free_identifier, release, match_id, refresh_expired,
  new_identifier, generate_identifier, refused, found, passed, look, Reach, arrival, here, next,
  first_looks, second_looks, first_takes, second_takes,
}
use hustngx.HustdbHa.Tidy.{IsTidy, narrow, refresh_expired-IsTidy, match_item-none, match_item-test}

no_match_item :
    (test : ℕ → Bool) (xs : List ℕ)
    → ((x : ℕ) → mem x xs ≡ true → test x ≡ false)
    → match_item test xs ≡ none
unfolding match_item
no_match_item test [] f = refl
no_match_item test (y ∷ xs) f =
    rw (f y (ground (arith, ==_refl y))) (no_match_item test xs (λ x m. f x (ground arith)))

module _ {Queue Slab : Type 0} (ngx : Nginx Queue Slab) where
  -- An identifier that is free goes into use under a new name.
  named : ℕ → ℕ → Bytes → Shctx Queue → Shctx Queue
  named x exptime id sh = record (alloc_identifier ngx x sh) {
    item = at_item x (record { exptime = exptime; id = id }) sh.item;
  }

  pub allocated :
      (x : ℕ) (rest : List ℕ) (sh : Shctx Queue)
      → IsTidy ngx sh
      → ngx.items sh.free_identifier ≡ x ∷ rest
      → (ngx.items (alloc_identifier ngx x sh).cache_identifier ≡ x ∷ ngx.items sh.cache_identifier)
        × Apart
            (x ∷ ngx.items sh.cache_identifier)
            (ngx.items (alloc_identifier ngx x sh).free_identifier)
  unfolding alloc_identifier
  allocated x rest sh t e =
      let free : mem x (ngx.items sh.free_identifier) ≡ true = rw e (ground (arith, ==_refl x)) in
      let flipped =
        Apart-flip (ngx.items sh.cache_identifier) (ngx.items sh.free_identifier) t.apart in
      let removed = ngx.items-remove sh.free_identifier x free in
      let added = ngx.items-insert_head sh.cache_identifier x (flipped.common x free) in
      (added, rw removed (Apart-flip _ _ (Apart-move x _ _ flipped free)))

  named-IsTidy :
      (x : ℕ) (rest : List ℕ) (exptime : ℕ) (id : Bytes) (sh : Shctx Queue)
      → IsTidy ngx sh
      → ngx.items sh.free_identifier ≡ x ∷ rest
      → match_id ngx id sh ≡ none
      → IsTidy ngx (named x exptime id sh)
  unfolding named match_id
  named-IsTidy x rest exptime id sh t e n =
      let (cache, apart) = allocated x rest sh t e in
      let fresh = match_item-none _ (ngx.items sh.cache_identifier) n in
      let clash : (y : ℕ)
          → mem y (ngx.items sh.cache_identifier) ≡ true
          → id ≡ (sh.item y).id
          → false ≡ true =
        λ y m same_id. sym (fresh y m) ∙ ap (same id) (sym same_id) ∙ same_refl id in
      record {
        apart = rw cache apart;
        unique = λ y z p q same_id. elim (Bool-cases (y == x)) [
          | inl f ↦ elim (Bool-cases (z == x)) [
            | inl g ↦ (==_iff y x).0 f ∙ sym ((==_iff z x).0 g)
            | inr g ↦ absurd (cc (clash z (rw (cache, g) at q) (rw (f, g) at same_id)))
          ]
          | inr f ↦ elim (Bool-cases (z == x)) [
            | inl g ↦ absurd (cc (clash y (rw (cache, f) at p) (sym (rw (f, g) at same_id))))
            | inr g ↦ t.unique y z (rw (cache, f) at p) (rw (cache, g) at q) (rw (f, g) at same_id)
          ]
        ];
      }

  -- An identifier that goes into use and is freed at once.
  returned-IsTidy :
      (x : ℕ) (rest : List ℕ) (sh : Shctx Queue)
      → IsTidy ngx sh
      → ngx.items sh.free_identifier ≡ x ∷ rest
      → IsTidy ngx (free_identifier ngx x (alloc_identifier ngx x sh))
  unfolding free_identifier
  returned-IsTidy x rest sh t e =
      let sh' = alloc_identifier ngx x sh in
      let (cache, apart) = allocated x rest sh t e in
      let used : mem x (ngx.items sh'.cache_identifier) ≡ true =
        rw cache (ground (arith, ==_refl x)) in
      let apart' : Apart (ngx.items sh'.cache_identifier) (ngx.items sh'.free_identifier) =
        rw cache apart in
      let left : ngx.items (ngx.remove sh'.cache_identifier x) ≡ ngx.items sh.cache_identifier =
        ngx.items-remove sh'.cache_identifier x used ∙ ap (erase x) cache ∙ rw (==_refl x) refl in
      let added = ngx.items-insert_head sh'.free_identifier x (apart'.common x used) in
      rw (free_identifier, used)
        (narrow ngx {sh = sh} t
          (rw (ngx.items-remove sh'.cache_identifier x used, added) (Apart-move x _ _ apart' used))
          (λ y p. rw left at p) (λ y. unfold alloc_identifier in refl))

  new_identifier-IsTidy :
      (exptime : ℕ) (id : Bytes) (cipher : Option Bytes) (sh : Shctx Queue)
      → IsTidy ngx sh
      → IsTidy ngx (new_identifier ngx exptime id cipher sh).1
  unfolding new_identifier named
  new_identifier-IsTidy exptime id cipher sh t = elim (Option-cases (match_id ngx id sh)) [
    | inr (x, e) ↦ rw (new_identifier, e) t
    | inl e ↦ from_free (ngx.items sh.free_identifier) refl e cipher
  ]
    where
      from_free :
          (free : List ℕ)
          → ngx.items sh.free_identifier ≡ free
          → match_id ngx id sh ≡ none
          → (text : Option Bytes) → IsTidy ngx (new_identifier ngx exptime id text sh).1
      from_free [] f e text = rw (new_identifier, e, f) t
      from_free (x ∷ rest) f e none = rw (new_identifier, e, f) (returned-IsTidy x rest sh t f)
      from_free (x ∷ rest) f e (some text) =
          rw (new_identifier, e, f) (named-IsTidy x rest exptime id sh t f e)

  pub generate_identifier-IsTidy :
      (now identifier_timeout : ℕ) (id : Bytes) (cipher : Option Bytes) (sh : Shctx Queue)
      → IsTidy ngx sh
      → IsTidy ngx (generate_identifier ngx now identifier_timeout id cipher sh).1
  unfolding generate_identifier
  generate_identifier-IsTidy now identifier_timeout id cipher sh t =
      new_identifier-IsTidy ((now + identifier_timeout) % 2 ^ 64) id cipher
        (refresh_expired ngx now sh) (refresh_expired-IsTidy ngx now sh t)

  -- After the item of an identifier has been freed, none in use has its name.
  release-used_up :
      (x : ℕ) (id : Bytes) (sh : Shctx Queue)
      → IsTidy ngx sh
      → match_id ngx id sh ≡ some x
      → match_id ngx id (release ngx x sh) ≡ none
  unfolding match_id release free_identifier
  release-used_up x id sh t e =
      let used = match_item-mem _ (ngx.items sh.cache_identifier) x e in
      let named_id =
        same_true id (sh.item x).id (match_item-test _ (ngx.items sh.cache_identifier) x e) in
      rw (release, free_identifier, used)
        (no_match_item _ (ngx.items (ngx.remove sh.cache_identifier x)) (λ y p.
          let left =
            ap (mem y) (ngx.items-remove sh.cache_identifier x used)
            ∙ mem-erase x y (ngx.items sh.cache_identifier) t.apart.left in
          elim (Bool-cases (y == x)) [
            | inl f ↦ absurd (cc (p, left, f))
            | inr f ↦
                let used_too : mem y (ngx.items sh.cache_identifier) ≡ true =
                  sym (rw f at left) ∙ p in
                elim (Bool-cases (same id (sh.item y).id)) [
                  | inl g ↦
                      let again =
                        t.unique x y used used_too (sym named_id ∙ same_true id (sh.item y).id g) in
                      absurd (cc (sym f ∙ ap (λ z. z == x) (sym again) ∙ ==_refl x))
                  | inr g ↦ rw (f, g) refl
                ]
          ]))

  new_identifier-ok :
      (exptime : ℕ) (id text : Bytes) (cipher : Option Bytes) (sh : Shctx Queue)
      → IsTidy ngx sh
      → (new_identifier ngx exptime id cipher sh).0 ≡ ok text
      → (x : ℕ) × (match_id ngx id (new_identifier ngx exptime id cipher sh).1 ≡ some x)
        × (((new_identifier ngx exptime id cipher sh).1.item x).exptime ≡ exptime)
        × (cipher ≡ some text)
  unfolding new_identifier
  new_identifier-ok exptime id text cipher sh t k = elim (Option-cases (match_id ngx id sh)) [
    | inr (x, e) ↦ absurd (cc (rw (new_identifier, e) at k))
    | inl e ↦ from_free (ngx.items sh.free_identifier) refl e cipher k
  ]
    where
      ok_text : (a b : Bytes) → ok a ≡ ok b → a ≡ b
      ok_text a b g = cc

      from_free :
          (free : List ℕ)
          → ngx.items sh.free_identifier ≡ free
          → match_id ngx id sh ≡ none
          → (code : Option Bytes) → (new_identifier ngx exptime id code sh).0 ≡ ok text
          → (x : ℕ) × (match_id ngx id (new_identifier ngx exptime id code sh).1 ≡ some x)
            × (((new_identifier ngx exptime id code sh).1.item x).exptime ≡ exptime)
            × (code ≡ some text)
      from_free [] f e code h = absurd (cc (rw (new_identifier, e, f) at h))
      from_free (x ∷ rest) f e none h = absurd (cc (rw (new_identifier, e, f) at h))
      from_free (x ∷ rest) f e (some code) h =
          let is_text : code ≡ text = ok_text code text (rw (new_identifier, e, f) at h) in
          (
            x,
            rw (new_identifier, e, f)
                (unfold match_id match_item in
                  rw ((allocated x rest sh t f).0, ==_refl x, same_refl id) refl),
            rw (new_identifier, e, f, ==_refl x) refl,
            ap some is_text,
          )

  -- An identifier that is generated, in memory where no identifier is in both queues or twice in
  -- one and no two in use have the same name, has been encrypted as the reply says, is found by a
  -- request that brings it, and is refused once its item has been freed.
  pub generate_identifier-once :
      (now identifier_timeout : ℕ) (id text : Bytes) (cipher : Option Bytes) (sh : Shctx Queue)
      → IsTidy ngx sh
      → (generate_identifier ngx now identifier_timeout id cipher sh).0 ≡ ok text
      → (x : ℕ) × (look ngx id (generate_identifier ngx now identifier_timeout id cipher sh).1
          ≡ found x)
        × (look ngx id
              (release ngx x (generate_identifier ngx now identifier_timeout id cipher sh).1)
            ≡ refused)
        × (cipher ≡ some text)
  unfolding look generate_identifier
  generate_identifier-once now identifier_timeout id text cipher sh t k =
      let sh' = refresh_expired ngx now sh in
      let exptime = (now + identifier_timeout) % 2 ^ 64 in
      let tidy = refresh_expired-IsTidy ngx now sh t in
      let (x, e, _, c) = new_identifier-ok exptime id text cipher sh' tidy k in
      (
        x,
        rw (look, e) refl,
        rw
            (
              look,
              release-used_up x id (new_identifier ngx exptime id cipher sh').1
                  (new_identifier-IsTidy exptime id cipher sh' tidy) e,
            )
            refl,
        c,
      )

  -- If an identifier is in use, there is an interleaving of two requests with it in which both
  -- look it up before either frees it, and both are accepted.
  pub twice_accepted :
      (id : Bytes) (x : ℕ) (sh : Shctx Queue)
      → match_id ngx id sh ≡ some x
      → Reach ngx
          (arrival sh)
          (record { sh = release ngx x (release ngx x sh); first = passed; second = passed })
  unfolding look
  twice_accepted id x sh e =
      let sees : look ngx id sh ≡ found x = rw (look, e) refl in
      next
        (next (next (next here (first_looks id refl refl)) (second_looks id refl refl))
          (first_takes x sees refl))
        (second_takes x sees refl)
