-- ===== src/HustdbHa/Interleaved.antt =====
-- Two requests with identifiers and others that ask for one, in any order of the parts that
-- hustdb_ha_set_table_handler.c runs under the mutex.
use hustngx.Prelude.{
  ℕ, ◌+◌, ◌%◌, ◌^◌, ◌≡◌, ◌≢◌, refl, sym, ap, subst, ◌∙◌, ◌||◌, true, false, Option, none, some,
  List, [], ◌∷◌, ◌++◌, ==_refl, mem, mem-append, mem-append_left, erase, mem-erase_ne, arith, inl,
  inr, Bool-cases, Option-cases,
}
use hustngx.Nginx.{Nginx, Bytes}
use hustngx.Fetch.Cache.{match_item}
use hustngx.Fetch.Conserved.{match_item-mem}
use hustngx.Fetch.Apart.{Apart, Apart-flip, Apart-front}
use hustngx.HustdbHa.Identifiers.{
  Shctx, alloc_identifier, free_identifier, release, match_id, is_expired, refresh_expired,
  new_identifier, generate_identifier, Phase, found, passed, look, World, Step, Reach, arrival,
  here, next, first_looks, second_looks, first_takes, second_takes, generates,
}
use hustngx.HustdbHa.Tidy.{IsTidy, release-IsTidy, refresh_expired-IsTidy}
use hustngx.HustdbHa.OneTime.{generate_identifier-IsTidy, allocated}

module _ {Queue Slab : Type 0} (ngx : Nginx Queue Slab) where
  abbrev all : Shctx Queue → List ℕ
  all sh = ngx.items sh.cache_identifier ++ ngx.items sh.free_identifier

  -- No item of the queues is lost.
  abbrev Keeps : Shctx Queue → Shctx Queue → Type 0
  Keeps sh sh' = (y : ℕ) → mem y (all sh) ≡ true → mem y (all sh') ≡ true

  mem_either :
      (y : ℕ) (xs ys xs' ys' : List ℕ)
      → (mem y xs || mem y ys) ≡ true
      → (mem y xs ≡ true → (mem y xs' || mem y ys') ≡ true)
      → (mem y ys ≡ true → (mem y xs' || mem y ys') ≡ true)
      → mem y (xs' ++ ys') ≡ true
  mem_either y xs ys xs' ys' m left right = elim (Bool-cases (mem y xs)) [
    | inl e ↦ mem-append y xs' ys' ∙ left e
    | inr e ↦ mem-append y xs' ys' ∙ right (rw e at m)
  ]

  free_identifier-Keeps :
      (x : ℕ) (sh : Shctx Queue)
      → Apart (ngx.items sh.cache_identifier) (ngx.items sh.free_identifier)
      → mem x (all sh) ≡ true
      → Keeps sh (free_identifier ngx x sh)
  unfolding free_identifier
  free_identifier-Keeps x sh a m y p =
      let cache = ngx.items sh.cache_identifier in
      let free = ngx.items sh.free_identifier in
      elim (Bool-cases (mem x cache)) [
        | inl e ↦
            let removed = ngx.items-remove sh.cache_identifier x e in
            let added = ngx.items-insert_head sh.free_identifier x (a.common x e) in
            let moved : mem y (erase x cache ++ (x ∷ free)) ≡ true =
              mem_either y cache free (erase x cache) (x ∷ free) (sym (mem-append y cache free) ∙ p)
                (λ q. ground (arith, mem-erase_ne x y cache)) (λ q. ground arith) in
            rw (free_identifier, e, removed, added) moved
        | inr e ↦
            let flipped = Apart-flip cache free a in
            let in_free : mem x free ≡ true = sym (mem-append x cache free ∙ rw e refl) ∙ m in
            let removed = ngx.items-remove sh.free_identifier x in_free in
            let gone : mem x (ngx.items (ngx.remove sh.free_identifier x)) ≡ false =
              ap (mem x) removed ∙ (Apart-front x free cache flipped in_free).left.0 in
            let added =
              ngx.items-insert_head (ngx.remove sh.free_identifier x) x gone ∙ ap (◌∷◌ x) removed in
            let moved : mem y (cache ++ (x ∷ erase x free)) ≡ true =
              mem_either y cache free cache (x ∷ erase x free) (sym (mem-append y cache free) ∙ p)
                (λ q. ground arith) (λ q. ground (arith, mem-erase_ne x y free)) in
            rw (free_identifier, e, added) moved
      ]

  allocated-Keeps :
      (x : ℕ) (rest : List ℕ) (sh : Shctx Queue)
      → IsTidy ngx sh
      → ngx.items sh.free_identifier ≡ x ∷ rest
      → Keeps sh (alloc_identifier ngx x sh)
  allocated-Keeps x rest sh t e y p =
      let cache = ngx.items sh.cache_identifier in
      let free = ngx.items sh.free_identifier in
      let in_free : mem x free ≡ true = rw e (ground (arith, ==_refl x)) in
      let moved : mem y ((x ∷ cache) ++ erase x free) ≡ true =
        mem_either y cache free (x ∷ cache) (erase x free) (sym (mem-append y cache free) ∙ p)
          (λ q. ground arith) (λ q. ground (arith, mem-erase_ne x y free)) in
      rw ((allocated ngx x rest sh t e).0)
        (unfold alloc_identifier in rw (ngx.items-remove sh.free_identifier x in_free) moved)

  release-Keeps :
      (x : ℕ) (sh : Shctx Queue)
      → IsTidy ngx sh
      → mem x (all sh) ≡ true
      → Keeps sh (release ngx x sh)
  unfolding release
  release-Keeps x sh t m = free_identifier-Keeps x _ t.apart m

  refresh_expired-Keeps :
      (now : ℕ) (sh : Shctx Queue) → IsTidy ngx sh → Keeps sh (refresh_expired ngx now sh)
  unfolding refresh_expired
  refresh_expired-Keeps now sh t =
      elim (Option-cases
        (match_item (λ x. is_expired now (sh.item x)) (ngx.items sh.cache_identifier))) [
          | inl e ↦ rw (refresh_expired, e) (λ y p. p)
          | inr (x, e) ↦
              rw (refresh_expired, e)
                (release-Keeps x sh t (
                  mem-append_left x (ngx.items sh.cache_identifier) (ngx.items sh.free_identifier)
                    (match_item-mem _ _ _ e)))
        ]

  new_identifier-Keeps :
      (exptime : ℕ) (id : Bytes) (cipher : Option Bytes) (sh : Shctx Queue)
      → IsTidy ngx sh
      → Keeps sh (new_identifier ngx exptime id cipher sh).1
  unfolding new_identifier
  new_identifier-Keeps exptime id cipher sh t = elim (Option-cases (match_id ngx id sh)) [
    | inr (x, e) ↦ rw (new_identifier, e) (λ y p. p)
    | inl e ↦ from_free (ngx.items sh.free_identifier) refl e cipher
  ]
    where
      as_free :
          (y : ℕ) (free : List ℕ)
          → ngx.items sh.free_identifier ≡ free
          → mem y (ngx.items sh.cache_identifier ++ free) ≡ true
          → mem y (all sh) ≡ true
      as_free y free f p = ap (λ list. mem y (ngx.items sh.cache_identifier ++ list)) f ∙ p

      from_free :
          (free : List ℕ)
          → ngx.items sh.free_identifier ≡ free
          → match_id ngx id sh ≡ none
          → (code : Option Bytes) → Keeps sh (new_identifier ngx exptime id code sh).1
      from_free [] f e code = rw (new_identifier, e, f) (λ y p. as_free y [] f p)
      from_free (x ∷ rest) f e none =
          let sh' = alloc_identifier ngx x sh in
          let (cache, apart) = allocated ngx x rest sh t f in
          let used : mem x (ngx.items sh'.cache_identifier) ≡ true =
            rw cache (ground (arith, ==_refl x)) in
          rw (new_identifier, e, f)
            (λ y p.
              free_identifier-Keeps x sh' (rw cache apart)
                (mem-append_left x (ngx.items sh'.cache_identifier) (ngx.items sh'.free_identifier)
                  used)
                y (allocated-Keeps x rest sh t f y (as_free y (x ∷ rest) f p)))
      from_free (x ∷ rest) f e (some text) =
          rw (new_identifier, e, f)
            (λ y p. allocated-Keeps x rest sh t f y (as_free y (x ∷ rest) f p))

  generate_identifier-Keeps :
      (now identifier_timeout : ℕ) (id : Bytes) (cipher : Option Bytes) (sh : Shctx Queue)
      → IsTidy ngx sh
      → Keeps sh (generate_identifier ngx now identifier_timeout id cipher sh).1
  unfolding generate_identifier
  generate_identifier-Keeps now identifier_timeout id cipher sh t y p =
      new_identifier-Keeps ((now + identifier_timeout) % 2 ^ 64) id cipher
        (refresh_expired ngx now sh) (refresh_expired-IsTidy ngx now sh t) y
        (refresh_expired-Keeps now sh t y p)

  -- What a request has found is an item of the queues.
  abbrev Knows : Shctx Queue → Phase → Type 0
  Knows sh phase = (x : ℕ) → phase ≡ found x → mem x (all sh) ≡ true

  record IsSound (start : Shctx Queue) (w : World Queue) : Type 0 where
    tidy : IsTidy ngx w.sh
    first : Knows w.sh w.first
    second : Knows w.sh w.second
    kept : Keeps start w.sh

  look-Knows : (id : Bytes) (sh : Shctx Queue) → Knows sh (look ngx id sh)
  unfolding look match_id
  look-Knows id sh x e = elim (Option-cases (match_id ngx id sh)) [
    | inl f ↦ absurd (cc (rw (look, f) at e))
    | inr (y, f) ↦
        let same_item : y ≡ x = found_item y x (rw (look, f) at e) in
        mem-append_left x (ngx.items sh.cache_identifier) (ngx.items sh.free_identifier)
          (match_item-mem _ _ _ (f ∙ ap some same_item))
  ]
    where
      found_item : (a b : ℕ) → found a ≡ found b → a ≡ b
      found_item a b g = cc

  not_passed : (x : ℕ) → passed ≢ found x
  not_passed x e = absurd (cc e)

  Step-IsSound :
      (start : Shctx Queue) {w w' : World Queue}
      → Step ngx w w'
      → IsSound start w
      → IsSound start w'
  Step-IsSound start {w} (first_looks id e c) s =
      subst (IsSound start) (sym c)
        (record { tidy = s.tidy; first = look-Knows id w.sh; second = s.second; kept = s.kept })
  Step-IsSound start {w} (second_looks id e c) s =
      subst (IsSound start) (sym c)
        (record { tidy = s.tidy; first = s.first; second = look-Knows id w.sh; kept = s.kept })
  Step-IsSound start {w} (first_takes x e c) s =
      let keeps = release-Keeps x w.sh s.tidy (s.first x e) in
      subst (IsSound start) (sym c) (record {
        tidy = release-IsTidy ngx x w.sh s.tidy (s.first x e);
        first = λ y f. absurd (not_passed y f);
        second = λ y f. keeps y (s.second y f);
        kept = λ y p. keeps y (s.kept y p);
      })
  Step-IsSound start {w} (second_takes x e c) s =
      let keeps = release-Keeps x w.sh s.tidy (s.second x e) in
      subst (IsSound start) (sym c) (record {
        tidy = release-IsTidy ngx x w.sh s.tidy (s.second x e);
        first = λ y f. keeps y (s.first y f);
        second = λ y f. absurd (not_passed y f);
        kept = λ y p. keeps y (s.kept y p);
      })
  Step-IsSound start {w} (generates now identifier_timeout id cipher c) s =
      let keeps = generate_identifier-Keeps now identifier_timeout id cipher w.sh s.tidy in
      subst (IsSound start) (sym c) (record {
        tidy = generate_identifier-IsTidy ngx now identifier_timeout id cipher w.sh s.tidy;
        first = λ y f. keeps y (s.first y f);
        second = λ y f. keeps y (s.second y f);
        kept = λ y p. keeps y (s.kept y p);
      })

  Reach-IsSound :
      (start : Shctx Queue) {w w' : World Queue}
      → IsSound start w
      → Reach ngx w w'
      → IsSound start w'
  Reach-IsSound start s here = s
  Reach-IsSound start s (next r st) = Step-IsSound start st (Reach-IsSound start s r)

  at_arrival : (sh : Shctx Queue) → IsTidy ngx sh → IsSound sh (arrival sh)
  at_arrival sh t = record {
    tidy = t;
    first = λ x e. absurd (cc e);
    second = λ x e. absurd (cc e);
    kept = λ y p. p;
  }

  -- From memory where no identifier is in both queues or twice in one and no two in use have the
  -- same name, every interleaving of two requests that look an identifier up and free it, and of
  -- requests for new ones, leads to such memory, and no item of the queues is lost.
  pub Reach-IsTidy :
      (sh : Shctx Queue) (w : World Queue)
      → IsTidy ngx sh
      → Reach ngx (arrival sh) w
      → IsTidy ngx w.sh
        × ((y : ℕ)
            → mem y (ngx.items sh.cache_identifier ++ ngx.items sh.free_identifier) ≡ true
            → mem y (ngx.items w.sh.cache_identifier ++ ngx.items w.sh.free_identifier) ≡ true)
  Reach-IsTidy sh w t r = let s = Reach-IsSound sh (at_arrival sh t) r in (s.tidy, s.kept)
