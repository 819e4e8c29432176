-- ===== src/Fetch/Start.antt =====
-- The caches of ngx_http_fetch_cache.c from their set-up on.
use hustngx.Prelude.{
  ℕ, zero, suc, ◌+◌, ◌≡◌, ◌≢◌, ◌<◌, refl, ap, ◌∙◌, subst, true, false, none, some, some-injective,
  List, [], ◌∷◌, ◌++◌, ◌==◌, ==_iff, length, get_last?, get_last?-eq-none, mem, IsDistinct, arith,
  inl, inr, Bool-cases, Option-cases,
}
use mathlib.Core.List.Perm
use hustngx.Nginx.{Nginx}
use hustngx.Fetch.Cache.{
  Queues, KeepaliveItem, insert_items, cache_init, upstream_get_free_connection,
}
use hustngx.Fetch.Conserved.{slots_from, slots, all, IsWhole, Step-IsWhole, Reaches, starts, goes}

length-slots_from : (n i : ℕ) (xs : List ℕ) → length (slots_from n i xs) ≡ n + length xs
length-slots_from zero i xs = omega arith
length-slots_from (suc n) i xs = omega (arith, length-slots_from n (i + 1) (i ∷ xs))

module _ {Queue Slab : Type 0} (ngx : Nginx Queue Slab) where
  IsBelow : ℕ → Queue → Type 0
  IsBelow i q = (y : ℕ) → mem y (ngx.items q) ≡ true → y < i

  insert_items-slots_from :
      (n i : ℕ) (q : Queue)
      → IsDistinct (ngx.items q)
      → IsBelow i q
      → (ngx.items (insert_items ngx n i q) ≡ slots_from n i (ngx.items q))
        × IsDistinct (ngx.items (insert_items ngx n i q))
  unfolding insert_items IsBelow
  insert_items-slots_from zero i q d below = (refl, d)
  insert_items-slots_from (suc n) i q d below =
      let absent : mem i (ngx.items q) ≡ false = elim (Bool-cases (mem i (ngx.items q))) [
        | inl e ↦ absurd (omega (arith, below i e))
        | inr e ↦ e
      ] in
      let added = ngx.items-insert_head q i absent in
      let more : IsBelow (i + 1) (ngx.insert_head q i) = λ y e. elim (Bool-cases (y == i)) [
        | inl f ↦ omega (arith, (==_iff y i).0 f)
        | inr f ↦ omega (arith, below y (rw (added, f) at e))
      ] in
      let (listed, distinct) =
        insert_items-slots_from n (i + 1) (ngx.insert_head q i) (rw added (absent, d)) more in
      (listed ∙ ap (slots_from n (i + 1)) added, distinct)

  cache_init-IsWhole : (n : ℕ) (q : Queues Queue) → cache_init ngx true n ≡ some q → IsWhole ngx n q
  unfolding cache_init IsBelow
  cache_init-IsWhole n q e =
      let none_at_first = ngx.items-queue_init in
      let (listed, distinct) =
        insert_items-slots_from n 0 ngx.queue_init (rw none_at_first tt)
          (λ y f. absurd (cc (rw none_at_first at f))) in
      let listed' : ngx.items (insert_items ngx n 0 ngx.queue_init) ≡ slots n =
        listed ∙ ap (slots_from n 0) none_at_first in
      subst (IsWhole ngx n) (some-injective _ _ e) (record {
        apart = record {
          left = rw none_at_first tt;
          right = distinct;
          common = λ y f. absurd (cc (rw none_at_first at f));
        };
        items = rw (none_at_first, listed') Perm.rfl;
      })

  -- After any sequence of calls that take an item, give one back by its connection or its address,
  -- or free one that is in a queue, the queues of a connection cache have no item in common and
  -- none twice, and together they are a permutation of the items that it was set up with.
  pub Reaches-IsWhole :
      (C : Type 0) (n : ℕ) (q : Queues Queue) → Reaches ngx C n q → IsWhole ngx n q
  Reaches-IsWhole C n q (starts e) = cache_init-IsWhole n q e
  Reaches-IsWhole C n q' (goes {q} items r s) =
      Step-IsWhole ngx items n q q' (Reaches-IsWhole C n q r) s

  -- In a cache of at least one item, whatever calls came before, taking an item for a connection
  -- to keep never meets two empty queues.
  pub upstream_get_free_connection-gives :
      (C : Type 0) (n : ℕ) (q : Queues Queue)
      → 0 < n
      → Reaches ngx C n q
      → (items : ℕ → KeepaliveItem C) → upstream_get_free_connection ngx items q ≢ none
  unfolding upstream_get_free_connection
  upstream_get_free_connection-gives C n q p r items e = go (ngx.items q.free) refl
    where
      go : (list : List ℕ) → ngx.items q.free ≡ list → ⊥
      go (y ∷ rest) f = absurd (cc (rw (upstream_get_free_connection, f) at e))
      go [] f = elim (Option-cases (get_last? (ngx.items q.cache))) [
        | inr (y, g) ↦ absurd (cc (rw (upstream_get_free_connection, f, g) at e))
        | inl g ↦
            let empty : all ngx q ≡ [] =
              ap (λ l. l ++ ngx.items q.free) (get_last?-eq-none {xs = ngx.items q.cache} g) ∙ f in
            let nothing = Perm.nil-eq (rw empty at (Reaches-IsWhole C n q r).items) in
            absurd (omega (arith, p, length-slots_from n 0 [], ap length nothing))
      ]
