-- ===== src/Fetch/Conserved.antt =====
-- The items of the caches of ngx_http_fetch_cache.c through the calls that move them.
use hustngx.Prelude.{
  ℕ, zero, suc, ◌+◌, ◌≡◌, refl, sym, ap, ◌∙◌, subst, Bool, true, false, Option, some,
  some-injective, List, [], ◌∷◌, ◌++◌, ◌==◌, get_last?, mem, erase, mem-get_last?, mem-append,
  arith, inl, inr, Bool-cases, Option-cases,
}
use mathlib.Core.List.{Perm, perm_middle}
use mathlib.Core.List.Perm
use hustngx.Nginx.{Nginx, Bytes}
use hustngx.Fetch.Apart.{Apart, Apart-flip, Apart-move, Apart-front, erase-Perm}
use hustngx.Fetch.Cache.{
  Queues, KeepaliveItem, cache_init, match_item, is_eq, match_connection, give_back, take_free,
  reuse_connection, get_free_connection, upstream_reuse_cache, upstream_reuse_connection,
  upstream_get_free_connection,
}

pub match_item-mem :
    (test : ℕ → Bool) (xs : List ℕ) (x : ℕ) → match_item test xs ≡ some x → mem x xs ≡ true
unfolding match_item
match_item-mem test [] x e = absurd (cc)
match_item-mem test (y ∷ xs) x e = elim (Bool-cases (test y)) [
  | inl f ↦ let same : y ≡ x = some-injective _ _ (rw f at e) in ground arith
  | inr f ↦ let later = match_item-mem test xs x (rw f at e) in ground (arith, later)
]

-- The items of a cache of a size, as they are set up.
abbrev pub slots_from : ℕ → ℕ → List ℕ → List ℕ
slots_from zero i xs = xs
slots_from (suc n) i xs = slots_from n (i + 1) (i ∷ xs)

abbrev pub slots : ℕ → List ℕ
slots n = slots_from n 0 []

module _ {Queue Slab : Type 0} (ngx : Nginx Queue Slab) where
  abbrev pub all : Queues Queue → List ℕ
  all q = ngx.items q.cache ++ ngx.items q.free

  -- The queues have no common item and none twice, and all items of a cache of the size `n`.
  pub record IsWhole (n : ℕ) (q : Queues Queue) : Type 0 where
    pub apart : Apart (ngx.items q.cache) (ngx.items q.free)
    pub items : Perm (all q) (slots n)

  -- The front of a queue, for an item that has just been taken out of it.
  back_in_front :
      (queue : Queue) (x : ℕ) (ys : List ℕ)
      → Apart (ngx.items queue) ys
      → mem x (ngx.items queue) ≡ true
      → ngx.items (ngx.insert_head (ngx.remove queue x) x) ≡ x ∷ erase x (ngx.items queue)
  back_in_front queue x ys h e =
      let removed = ngx.items-remove queue x e in
      let gone : mem x (ngx.items (ngx.remove queue x)) ≡ false =
        ap (mem x) removed ∙ (Apart-front x (ngx.items queue) ys h e).left.0 in
      ngx.items-insert_head (ngx.remove queue x) x gone ∙ ap (◌∷◌ x) removed

  give_back-IsWhole :
      (n x : ℕ) (q : Queues Queue)
      → IsWhole n q
      → mem x (ngx.items q.cache) ≡ true
      → IsWhole n (give_back ngx x q)
  unfolding give_back
  give_back-IsWhole n x q w e =
      let removed = ngx.items-remove q.cache x e in
      let added = ngx.items-insert_head q.free x (w.apart.common x e) in
      record {
        apart = rw (removed, added) (Apart-move x _ _ w.apart e);
        items =
            rw (removed, added)
              (Perm.trans (perm_middle (erase x (ngx.items q.cache)) (ngx.items q.free)) (
                Perm.trans
                  (Perm.append_right (ngx.items q.free) (erase-Perm x (ngx.items q.cache) e))
                  w.items));
      }

  take_free-IsWhole :
      (n x : ℕ) (q : Queues Queue)
      → IsWhole n q
      → mem x (ngx.items q.free) ≡ true
      → IsWhole n (take_free ngx x q)
  unfolding take_free
  take_free-IsWhole n x q w e =
      let flipped = Apart-flip (ngx.items q.cache) (ngx.items q.free) w.apart in
      let removed = ngx.items-remove q.free x e in
      let added = ngx.items-insert_head q.cache x (flipped.common x e) in
      record {
        apart = rw (removed, added) (Apart-flip _ _ (Apart-move x _ _ flipped e));
        items =
            rw (removed, added)
              (Perm.trans (Perm.symm (perm_middle (ngx.items q.cache) (erase x (ngx.items q.free))))
                (Perm.trans
                  (Perm.append_left (ngx.items q.cache) (erase-Perm x (ngx.items q.free) e))
                  w.items));
      }

  front-IsWhole :
      (n x : ℕ) (q : Queues Queue)
      → IsWhole n q
      → mem x (ngx.items q.cache) ≡ true
      → IsWhole n (record q { cache = ngx.insert_head (ngx.remove q.cache x) x })
  front-IsWhole n x q w e =
      let moved = back_in_front q.cache x (ngx.items q.free) w.apart e in
      record {
        apart = rw moved (Apart-front x (ngx.items q.cache) (ngx.items q.free) w.apart e);
        items = rw moved (
            Perm.trans (Perm.append_right (ngx.items q.free) (erase-Perm x (ngx.items q.cache) e))
              w.items);
      }

  front_free-IsWhole :
      (n x : ℕ) (q : Queues Queue)
      → IsWhole n q
      → mem x (ngx.items q.free) ≡ true
      → IsWhole n (record q { free = ngx.insert_head (ngx.remove q.free x) x })
  front_free-IsWhole n x q w e =
      let flipped = Apart-flip (ngx.items q.cache) (ngx.items q.free) w.apart in
      let moved = back_in_front q.free x (ngx.items q.cache) flipped e in
      record {
        apart =
            rw moved
              (Apart-flip _ _ (Apart-front x (ngx.items q.free) (ngx.items q.cache) flipped e));
        items = rw moved (
            Perm.trans (Perm.append_left (ngx.items q.cache) (erase-Perm x (ngx.items q.free) e))
              w.items);
      }

  pub head-mem : (x : ℕ) (xs rest : List ℕ) → xs ≡ x ∷ rest → mem x xs ≡ true
  head-mem x xs rest e = rw e (ground arith)

  -- The calls that change the queues of a cache.
  pub data Step {C : Type 0} (items : ℕ → KeepaliveItem C)
      : Queues Queue → Queues Queue → Type 0 where
    gets :
        {q q' : Queues Queue} (x : ℕ) → get_free_connection ngx q ≡ some (x, q') → Step items q q'
    reuses : {q q' : Queues Queue} (x : ℕ) → reuse_connection ngx x q ≡ some q' → Step items q q'
    upstream_gets :
        {q q' : Queues Queue} (x : ℕ) (closed : Option C)
        → upstream_get_free_connection ngx items q ≡ some (x, closed, q')
        → Step items q q'
    upstream_reuses :
        {q q' : Queues Queue} (sockaddr : Bytes)
        → (upstream_reuse_connection ngx items sockaddr q).1 ≡ q'
        → Step items q q'
    upstream_frees :
        {q q' : Queues Queue} (x : ℕ)
        → mem x (all q) ≡ true
        → upstream_reuse_cache ngx x q ≡ q'
        → Step items q q'

  -- The queues that a cache of a size can have.
  pub data Reaches (C : Type 0) (n : ℕ) : Queues Queue → Type 0 where
    starts : {q : Queues Queue} → cache_init ngx true n ≡ some q → Reaches C n q
    goes :
        {q q' : Queues Queue} (items : ℕ → KeepaliveItem C)
        → Reaches C n q
        → Step items q q'
        → Reaches C n q'

  get_free_connection-IsWhole :
      (n x : ℕ) (q q' : Queues Queue)
      → IsWhole n q
      → get_free_connection ngx q ≡ some (x, q')
      → IsWhole n q'
  unfolding get_free_connection
  get_free_connection-IsWhole n x q q' w e = go (ngx.items q.free) refl
    where
      go : (list : List ℕ) → ngx.items q.free ≡ list → IsWhole n q'
      go [] f = absurd (cc (rw (get_free_connection, f) at e))
      go (y ∷ rest) f =
          let same : take_free ngx y q ≡ q' =
            ap (λ r. r.1) (some-injective _ _ (rw (get_free_connection, f) at e)) in
          subst (IsWhole n) same (take_free-IsWhole n y q w (head-mem y (ngx.items q.free) rest f))

  reuse_connection-IsWhole :
      (n x : ℕ) (q q' : Queues Queue)
      → IsWhole n q
      → reuse_connection ngx x q ≡ some q'
      → IsWhole n q'
  unfolding reuse_connection match_connection
  reuse_connection-IsWhole n x q q' w e = elim (Option-cases (match_connection ngx q.cache x)) [
    | inl f ↦ absurd (cc (rw (reuse_connection, f) at e))
    | inr (y, f) ↦
        let same : give_back ngx y q ≡ q' = some-injective _ _ (rw (reuse_connection, f) at e) in
        subst (IsWhole n) same
          (give_back-IsWhole n y q w (match_item-mem (λ z. z == x) (ngx.items q.cache) y f))
  ]

  upstream_reuse_cache-IsWhole :
      (n x : ℕ) (q : Queues Queue)
      → IsWhole n q
      → mem x (all q) ≡ true
      → IsWhole n (upstream_reuse_cache ngx x q)
  unfolding upstream_reuse_cache
  upstream_reuse_cache-IsWhole n x q w e = elim (Bool-cases (mem x (ngx.items q.cache))) [
    | inl f ↦ rw (upstream_reuse_cache, f) (give_back-IsWhole n x q w f)
    | inr f ↦
        rw (upstream_reuse_cache, f)
          (front_free-IsWhole n x q w
            (sym (mem-append x (ngx.items q.cache) (ngx.items q.free) ∙ rw f refl) ∙ e))
  ]

  module _ {C : Type 0} (items : ℕ → KeepaliveItem C) where
    upstream_reuse_connection-IsWhole :
        (n : ℕ) (sockaddr : Bytes) (q : Queues Queue)
        → IsWhole n q
        → IsWhole n (upstream_reuse_connection ngx items sockaddr q).1
    unfolding upstream_reuse_connection
    upstream_reuse_connection-IsWhole n sockaddr q w =
        elim (Option-cases (match_item test (ngx.items q.cache))) [
          | inl f ↦ rw (upstream_reuse_connection, f) w
          | inr (x, f) ↦
              rw (upstream_reuse_connection, f)
                (give_back-IsWhole n x q w (match_item-mem test (ngx.items q.cache) x f))
        ]
      where
        test : ℕ → Bool
        test x = is_eq (ngx.memn2cmp (items x).sockaddr sockaddr)

    upstream_get_free_connection-IsWhole :
        (n x : ℕ) (closed : Option C) (q q' : Queues Queue)
        → IsWhole n q
        → upstream_get_free_connection ngx items q ≡ some (x, closed, q')
        → IsWhole n q'
    unfolding upstream_get_free_connection
    upstream_get_free_connection-IsWhole n x closed q q' w e = go (ngx.items q.free) refl
      where
        go : (list : List ℕ) → ngx.items q.free ≡ list → IsWhole n q'
        go (y ∷ rest) f =
            let same : take_free ngx y q ≡ q' =
              ap (λ r. r.2) (some-injective _ _ (rw (upstream_get_free_connection, f) at e)) in
            subst (IsWhole n) same
              (take_free-IsWhole n y q w (head-mem y (ngx.items q.free) rest f))
        go [] f = elim (Option-cases (get_last? (ngx.items q.cache))) [
          | inl g ↦ absurd (cc (rw (upstream_get_free_connection, f, g) at e))
          | inr (y, g) ↦
              let same : record q { cache = ngx.insert_head (ngx.remove q.cache y) y } ≡ q' =
                ap (λ r. r.2) (some-injective _ _ (rw (upstream_get_free_connection, f, g) at e)) in
              subst (IsWhole n) same (front-IsWhole n y q w (mem-get_last? (ngx.items q.cache) g))
        ]

    pub Step-IsWhole : (n : ℕ) (q q' : Queues Queue) → IsWhole n q → Step items q q' → IsWhole n q'
    Step-IsWhole n q q' w (gets x e) = get_free_connection-IsWhole n x q q' w e
    Step-IsWhole n q q' w (reuses x e) = reuse_connection-IsWhole n x q q' w e
    Step-IsWhole n q q' w (upstream_gets x closed e) =
        upstream_get_free_connection-IsWhole n x closed q q' w e
    Step-IsWhole n q q' w (upstream_reuses sockaddr e) =
        subst (IsWhole n) e (upstream_reuse_connection-IsWhole n sockaddr q w)
    Step-IsWhole n q q' w (upstream_frees x h e) =
        subst (IsWhole n) e (upstream_reuse_cache-IsWhole n x q w h)
