-- ===== src/CDict/Members.antt =====
-- The keys of the nodes of a table of c_dict.c.
use hustngx.Prelude.{
  ℕ, zero, suc, ◌≡◌, refl, sym, ap, ◌∙◌, Bool, true, false, ◌||◌, none, some, List, [], ◌∷◌, ◌++◌,
  ltb, leb, length, arith, inl, inr, Bool-cases, Option-cases,
}
use hustngx.Nginx.{Bytes}
use hustngx.CDict.Table.{
  Entry, Table, same, c_dict_hash, matches, newnode, find, assign, bucket, at_bucket, addnode,
  zeroed, push_chain, chain_all, readd, resize, get, set,
}
use hustngx.CDict.Chain.{same_true}
use hustngx.CDict.Iter.{keys, all_nodes}

-- Whether a key is among others.
abbrev pub has : Bytes → List Bytes → Bool
has key [] = false
has key (k ∷ ks) = same k key || has key ks

pub has-append :
    (key : Bytes) (xs ys : List Bytes) → has key (xs ++ ys) ≡ (has key xs || has key ys)
has-append key [] ys = refl
has-append key (x ∷ xs) ys = ground (arith, has-append key xs ys)

module _ {ℓ} {V : Type ℓ} where
  find-has :
      (hash : ℕ) (key : Bytes) (chain rest : List (Entry V)) (v : V)
      → find hash key chain ≡ some v
      → has key (keys (chain ++ rest)) ≡ true
  unfolding find matches
  find-has hash key [] rest v e = absurd (cc)
  find-has hash key (x ∷ chain) rest v e = elim (Bool-cases (matches hash key x)) [
    | inl f ↦ let is_key : same x.key key ≡ true = ground arith in rw is_key refl
    | inr f ↦ let later = find-has hash key chain rest v (rw f at e) in ground (arith, later)
  ]

  has-skip :
      (key : Bytes) (chain rest : List (Entry V))
      → has key (keys rest) ≡ true
      → has key (keys (chain ++ rest)) ≡ true
  has-skip key [] rest e = e
  has-skip key (x ∷ chain) rest e = ground (arith, has-skip key chain rest)

  bucket-has :
      (hash i : ℕ) (key : Bytes) (bs : List (List (Entry V))) (v : V)
      → find hash key (bucket bs i) ≡ some v
      → has key (keys (all_nodes bs)) ≡ true
  unfolding bucket find
  bucket-has hash i key [] v e = absurd (cc)
  bucket-has hash zero key (b ∷ bs) v e = find-has hash key b (all_nodes bs) v e
  bucket-has hash (suc i) key (b ∷ bs) v e =
      let later = bucket-has hash i key bs v e in has-skip key b (all_nodes bs) later

  -- A key that is found is the key of a node.
  pub get-has :
      (key : Bytes) (t : Table V) (v : V)
      → get key t ≡ some v
      → has key (keys (all_nodes t.buckets)) ≡ true
  unfolding get
  get-has key t v e = elim (Bool-cases (ltb 0 (length t.buckets))) [
    | inl f ↦ bucket-has (c_dict_hash key) _ key t.buckets v (rw f at e)
    | inr f ↦ absurd (cc (rw f at e))
  ]

  module _ (q : Bytes → Bool) where
    -- Every key of a chain, and of all of them, passes a test.
    abbrev pub Passes : List (Entry V) → Type 0
    Passes [] = Unit
    Passes (e ∷ chain) = (q e.key ≡ true) × Passes chain

    abbrev pub AllPass : List (List (Entry V)) → Type 0
    AllPass [] = Unit
    AllPass (b ∷ bs) = Passes b × AllPass bs

    at_bucket-AllPass :
        (f : List (Entry V) → List (Entry V)) (bs : List (List (Entry V))) (i : ℕ)
        → ((b : List (Entry V)) → Passes b → Passes (f b))
        → AllPass bs
        → AllPass (at_bucket f bs i)
    unfolding at_bucket
    at_bucket-AllPass f [] i g p = tt
    at_bucket-AllPass f (b ∷ bs) zero g (p, ps) = (g b p, ps)
    at_bucket-AllPass f (b ∷ bs) (suc i) g (p, ps) = (p, at_bucket-AllPass f bs i g ps)

    assign-Passes :
        (hash : ℕ) (key : Bytes) (value : V) (b : List (Entry V))
        → Passes b
        → Passes (assign hash key value b)
    unfolding assign
    assign-Passes hash key value [] p = tt
    assign-Passes hash key value (e ∷ b) (p, ps) = elim (Bool-cases (matches hash key e)) [
      | inl f ↦ rw f (p, ps)
      | inr f ↦ rw f (p, assign-Passes hash key value b ps)
    ]

    addnode-AllPass :
        (bs : List (List (Entry V))) (e : Entry V)
        → q e.key ≡ true
        → AllPass bs
        → AllPass (addnode bs e)
    unfolding addnode
    addnode-AllPass bs e p ps = at_bucket-AllPass (λ b. e ∷ b) bs _ (λ b g. (p, g)) ps

    readd-AllPass :
        (nodes : List (Entry V)) (bs : List (List (Entry V)))
        → Passes nodes
        → AllPass bs
        → AllPass (readd nodes bs)
    unfolding readd
    readd-AllPass [] bs p ps = ps
    readd-AllPass (e ∷ nodes) bs (p, r) ps =
        readd-AllPass nodes (addnode bs e) r (addnode-AllPass bs e p ps)

    push_chain-Passes :
        (b nodes : List (Entry V)) → Passes b → Passes nodes → Passes (push_chain b nodes)
    unfolding push_chain
    push_chain-Passes [] nodes p ps = ps
    push_chain-Passes (e ∷ b) nodes (p, r) ps = push_chain-Passes b (e ∷ nodes) r (p, ps)

    chain_all-Passes : (bs : List (List (Entry V))) → AllPass bs → Passes (chain_all bs)
    unfolding chain_all
    chain_all-Passes [] ps = tt
    chain_all-Passes (b ∷ bs) (p, ps) =
        push_chain-Passes b (chain_all bs) p (chain_all-Passes bs ps)

    rebuilt-AllPass :
        (bs : List (List (Entry V))) (n : ℕ)
        → AllPass bs
        → AllPass (readd (chain_all bs) (zeroed n))
    unfolding zeroed
    rebuilt-AllPass bs n ps =
        readd-AllPass (chain_all bs) (zeroed n) (chain_all-Passes bs ps) (empty n)
      where
        empty : (m : ℕ) → AllPass (zeroed {V = V} m)
        empty zero = tt
        empty (suc m) = (tt, empty m)

    -- A set adds no other key.
    pub set-AllPass :
        (malloc realloc : Bool) (key : Bytes) (value : V) (t : Table V)
        → q key ≡ true
        → AllPass t.buckets
        → AllPass (set malloc realloc key value t).1.buckets
    unfolding set
    set-AllPass malloc realloc key value t k p = elim (Option-cases (get key t)) [
      | inr (old, e) ↦
          rw (set, e)
            (at_bucket-AllPass (assign (c_dict_hash key) key value) t.buckets _
              (assign-Passes (c_dict_hash key) key value) p)
      | inl e ↦ absent malloc realloc e
    ]
      where
        added : (bs : List (List (Entry V))) → AllPass bs → AllPass (addnode bs (newnode key value))
        added bs ps = addnode-AllPass bs (newnode key value) (unfold newnode in k) ps

        absent :
            (malloc realloc : Bool)
            → get key t ≡ none
            → AllPass (set malloc realloc key value t).1.buckets
        absent false realloc e = rw (set, e) p
        absent true realloc e = elim (Bool-cases (leb (length t.buckets) t.nnodes)) [
          | inr f ↦ rw (set, e, f) (added t.buckets p)
          | inl f ↦ full realloc e f
        ]
          where
            full :
                (realloc : Bool)
                → get key t ≡ none
                → leb (length t.buckets) t.nnodes ≡ true
                → AllPass (set true realloc key value t).1.buckets
            full true e f =
                rw (set, e, f) (unfold resize in added _ (rebuilt-AllPass t.buckets _ p))
            full false e f = rw (set, e, f) (unfold resize in rebuilt-AllPass t.buckets _ p)

    Passes-append : (xs ys : List (Entry V)) → Passes xs → Passes ys → Passes (xs ++ ys)
    Passes-append [] ys p r = r
    Passes-append (x ∷ xs) ys (p, ps) r = (p, Passes-append xs ys ps r)

    pub all_nodes-Passes : (bs : List (List (Entry V))) → AllPass bs → Passes (all_nodes bs)
    all_nodes-Passes [] p = tt
    all_nodes-Passes (b ∷ bs) (p, ps) = Passes-append b (all_nodes bs) p (all_nodes-Passes bs ps)

    pub Passes-has :
        (key : Bytes) (nodes : List (Entry V))
        → Passes nodes
        → has key (keys nodes) ≡ true
        → q key ≡ true
    Passes-has key [] p h = absurd (cc h)
    Passes-has key (e ∷ nodes) (p, ps) h = elim (Bool-cases (same e.key key)) [
      | inl f ↦ ap q (sym (same_true e.key key f)) ∙ p
      | inr f ↦ Passes-has key nodes ps (rw f at h)
    ]
