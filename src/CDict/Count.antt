-- ===== src/CDict/Count.antt =====
-- The number of nodes of a table of c_dict.c.
use hustngx.Prelude.{
  ℕ, zero, suc, ◌+◌, ◌*◌, ◌%◌, ◌^◌, ◌≡◌, ◌≤◌, refl, Bool, true, false, none, List, [], ◌∷◌, ltb,
  leb, if◌then◌else◌, length, length-append, arith, inl, inr, Bool-cases, Option-cases,
}
use hustngx.Nginx.{Bytes}
use hustngx.CDict.Table.{
  Entry, Table, c_dict_hash, matches, newnode, assign, at_bucket, bucketidx, addnode, zeroed,
  push_chain, chain_all, readd, resize, get, set,
}
use hustngx.CDict.Iter.{all_nodes}

module _ {ℓ} {V : Type ℓ} where
  abbrev pub node_count : List (List (Entry V)) → ℕ
  node_count bs = length (all_nodes bs)

  at_bucket-count :
      (f : List (Entry V) → List (Entry V)) (bs : List (List (Entry V))) (i n : ℕ)
      → ((b : List (Entry V)) → length (f b) ≤ length b + n)
      → node_count (at_bucket f bs i) ≤ node_count bs + n
  unfolding at_bucket
  at_bucket-count f [] i n g = omega arith
  at_bucket-count f (b ∷ bs) zero n g =
      omega (arith, g b, length-append (f b) (all_nodes bs), length-append b (all_nodes bs))
  at_bucket-count f (b ∷ bs) (suc i) n g = omega (
    arith,
    at_bucket-count f bs i n g,
    length-append b (all_nodes (at_bucket f bs i)),
    length-append b (all_nodes bs),
  )

  length-assign :
      (hash : ℕ) (key : Bytes) (value : V) (b : List (Entry V))
      → length (assign hash key value b) ≤ length b + 0
  unfolding assign
  length-assign hash key value [] = omega arith
  length-assign hash key value (e ∷ b) = elim (Bool-cases (matches hash key e)) [
    | inl f ↦ rw f (omega arith)
    | inr f ↦ rw f (omega (arith, length-assign hash key value b))
  ]

  addnode-count :
      (bs : List (List (Entry V))) (e : Entry V) → node_count (addnode bs e) ≤ node_count bs + 1
  unfolding addnode
  addnode-count bs e = at_bucket-count (λ b. e ∷ b) bs _ 1 (λ b. omega arith)

  readd-count :
      (nodes : List (Entry V)) (bs : List (List (Entry V)))
      → node_count (readd nodes bs) ≤ length nodes + node_count bs
  unfolding readd
  readd-count [] bs = omega arith
  readd-count (e ∷ nodes) bs = omega (arith, readd-count nodes (addnode bs e), addnode-count bs e)

  length-push_chain :
      (b nodes : List (Entry V)) → length (push_chain b nodes) ≡ length b + length nodes
  unfolding push_chain
  length-push_chain [] nodes = omega arith
  length-push_chain (e ∷ b) nodes = omega (arith, length-push_chain b (e ∷ nodes))

  length-chain_all : (bs : List (List (Entry V))) → length (chain_all bs) ≡ node_count bs
  unfolding chain_all
  length-chain_all [] = refl
  length-chain_all (b ∷ bs) = omega (
    arith,
    length-push_chain b (chain_all bs),
    length-chain_all bs,
    length-append b (all_nodes bs),
  )

  rebuilt-count :
      (bs : List (List (Entry V))) (n : ℕ)
      → node_count (readd (chain_all bs) (zeroed n)) ≤ node_count bs
  unfolding zeroed
  rebuilt-count bs n =
      omega (arith, readd-count (chain_all bs) (zeroed n), length-chain_all bs, empty n)
    where
      empty : (m : ℕ) → node_count (zeroed {V = V} m) ≡ 0
      empty zero = refl
      empty (suc m) = empty m

  -- A set adds at most one node.
  pub set-count :
      (malloc realloc : Bool) (key : Bytes) (value : V) (t : Table V)
      → node_count (set malloc realloc key value t).1.buckets ≤ node_count t.buckets + 1
  unfolding set resize
  set-count malloc realloc key value t = elim (Option-cases (get key t)) [
    | inr (old, e) ↦
        let assigned =
          at_bucket-count (assign (c_dict_hash key) key value) t.buckets
            (bucketidx (length t.buckets) (c_dict_hash key)) 0
            (length-assign (c_dict_hash key) key value) in
        rw (set, e) (omega (arith, assigned))
    | inl e ↦ absent malloc realloc e
  ]
    where
      absent :
          (malloc realloc : Bool)
          → get key t ≡ none
          → node_count (set malloc realloc key value t).1.buckets ≤ node_count t.buckets + 1
      absent false realloc e = rw (set, e) (omega arith)
      absent true realloc e = elim (Bool-cases (leb (length t.buckets) t.nnodes)) [
        | inr f ↦ rw (set, e, f) (addnode-count t.buckets (newnode key value))
        | inl f ↦ full realloc e f
      ]
        where
          full :
              (realloc : Bool)
              → get key t ≡ none
              → leb (length t.buckets) t.nnodes ≡ true
              → node_count (set true realloc key value t).1.buckets ≤ node_count t.buckets + 1
          full true e f =
              let n = if ltb 0 (length t.buckets) then length t.buckets * 2 % 2 ^ 32 else 1 in
              rw (set, e, f)
                (omega (
                  arith,
                  addnode-count (readd (chain_all t.buckets) (zeroed n)) (newnode key value),
                  rebuilt-count t.buckets n,
                ))
          full false e f =
              rw (set, e, f) (omega (arith, rebuilt-count t.buckets (length t.buckets)))
