-- ===== src/CDict/Resize.antt =====
-- `c_dict_resize` of c_dict.c: chaining all nodes together and adding them again.
use hustngx.Prelude.{
  ℕ, zero, suc, ◌+◌, ◌≡◌, ◌≢◌, ◌<◌, refl, sym, ap, ◌∙◌, Bool, true, false, Option, none, some, List,
  [], ◌∷◌, if◌then◌else◌, length, arith, inl, inr, Bool-cases,
}
use hustngx.Nginx.{Bytes}
use hustngx.CDict.Table.{
  Entry, matches, find, bucket, at_bucket, bucketidx, addnode, zeroed, push_chain, chain_all, readd,
}
use hustngx.CDict.Chain.{length-at_bucket, lookup, lookup-addnode, matches-hash}

module _ {ℓ} {V : Type ℓ} where
  -- Every node of the chain belongs into bucket `i` of `n`.
  abbrev pub IsPlaced : ℕ → ℕ → List (Entry V) → Type 0
  IsPlaced n i [] = Unit
  IsPlaced n i (e ∷ chain) = (bucketidx n e.hash ≡ i) × IsPlaced n i chain

  -- The same of every chain, from bucket `i` on.
  abbrev pub ArePlaced : ℕ → ℕ → List (List (Entry V)) → Type 0
  ArePlaced n i [] = Unit
  ArePlaced n i (b ∷ bs) = IsPlaced n i b × ArePlaced n (suc i) bs

module _ {ℓ} (V : Type ℓ) where
  pub ArePlaced-zeroed : (n m i : ℕ) → ArePlaced {V = V} n i (zeroed m)
  unfolding zeroed
  ArePlaced-zeroed n zero i = tt
  ArePlaced-zeroed n (suc m) i = (tt, ArePlaced-zeroed n m (suc i))

  pub length-zeroed : (n : ℕ) → length (zeroed {V = V} n) ≡ n
  unfolding zeroed
  length-zeroed zero = refl
  length-zeroed (suc n) = ap suc (length-zeroed n)

module _ {ℓ} {V : Type ℓ} where
  pub ArePlaced-at_bucket :
      (f : List (Entry V) → List (Entry V)) (n i j : ℕ) (bs : List (List (Entry V)))
      → ((c : List (Entry V)) → IsPlaced n (i + j) c → IsPlaced n (i + j) (f c))
      → ArePlaced n i bs
      → ArePlaced n i (at_bucket f bs j)
  unfolding at_bucket
  ArePlaced-at_bucket f n i j [] h p = tt
  ArePlaced-at_bucket f n i zero (b ∷ bs) h p =
      let e : i + 0 ≡ i = omega arith in (rw e at (h b (rw e p.0)), p.1)
  ArePlaced-at_bucket f n i (suc j) (b ∷ bs) h p =
      let e : i + suc j ≡ suc i + j = omega arith in
      (p.0, ArePlaced-at_bucket f n (suc i) j bs (rw e at h) p.1)

  pub ArePlaced-addnode :
      (bs : List (List (Entry V))) (e : Entry V)
      → ArePlaced (length bs) 0 bs
      → ArePlaced (length (addnode bs e)) 0 (addnode bs e)
  unfolding addnode
  ArePlaced-addnode bs e p =
      let i = bucketidx (length bs) e.hash in
      rw (length-at_bucket (◌∷◌ e) bs i)
        (ArePlaced-at_bucket (◌∷◌ e) (length bs) 0 i bs (λ c q. (omega arith, q)) p)

  pub length-addnode :
      (bs : List (List (Entry V))) (e : Entry V) → length (addnode bs e) ≡ length bs
  unfolding addnode
  length-addnode bs e = length-at_bucket (◌∷◌ e) bs (bucketidx (length bs) e.hash)

  pub length-readd :
      (nodes : List (Entry V)) (bs : List (List (Entry V))) → length (readd nodes bs) ≡ length bs
  unfolding readd
  length-readd [] bs = refl
  length-readd (e ∷ nodes) bs = length-readd nodes (addnode bs e) ∙ length-addnode bs e

  pub ArePlaced-readd :
      (nodes : List (Entry V)) (bs : List (List (Entry V)))
      → ArePlaced (length bs) 0 bs
      → ArePlaced (length (readd nodes bs)) 0 (readd nodes bs)
  unfolding readd
  ArePlaced-readd [] bs p = p
  ArePlaced-readd (e ∷ nodes) bs p = ArePlaced-readd nodes (addnode bs e) (ArePlaced-addnode bs e p)

  bucket-zeroed : (n i : ℕ) → bucket (zeroed {V = V} n) i ≡ []
  unfolding bucket zeroed
  bucket-zeroed zero i = refl
  bucket-zeroed (suc n) zero = refl
  bucket-zeroed (suc n) (suc i) = bucket-zeroed n i

  module _ (h : ℕ) (k : Bytes) where
    -- The value of the last node that matches, or what was found before.
    abbrev last_match : List (Entry V) → Option V → Option V
    last_match [] d = d
    last_match (e ∷ nodes) d = last_match nodes (if matches h k e then some e.value else d)

    lookup-readd :
        (nodes : List (Entry V)) (bs : List (List (Entry V)))
        → 0 < length bs
        → lookup (readd nodes bs) h k ≡ last_match nodes (lookup bs h k)
    unfolding readd
    lookup-readd [] bs p = refl
    lookup-readd (e ∷ nodes) bs p =
        lookup-readd nodes (addnode bs e) (omega (arith, length-addnode bs e))
        ∙ ap (last_match nodes) (lookup-addnode bs e h k p)

    abbrev or_else : Option V → Option V → Option V
    or_else none d = d
    or_else (some v) d = some v

    last_match-push_chain :
        (c nodes : List (Entry V)) (d : Option V)
        → last_match (push_chain c nodes) d ≡ last_match nodes (or_else (find h k c) d)
    unfolding push_chain find
    last_match-push_chain [] nodes d = refl
    last_match-push_chain (e ∷ c) nodes d =
        last_match-push_chain c (e ∷ nodes) d ∙ ap (last_match nodes) (pick (matches h k e))
      where
        pick :
            (b : Bool)
            → (if b then some e.value else or_else (find h k c) d)
              ≡ or_else (if b then some e.value else find h k c) d
        pick true = refl
        pick false = refl

    -- A chain of another bucket has no node that matches.
    find_elsewhere :
        (n i : ℕ) (c : List (Entry V)) → IsPlaced n i c → i ≢ bucketidx n h → find h k c ≡ none
    unfolding find
    find_elsewhere n i [] p ne = refl
    find_elsewhere n i (e ∷ c) p ne = elim (Bool-cases (matches h k e)) [
      | inr f ↦ rw f (find_elsewhere n i c p.1 ne)
      | inl f ↦ absurd (ne (sym p.0 ∙ ap (bucketidx n) (matches-hash h k e f)))
    ]

    last_match-chain_all_past :
        (n i : ℕ) (bs : List (List (Entry V))) (d : Option V)
        → ArePlaced n i bs
        → bucketidx n h < i
        → last_match (chain_all bs) d ≡ d
    unfolding chain_all
    last_match-chain_all_past n i [] d p q = refl
    last_match-chain_all_past n i (b ∷ bs) d p q =
        last_match-push_chain b (chain_all bs) d
        ∙ (rw (find_elsewhere n i b p.0 (omega arith))
            (last_match-chain_all_past n (suc i) bs d p.1 (omega arith)))

    last_match-chain_all :
        (n i j : ℕ) (bs : List (List (Entry V)))
        → ArePlaced n i bs
        → bucketidx n h ≡ i + j
        → last_match (chain_all bs) none ≡ find h k (bucket bs j)
    unfolding chain_all bucket
    last_match-chain_all n i j [] p q = unfold find in refl
    last_match-chain_all n i zero (b ∷ bs) p q =
        last_match-push_chain b (chain_all bs) none
        ∙ last_match-chain_all_past n (suc i) bs _ p.1 (omega arith)
        ∙ pick (find h k b)
      where
        pick : (o : Option V) → or_else o none ≡ o
        pick none = refl
        pick (some v) = refl
    last_match-chain_all n i (suc j) (b ∷ bs) p q =
        last_match-push_chain b (chain_all bs) none
        ∙ (rw (find_elsewhere n i b p.0 (omega arith))
            (last_match-chain_all n (suc i) j bs p.1 (omega arith)))

    -- Chaining all nodes and adding them to empty buckets keeps what is found.
    pub lookup-rebuilt :
        (bs : List (List (Entry V))) (m : ℕ)
        → 0 < m
        → ArePlaced (length bs) 0 bs
        → lookup (readd (chain_all bs) (zeroed m)) h k ≡ lookup bs h k
    lookup-rebuilt bs m q p =
        lookup-readd (chain_all bs) (zeroed m) (omega (arith, length-zeroed V m))
        ∙ ap (last_match (chain_all bs))
            (rw (bucket-zeroed m (bucketidx (length (zeroed {V = V} m)) h)) (unfold find in refl))
        ∙ last_match-chain_all (length bs) 0 (bucketidx (length bs) h) bs p (omega arith)
