-- ===== src/CDict/Assign.antt =====
-- Writing the value of a node that `c_dict_set_` of c_dict.c has found.
use hustngx.Prelude.{
  ℕ, ◌≡◌, ◌≢◌, ◌<◌, refl, sym, ap, ◌∙◌, false, some, List, [], ◌∷◌, ◌==◌, ==_iff, if◌then◌else◌,
  length, inl, inr, Bool-cases,
}
use hustngx.Nginx.{Bytes}
use hustngx.CDict.Table.{Entry, matches, find, assign, bucket, at_bucket, bucketidx}
use hustngx.CDict.Chain.{
  length-at_bucket, bucket-at_bucket, bucket-at_bucket_ne, lookup, matches-key, bucketidx_lt,
}
use hustngx.CDict.Resize.{IsPlaced}

module _ {ℓ} {V : Type ℓ} where
  matches-value :
      (h : ℕ) (k : Bytes) (x : Entry V) (v : V)
      → matches h k (record x { value = v }) ≡ matches h k x
  unfolding matches
  matches-value h k x v = refl

  find-assign :
      (h : ℕ) (k : Bytes) (v : V) (c : List (Entry V)) (old : V)
      → find h k c ≡ some old
      → find h k (assign h k v c) ≡ some v
  unfolding find assign
  find-assign h k v [] old e = absurd (cc)
  find-assign h k v (x ∷ c) old e = elim (Bool-cases (matches h k x)) [
    | inl m ↦ rw (m, matches-value h k x v, m) refl
    | inr m ↦ rw (m, find, m) (find-assign h k v c old (rw m at e))
  ]

  pub matches_ne : (h : ℕ) (k : Bytes) (x : Entry V) → x.key ≢ k → matches h k x ≡ false
  matches_ne h k x ne = elim (Bool-cases (matches h k x)) [
    | inl m ↦ absurd (ne (matches-key h k x m))
    | inr m ↦ m
  ]

  find-assign_ne :
      (h h' : ℕ) (k k' : Bytes) (v : V) (c : List (Entry V))
      → k' ≢ k
      → find h' k' (assign h k v c) ≡ find h' k' c
  unfolding find assign
  find-assign_ne h h' k k' v [] ne = refl
  find-assign_ne h h' k k' v (x ∷ c) ne = elim (Bool-cases (matches h k x)) [
    | inl m ↦
        let no : matches h' k' x ≡ false =
          matches_ne h' k' x (λ e. ne (sym e ∙ matches-key h k x m)) in
        rw (m, matches-value h' k' x v, no) refl
    | inr m ↦
        rw m
          (ap (λ o. if matches h' k' x then some x.value else o) (find-assign_ne h h' k k' v c ne))
  ]

  pub IsPlaced-assign :
      (n i h : ℕ) (k : Bytes) (v : V) (c : List (Entry V))
      → IsPlaced n i c
      → IsPlaced n i (assign h k v c)
  unfolding assign
  IsPlaced-assign n i h k v [] p = tt
  IsPlaced-assign n i h k v (x ∷ c) p = elim (Bool-cases (matches h k x)) [
    | inl m ↦ rw m p
    | inr m ↦ rw m (p.0, IsPlaced-assign n i h k v c p.1)
  ]

  module _ (h : ℕ) (k : Bytes) (v : V) (bs : List (List (Entry V))) (p : 0 < length bs) where
    unfoldable pub assigned : List (List (Entry V))
    assigned = at_bucket (assign h k v) bs (bucketidx (length bs) h)

    pub lookup-assign : (old : V) → lookup bs h k ≡ some old → lookup assigned h k ≡ some v
    unfolding assigned
    lookup-assign old e =
        rw
          (
            length-at_bucket (assign h k v) bs (bucketidx (length bs) h),
            bucket-at_bucket (assign h k v) bs (bucketidx (length bs) h)
                (bucketidx_lt (length bs) h p),
          )
          (find-assign h k v _ old e)

    pub lookup-assign_ne : (h' : ℕ) (k' : Bytes) → k' ≢ k → lookup assigned h' k' ≡ lookup bs h' k'
    unfolding assigned
    lookup-assign_ne h' k' ne =
        let i = bucketidx (length bs) h in
        let j = bucketidx (length bs) h' in
        rw (length-at_bucket (assign h k v) bs i) (elim (Bool-cases (j == i)) [
          | inl same_place ↦
              rw
                (
                  (==_iff j i).0 same_place,
                  bucket-at_bucket (assign h k v) bs i (bucketidx_lt (length bs) h p),
                )
                (find-assign_ne h h' k k' v (bucket bs i) ne)
          | inr other ↦
              rw (bucket-at_bucket_ne (assign h k v) bs i j (λ g. cc (other, (==_iff j i).1 g)))
                refl
        ])
