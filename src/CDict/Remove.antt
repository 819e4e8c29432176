-- ===== src/CDict/Remove.antt =====
-- `c_dict_remove_` of c_dict.c.
use hustngx.Prelude.{
  ℕ, ◌+◌, ◌-◌, ◌%◌, ◌^◌, ◌≡◌, ◌≢◌, ◌<◌, refl, sym, ap, ◌∙◌, false, some, List, [], ◌∷◌, ◌==◌,
  ==_iff, if◌then◌else◌, length, arith, inl, inr, Bool-cases, Option-cases,
}
use hustngx.Nginx.{Bytes}
use hustngx.CDict.Table.{
  Entry, Table, c_dict_hash, matches, find, unlink, bucket, at_bucket, bucketidx, get, remove,
}
use hustngx.CDict.Chain.{
  length-at_bucket, bucket-at_bucket, bucket-at_bucket_ne, lookup, matches-key, bucketidx_lt,
}
use hustngx.CDict.Resize.{IsPlaced, ArePlaced-at_bucket}
use hustngx.CDict.Assign.{matches_ne}
use hustngx.CDict.Laws.{IsValid, get-lookup, get-some}

module _ {ℓ} {V : Type ℓ} where
  find-unlink_ne :
      (h h' : ℕ) (k k' : Bytes) (c : List (Entry V))
      → k' ≢ k
      → find h' k' (unlink h k c) ≡ find h' k' c
  unfolding find unlink
  find-unlink_ne h h' k k' [] ne = refl
  find-unlink_ne h h' k k' (x ∷ c) ne = elim (Bool-cases (matches h k x)) [
    | inl m ↦
        let no : matches h' k' x ≡ false =
          matches_ne h' k' x (λ e. ne (sym e ∙ matches-key h k x m)) in
        rw (m, no) refl
    | inr m ↦
        rw m (ap (λ o. if matches h' k' x then some x.value else o) (find-unlink_ne h h' k k' c ne))
  ]

  IsPlaced-unlink :
      (n i h : ℕ) (k : Bytes) (c : List (Entry V)) → IsPlaced n i c → IsPlaced n i (unlink h k c)
  unfolding unlink
  IsPlaced-unlink n i h k [] p = tt
  IsPlaced-unlink n i h k (x ∷ c) p = elim (Bool-cases (matches h k x)) [
    | inl m ↦ rw m p.1
    | inr m ↦ rw m (p.0, IsPlaced-unlink n i h k c p.1)
  ]

  lookup-at_bucket :
      (f : List (Entry V) → List (Entry V)) (bs : List (List (Entry V))) (i h : ℕ) (k : Bytes)
      → i < length bs
      → ((c : List (Entry V)) → find h k (f c) ≡ find h k c)
      → lookup (at_bucket f bs i) h k ≡ lookup bs h k
  lookup-at_bucket f bs i h k p same =
      let j = bucketidx (length bs) h in
      rw (length-at_bucket f bs i) (elim (Bool-cases (j == i)) [
        | inl e ↦ rw ((==_iff j i).0 e, bucket-at_bucket f bs i p) (same (bucket bs i))
        | inr e ↦ rw (bucket-at_bucket_ne f bs i j (λ g. cc (e, (==_iff j i).1 g))) refl
      ])

  -- In a table whose nodes are in their buckets, removing a key keeps them there and every other
  -- key as it was.
  pub remove-others :
      (key : Bytes) (t : Table V)
      → IsValid t
      → IsValid (remove key t) × ((k : Bytes) → k ≢ key → get k (remove key t) ≡ get k t)
  unfolding remove
  remove-others key t valid = elim (Option-cases (get key t)) [
    | inl e ↦ rw (remove, e) (valid, λ k ne. refl)
    | inr (old, e) ↦
        let h = c_dict_hash key in
        let p = get-some key t old e in
        let i = bucketidx (length t.buckets) h in
        let size = length-at_bucket (unlink h key) t.buckets i in
        let y : Table V = record {
          buckets = at_bucket (unlink h key) t.buckets i;
          nnodes = (t.nnodes + 2 ^ 32 - 1) % 2 ^ 32;
        } in
        let valid' : IsValid y = rw size (
          ArePlaced-at_bucket (unlink h key) (length t.buckets) 0 i t.buckets
            (λ c q. IsPlaced-unlink (length t.buckets) (0 + i) h key c q) valid) in
        let p' : 0 < length y.buckets = omega (arith, size) in
        let kept : (k : Bytes) → k ≢ key → get k y ≡ get k t = λ k ne.
          get-lookup k y p'
          ∙ lookup-at_bucket (unlink h key) t.buckets i (c_dict_hash k) k
              (bucketidx_lt (length t.buckets) h p)
              (λ c. find-unlink_ne h (c_dict_hash k) key k c ne)
          ∙ sym (get-lookup k t p) in
        rw (remove, e) (valid', kept)
  ]
