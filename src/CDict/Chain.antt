-- ===== src/CDict/Chain.antt =====
-- Facts on the hash, the chains and the buckets of c_dict.c.
use hustngx.Prelude.{
  ℕ, zero, suc, ◌-◌, ◌/◌, ◌≡◌, ◌≢◌, ◌≤◌, ◌<◌, refl, sym, ap, true, false, Option, some, List, [],
  ◌∷◌, ◌==◌, ==_iff, ==_refl, if◌then◌else◌, length, bit_and, arith, inl, inr, Bool-cases,
}
use Prim.Native.Nat.{digits, min, bit_and-bitwise}
use hustngx.Nginx.{Bytes}
use hustngx.CDict.Table.{
  Entry, same, matches, find, bucket, at_bucket, bucketidx, addnode, newnode, c_dict_hash,
}

digits_le : (n a b : ℕ) → digits (λ b. zero) min n a b ≤ b
digits_le zero a b = omega arith
digits_le (suc n) zero b = omega arith
digits_le (suc n) (suc a) b = omega (arith, digits_le n (suc a / 2) (b / 2))

bit_and_le : (a b : ℕ) → bit_and a b ≤ b
bit_and_le a b =
    let e : bit_and a b ≡ digits (λ b. zero) min a a b = λ i. bit_and-bitwise a b i in
    rw e (digits_le a a b)

pub bucketidx_lt : (n hash : ℕ) → 0 < n → bucketidx n hash < n
unfolding bucketidx
bucketidx_lt n hash p = omega (arith, bit_and_le hash (n - 1))

pub same_refl : (k : Bytes) → same k k ≡ true
unfolding same
same_refl [] = refl
same_refl (x ∷ xs) = ground (arith, same_refl xs)

pub same_true : (k k' : Bytes) → same k k' ≡ true → k ≡ k'
unfolding same
same_true [] [] e = refl
same_true [] (y ∷ ys) e = absurd (cc)
same_true (x ∷ xs) [] e = absurd (cc)
same_true (x ∷ xs) (y ∷ ys) e = ground (arith, same_true xs ys)

module _ {ℓ} {V : Type ℓ} where
  pub length-at_bucket :
      (f : List (Entry V) → List (Entry V)) (bs : List (List (Entry V))) (i : ℕ)
      → length (at_bucket f bs i) ≡ length bs
  unfolding at_bucket
  length-at_bucket f [] i = refl
  length-at_bucket f (b ∷ bs) zero = refl
  length-at_bucket f (b ∷ bs) (suc i) = ap suc (length-at_bucket f bs i)

  pub bucket-at_bucket :
      (f : List (Entry V) → List (Entry V)) (bs : List (List (Entry V))) (i : ℕ)
      → i < length bs
      → bucket (at_bucket f bs i) i ≡ f (bucket bs i)
  unfolding bucket at_bucket
  bucket-at_bucket f [] i p = absurd (omega arith)
  bucket-at_bucket f (b ∷ bs) zero p = refl
  bucket-at_bucket f (b ∷ bs) (suc i) p = bucket-at_bucket f bs i (omega arith)

  pub bucket-at_bucket_ne :
      (f : List (Entry V) → List (Entry V)) (bs : List (List (Entry V))) (i j : ℕ)
      → j ≢ i
      → bucket (at_bucket f bs i) j ≡ bucket bs j
  unfolding bucket at_bucket
  bucket-at_bucket_ne f [] i j ne = refl
  bucket-at_bucket_ne f (b ∷ bs) zero zero ne = absurd (ne refl)
  bucket-at_bucket_ne f (b ∷ bs) zero (suc j) ne = refl
  bucket-at_bucket_ne f (b ∷ bs) (suc i) zero ne = refl
  bucket-at_bucket_ne f (b ∷ bs) (suc i) (suc j) ne =
      bucket-at_bucket_ne f bs i j (λ e. ne (ap suc e))

  pub matches-hash : (h : ℕ) (k : Bytes) (e : Entry V) → matches h k e ≡ true → e.hash ≡ h
  unfolding matches
  matches-hash h k e m = ground (arith, ==_iff e.hash h)

  pub matches-key : (h : ℕ) (k : Bytes) (e : Entry V) → matches h k e ≡ true → e.key ≡ k
  unfolding matches
  matches-key h k e m = ground (arith, same_true e.key k)

  pub matches-newnode : (k : Bytes) (v : V) → matches (c_dict_hash k) k (newnode k v) ≡ true
  unfolding matches newnode
  matches-newnode k v = ground (arith, same_refl k, ==_refl (c_dict_hash k))

  -- What the code finds for a hash and a key in the buckets.
  abbrev pub lookup : List (List (Entry V)) → ℕ → Bytes → Option V
  lookup bs h k = find h k (bucket bs (bucketidx (length bs) h))

  -- A node that is added is found first.
  pub lookup-addnode :
      (bs : List (List (Entry V))) (e : Entry V) (h : ℕ) (k : Bytes)
      → 0 < length bs
      → lookup (addnode bs e) h k ≡ (if matches h k e then some e.value else lookup bs h k)
  unfolding addnode
  lookup-addnode bs e h k p =
      let i = bucketidx (length bs) e.hash in
      let j = bucketidx (length bs) h in
      rw (length-at_bucket (◌∷◌ e) bs i) (elim (Bool-cases (j == i)) [
        | inl same_place ↦
            let here : j ≡ i = (==_iff j i).0 same_place in
            rw (here, bucket-at_bucket (◌∷◌ e) bs i (bucketidx_lt (length bs) e.hash p))
              (unfold find in refl)
        | inr other ↦
            let ne : j ≢ i = λ g. cc (other, (==_iff j i).1 g) in
            let no : matches h k e ≡ false = elim (Bool-cases (matches h k e)) [
              | inr f ↦ f
              | inl f ↦ absurd (ne (ap (bucketidx (length bs)) (sym (matches-hash h k e f))))
            ] in
            rw (bucket-at_bucket_ne (◌∷◌ e) bs i j ne, no) refl
      ])
