-- ===== src/CDict/Iter.antt =====
-- The iterator of c_dict.c, and the loop `while ((key = c_dict_next(dict, &iter)))` over it.
use hustngx.Prelude.{
  ℕ, zero, suc, ◌+◌, ◌-◌, ◌%◌, ◌^◌, ◌≡◌, ◌<◌, refl, ap, Option, none, some, some-injective,
  Option-cases, inl, inr, List, [], ◌∷◌, ◌++◌, length, drop, arith,
}
use mathlib.Core.List.{map}
use hustngx.Nginx.{Bytes}
use hustngx.CDict.Table.{Entry, Table}

-- `c_dict_iter_t`; `node` is the chain from the current node on.
pub record Iter {ℓ} (V : Type ℓ) : Type ℓ where
  pub bucketidx : ℕ
  pub node : List (Entry V)

module _ {ℓ} {V : Type ℓ} where
  -- `c_dict_iter_`: the index is unsigned and starts at -1.
  unfoldable pub iter : Iter V
  iter = record { bucketidx = 2 ^ 32 - 1; node = [] }

  -- The loop of `c_dict_next_` over the buckets from index `i` on.
  unfoldable pub next_bucket : ℕ → List (List (Entry V)) → Option Bytes × Iter V
  next_bucket i [] = (none, record { bucketidx = i; node = [] })
  next_bucket i ([] ∷ rest) = next_bucket (suc i) rest
  next_bucket i ((e ∷ chain) ∷ rest) = (some e.key, record { bucketidx = i; node = e ∷ chain })

  unfoldable pub skip_bucket : Table V → ℕ → Option Bytes × Iter V
  skip_bucket t i = let j = (i + 1) % 2 ^ 32 in next_bucket j (drop j t.buckets)

  -- `c_dict_next_`
  unfoldable pub next : Table V → Iter V → Option Bytes × Iter V
  next t it = elim it.node [
    | [] ↦ skip_bucket t it.bucketidx
    | e ∷ chain ↦ elim chain [
      | [] ↦ skip_bucket t it.bucketidx
      | e' ∷ rest ↦ (some e'.key, record it { node = e' ∷ rest })
    ]
  ]

  -- The keys that the loop visits, on fuel.
  unfoldable pub visit : ℕ → Table V → Iter V → Option (List Bytes)
  visit zero t it = none
  visit (suc fuel) t it =
      let (key, it') = next t it in
      let rest = visit fuel t it' in
      elim key [ none ↦ some [] | some k ↦ elim rest [ none ↦ none | some ks ↦ some (k ∷ ks) ] ]

  -- The keys of all nodes, bucket by bucket.
  abbrev pub keys : List (Entry V) → List Bytes
  keys = map (λ e. e.key)

  abbrev pub all_nodes : List (List (Entry V)) → List (Entry V)
  all_nodes [] = []
  all_nodes (b ∷ rest) = b ++ all_nodes rest

  -- What an iterator still has to visit.
  abbrev pending : Table V → Iter V → List Bytes
  pending t it = keys (drop 1 it.node ++ all_nodes (drop ((it.bucketidx + 1) % 2 ^ 32) t.buckets))

  drop_tail :
      (i : ℕ) (bs : List (List (Entry V))) (b : List (Entry V)) (rest : List (List (Entry V)))
      → drop i bs ≡ b ∷ rest
      → (drop (suc i) bs ≡ rest) × (i < length bs)
  drop_tail zero [] b rest e = absurd (cc)
  drop_tail zero (c ∷ bs) b rest e = (cc, omega arith)
  drop_tail (suc i) [] b rest e = absurd (cc)
  drop_tail (suc i) (c ∷ bs) b rest e = let r = drop_tail i bs b rest e in (r.0, omega (arith, r.1))

  module _ (t : Table V) (small : length t.buckets < 2 ^ 32 - 1) where
    -- What a step from a position with these keys to visit gives.
    record Advance (left : List Bytes) (r : Option Bytes × Iter V) : Type ℓ where
      stops : r.0 ≡ none → left ≡ []
      goes : (k : Bytes) → r.0 ≡ some k → left ≡ k ∷ pending t r.1

    next_bucket-Advance :
        (i : ℕ) (rest : List (List (Entry V)))
        → drop i t.buckets ≡ rest
        → Advance (keys (all_nodes rest)) (next_bucket i rest)
    unfolding next_bucket
    next_bucket-Advance i [] e = record { stops = λ _. refl; goes = λ k f. absurd (cc) }
    next_bucket-Advance i ([] ∷ rest) e =
        next_bucket-Advance (suc i) rest (drop_tail i t.buckets [] rest e).0
    next_bucket-Advance i ((x ∷ chain) ∷ rest) e =
        let (tail, bound) = drop_tail i t.buckets (x ∷ chain) rest e in
        let place : (i + 1) % 2 ^ 32 ≡ suc i = omega (arith, bound, small) in
        record {
          stops = λ f. absurd (cc);
          goes = λ k f.
              rw (place, tail)
                (ap (λ h. h ∷ keys (chain ++ all_nodes rest)) (some-injective _ _ f));
        }

    next-Advance : (it : Iter V) → Advance (pending t it) (next t it)
    unfolding next skip_bucket
    next-Advance it = go it.node refl
      where
        left : List (Entry V) → List Bytes
        left chain = keys (drop 1 chain ++ all_nodes (drop ((it.bucketidx + 1) % 2 ^ 32) t.buckets))

        skip :
            Advance
              (keys (all_nodes (drop ((it.bucketidx + 1) % 2 ^ 32) t.buckets)))
              (skip_bucket t it.bucketidx)
        skip = next_bucket-Advance ((it.bucketidx + 1) % 2 ^ 32) _ refl

        go : (chain : List (Entry V)) → it.node ≡ chain → Advance (pending t it) (next t it)
        go [] e = rw (next, e) skip
        go (x ∷ []) e = rw (next, e) skip
        go (x ∷ y ∷ chain) e =
            rw (next, e)
              (record {
                stops = λ f. absurd (cc);
                goes = λ k f. ap (λ h. h ∷ left (y ∷ chain)) (some-injective _ _ f);
              })

    visit-pending :
        (fuel : ℕ) (it : Iter V)
        → length (pending t it) < fuel
        → visit fuel t it ≡ some (pending t it)
    unfolding visit
    visit-pending zero it p = absurd (omega arith)
    visit-pending (suc fuel) it p =
        let a = next-Advance it in
        elim (Option-cases (next t it).0) [
          | inl e ↦ rw (visit, e, a.stops e) refl
          | inr (k, e) ↦
              let left = a.goes k e in
              let more = visit-pending fuel (next t it).1 (omega (arith, p, ap length left)) in
              rw (visit, e, more, left) refl
        ]

    -- In a table of less than 2^32 - 1 buckets the loop that takes keys from a fresh iterator
    -- until there is none ends, with fuel for one call more than there are nodes, and visits the
    -- keys of all nodes in the order of the buckets.
    pub visit-iter :
        (fuel : ℕ)
        → length (keys (all_nodes t.buckets)) < fuel
        → visit fuel t iter ≡ some (keys (all_nodes t.buckets))
    unfolding iter
    visit-iter fuel p = visit-pending fuel (record { bucketidx = 2 ^ 32 - 1; node = [] }) p
