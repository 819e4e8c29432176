-- ===== src/CDict/Laws.antt =====
-- `c_dict_set_` and `c_dict_get_` of c_dict.c together.
use hustngx.Prelude.{
  ℕ, zero, suc, ◌+◌, ◌*◌, ◌%◌, ◌^◌, ◌≡◌, ◌≢◌, ◌<◌, refl, sym, ap, ◌∙◌, Bool, true, false, none,
  some, List, [], ◌∷◌, ltb, leb, if◌then◌else◌, length, arith, inl, inr, Bool-cases, Option-cases,
}
use hustngx.Nginx.{Bytes}
use hustngx.CDict.Table.{
  Entry, Table, c_dict_hash, newnode, find, assign, bucket, at_bucket, bucketidx, addnode, zeroed,
  chain_all, readd, resize, get, set,
}
use hustngx.CDict.Chain.{length-at_bucket, lookup, lookup-addnode, matches-newnode}
use hustngx.CDict.Resize.{
  ArePlaced, ArePlaced-zeroed, ArePlaced-at_bucket, ArePlaced-addnode, ArePlaced-readd,
  length-readd, length-zeroed, lookup-rebuilt,
}
use hustngx.CDict.Assign.{matches_ne, IsPlaced-assign, assigned, lookup-assign, lookup-assign_ne}

module _ {ℓ} {V : Type ℓ} where
  -- Every node stands in the bucket of its hash.
  abbrev pub IsValid : Table V → Type 0
  IsValid t = ArePlaced (length t.buckets) 0 t.buckets

  pub get-lookup :
      (k : Bytes) (t : Table V)
      → 0 < length t.buckets
      → get k t ≡ lookup t.buckets (c_dict_hash k) k
  unfolding get
  get-lookup k t p =
      let some_bucket : ltb 0 (length t.buckets) ≡ true = ground arith in rw (some_bucket) refl

  get_empty : (k : Bytes) (t : Table V) → length t.buckets ≡ 0 → get k t ≡ none
  unfolding get
  get_empty k t e = rw (get, e) refl

  -- What a call that sets `key` does to `t`: every node is in its bucket; after a success the key
  -- has the value and the other keys have theirs, after a failure all keys have theirs.
  pub record SetEffect (key : Bytes) (value : V) (t : Table V) (r : Bool × Table V) : Type ℓ where
    pub valid : IsValid r.1
    pub stored : r.0 ≡ true → get key r.1 ≡ some value
    pub others : (k : Bytes) → k ≢ key → get k r.1 ≡ get k t
    pub failed : r.0 ≡ false → get key r.1 ≡ get key t

  -- A node that is added to buckets in which the same is found as in `t`.
  added-SetEffect :
      (key : Bytes) (value : V) (t : Table V) (bs : List (List (Entry V))) (count : ℕ)
      → 0 < length bs
      → ArePlaced (length bs) 0 bs
      → ((k : Bytes) → lookup bs (c_dict_hash k) k ≡ get k t)
      → SetEffect key value t
          (true, record { buckets = addnode bs (newnode key value); nnodes = count })
  added-SetEffect key value t bs count p placed old = record {
    valid = ArePlaced-addnode bs (newnode key value) placed;
    stored = λ e.
        get-lookup key _ grown
        ∙ lookup-addnode bs (newnode key value) (c_dict_hash key) key p
        ∙ rw (matches-newnode key value) (unfold newnode in refl);
    others = λ k ne.
        get-lookup k _ grown
        ∙ lookup-addnode bs (newnode key value) (c_dict_hash k) k p
        ∙ rw (matches_ne (c_dict_hash k) k (newnode key value) (unfold newnode in λ e. ne (sym e)))
            (old k);
    failed = λ e. absurd (cc);
  }
    where
      grown : 0 < length (addnode bs (newnode key value))
      grown =
          unfold addnode in
          omega (
            arith,
            length-at_bucket (◌∷◌ (newnode key value)) bs
                (bucketidx (length bs) (newnode key value).hash),
            p,
          )

  lookup-get : (k : Bytes) (t : Table V) → lookup t.buckets (c_dict_hash k) k ≡ get k t
  lookup-get k t = go t.buckets refl
    where
      go :
          (bs : List (List (Entry V)))
          → t.buckets ≡ bs
          → lookup t.buckets (c_dict_hash k) k ≡ get k t
      go [] e = rw e (unfold find bucket in refl) ∙ sym (get_empty k t (ap length e))
      go (b ∷ rest) e = sym (get-lookup k t (rw e (omega arith)))

  get-rebuilt :
      (k : Bytes) (t : Table V) (m : ℕ)
      → 0 < m
      → IsValid t
      → lookup (readd (chain_all t.buckets) (zeroed m)) (c_dict_hash k) k ≡ get k t
  get-rebuilt k t m p valid = lookup-rebuilt (c_dict_hash k) k t.buckets m p valid ∙ lookup-get k t

  rebuilt-ArePlaced :
      (t : Table V) (m : ℕ)
      → let bs = readd (chain_all t.buckets) (zeroed m) in ArePlaced (length bs) 0 bs
  rebuilt-ArePlaced t m =
      ArePlaced-readd (chain_all t.buckets) (zeroed m)
        (ArePlaced-zeroed V (length (zeroed {V = V} m)) m 0)

  length-rebuilt : (t : Table V) (m : ℕ) → length (readd (chain_all t.buckets) (zeroed m)) ≡ m
  length-rebuilt t m = length-readd (chain_all t.buckets) (zeroed m) ∙ length-zeroed V m

  -- A failed `realloc` leaves the same buckets with the same keys.
  unresized : (t : Table V) → Table V
  unresized t = record t { buckets = readd (chain_all t.buckets) (zeroed (length t.buckets)) }

  get-unresized : (k : Bytes) (t : Table V) → IsValid t → get k (unresized t) ≡ get k t
  unfolding unresized
  get-unresized k t valid = go (length t.buckets) refl
    where
      go : (n : ℕ) → length t.buckets ≡ n → get k (unresized t) ≡ get k t
      go zero e =
          get_empty k (unresized t) (length-rebuilt t (length t.buckets) ∙ e)
          ∙ sym (get_empty k t e)
      go (suc n) e =
          get-lookup k (unresized t) (omega (arith, length-rebuilt t (length t.buckets)))
          ∙ get-rebuilt k t (length t.buckets) (omega arith) valid

  assign-SetEffect :
      (key : Bytes) (value old : V) (t : Table V)
      → IsValid t
      → get key t ≡ some old
      → 0 < length t.buckets
      → SetEffect key value t (
        true,
        record t {
          buckets =
              at_bucket
                (assign (c_dict_hash key) key value)
                t.buckets
                (bucketidx (length t.buckets) (c_dict_hash key));
        },
      )
  unfolding assigned
  assign-SetEffect key value old t valid e p =
      let h = c_dict_hash key in
      let i = bucketidx (length t.buckets) h in
      let size = length-at_bucket (assign h key value) t.buckets i in
      let p' : 0 < length (assigned h key value t.buckets p) = omega (arith, size) in
      record {
        valid = rw size (
            ArePlaced-at_bucket (assign h key value) (length t.buckets) 0 i t.buckets
              (λ c q. IsPlaced-assign (length t.buckets) (0 + i) h key value c q) valid);
        stored = λ _.
            get-lookup key _ p'
            ∙ lookup-assign h key value t.buckets p old (sym (get-lookup key t p) ∙ e);
        others = λ k ne.
            get-lookup k _ p'
            ∙ lookup-assign_ne h key value t.buckets p (c_dict_hash k) k ne
            ∙ sym (get-lookup k t p);
        failed = λ f. absurd (cc);
      }

  pub get-some : (k : Bytes) (t : Table V) (v : V) → get k t ≡ some v → 0 < length t.buckets
  get-some k t v e = go (length t.buckets) refl
    where
      go : (n : ℕ) → length t.buckets ≡ n → 0 < length t.buckets
      go zero f = absurd (cc (e, get_empty k t f))
      go (suc n) f = omega arith

  unchanged-SetEffect :
      (key : Bytes) (value : V) (t t' : Table V)
      → IsValid t'
      → ((k : Bytes) → get k t' ≡ get k t)
      → SetEffect key value t (false, t')
  unchanged-SetEffect key value t t' valid old = record {
    valid = valid;
    stored = λ e. absurd (cc);
    others = λ k _. old k;
    failed = λ _. old key;
  }

  new_size : Table V → ℕ
  new_size t = if ltb 0 (length t.buckets) then length t.buckets * 2 % 2 ^ 32 else 1

  absent-SetEffect :
      (malloc realloc : Bool) (key : Bytes) (value : V) (t : Table V)
      → IsValid t
      → length t.buckets < 2 ^ 31
      → get key t ≡ none
      → SetEffect key value t (set malloc realloc key value t)
  unfolding set resize unresized readd
  absent-SetEffect false realloc key value t valid small e =
      rw (set, e) (unchanged-SetEffect key value t t valid (λ k. refl))
  absent-SetEffect true realloc key value t valid small e =
      elim (Bool-cases (leb (length t.buckets) t.nnodes)) [
        | inr f ↦
            rw (set, e, f)
              (added-SetEffect key value t t.buckets ((t.nnodes + 1) % 2 ^ 32) (ground arith) valid
                (λ k. lookup-get k t))
        | inl f ↦ full realloc f
      ]
    where
      full :
          (realloc : Bool)
          → leb (length t.buckets) t.nnodes ≡ true
          → SetEffect key value t (set true realloc key value t)
      full false f =
          rw (set, e, f)
            (unchanged-SetEffect key value t (unresized t) (rebuilt-ArePlaced t (length t.buckets))
              (λ k. get-unresized k t valid))
      full true f =
          let positive : 0 < new_size t = unfold new_size in ground arith in
          rw (set, e, f)
            (unfold new_size in
              added-SetEffect key value t (readd (chain_all t.buckets) (zeroed (new_size t)))
                ((t.nnodes + 1) % 2 ^ 32) (omega (arith, length-rebuilt t (new_size t), positive))
                (rebuilt-ArePlaced t (new_size t))
                (λ k. get-rebuilt k t (new_size t) positive valid))

  -- In a table of less than 2^31 buckets whose nodes are in their buckets, setting a key keeps
  -- them there; after a success the key has the value and every other key what it had, through a
  -- resize too; after a failure of malloc or realloc all keys have what they had.
  pub set-SetEffect :
      (malloc realloc : Bool) (key : Bytes) (value : V) (t : Table V)
      → IsValid t
      → length t.buckets < 2 ^ 31
      → SetEffect key value t (set malloc realloc key value t)
  set-SetEffect malloc realloc key value t valid small = elim (Option-cases (get key t)) [
    | inr (old, e) ↦
        unfold set in rw (set, e) (assign-SetEffect key value old t valid e (get-some key t old e))
    | inl e ↦ absent-SetEffect malloc realloc key value t valid small e
  ]

  -- If malloc and realloc succeed, setting a key succeeds.
  pub set-ok : (key : Bytes) (value : V) (t : Table V) → (set true true key value t).0 ≡ true
  unfolding set resize
  set-ok key value t = elim (Option-cases (get key t)) [
    | inr (old, e) ↦ rw (set, e) refl
    | inl e ↦ elim (Bool-cases (leb (length t.buckets) t.nnodes)) [
      | inl f ↦ rw (set, e, f) refl
      | inr f ↦ rw (set, e, f) refl
    ]
  ]
