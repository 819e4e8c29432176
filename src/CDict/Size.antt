-- ===== src/CDict/Size.antt =====
-- The number of buckets of a table of c_dict.c against its number of nodes.
use hustngx.Prelude.{
  ℕ, ◌+◌, ◌*◌, ◌%◌, ◌^◌, ◌≡◌, ◌≤◌, ◌<◌, Bool, true, false, none, length, ltb, leb, if◌then◌else◌,
  inl, inr, Bool-cases, Option-cases, arith, ◌∙◌,
}
use hustngx.Nginx.{Bytes}
use hustngx.CDict.Table.{
  Table, c_dict_hash, assign, bucketidx, newnode, get, set, resize, chain_all, readd, zeroed,
}
use hustngx.CDict.Chain.{length-at_bucket}
use hustngx.CDict.Resize.{length-readd, length-zeroed, length-addnode}

module _ {ℓ} {V : Type ℓ} where
  -- There are at most twice as many buckets as nodes.
  abbrev pub IsSmall : Table V → Type 0
  IsSmall t = length t.buckets ≤ 2 * t.nnodes

  -- A set adds at most one node and keeps the buckets few.
  pub set-IsSmall :
      (malloc realloc : Bool) (key : Bytes) (value : V) (t : Table V)
      → IsSmall t
      → t.nnodes < 2 ^ 30
      → IsSmall (set malloc realloc key value t).1
        × ((set malloc realloc key value t).1.nnodes ≤ t.nnodes + 1)
  unfolding set resize
  set-IsSmall malloc realloc key value t small few = elim (Option-cases (get key t)) [
    | inr (old, e) ↦
        rw (set, e)
          (
            omega (
              arith,
              length-at_bucket (assign (c_dict_hash key) key value) t.buckets
                  (bucketidx (length t.buckets) (c_dict_hash key)),
            ),
            omega arith,
          )
    | inl e ↦ fresh malloc realloc e
  ]
    where
      rebuilt : (m : ℕ) → length (readd (chain_all t.buckets) (zeroed m)) ≡ m
      rebuilt m = length-readd (chain_all t.buckets) (zeroed m) ∙ length-zeroed V m

      fresh :
          (malloc realloc : Bool)
          → get key t ≡ none
          → IsSmall (set malloc realloc key value t).1
            × ((set malloc realloc key value t).1.nnodes ≤ t.nnodes + 1)
      fresh false realloc e = rw (set, e) (small, omega arith)
      fresh true realloc e = elim (Bool-cases (leb (length t.buckets) t.nnodes)) [
        | inr f ↦
            rw (set, e, f)
              (omega (arith, length-addnode t.buckets (newnode key value)), omega arith)
        | inl f ↦ full realloc f
      ]
        where
          n : ℕ
          n = if ltb 0 (length t.buckets) then length t.buckets * 2 % 2 ^ 32 else 1

          full :
              (realloc : Bool)
              → leb (length t.buckets) t.nnodes ≡ true
              → IsSmall (set true realloc key value t).1
                × ((set true realloc key value t).1.nnodes ≤ t.nnodes + 1)
          full false f = rw (set, e, f) (omega (arith, rebuilt (length t.buckets)), omega arith)
          full true f =
              rw (set, e, f)
                (
                  let a =
                        length-addnode (readd (chain_all t.buckets) (zeroed n))
                          (newnode key value) in
                      let b = rebuilt n in ground (arith, a, b),
                  omega arith,
                )
