-- ===== src/CDict/Table.antt =====
-- c_dict.c: keys are C strings, without their terminator, and bytes are `char`, which is signed. A
-- chain of nodes is a list. Whether `malloc` and `realloc` succeed is an argument.
use hustngx.Prelude.{
  ℕ, zero, suc, ◌+◌, ◌-◌, ◌*◌, ◌%◌, ◌^◌, Bool, true, false, not, ◌&&◌, Option, none, some, List, [],
  ◌∷◌, ltb, leb, ◌==◌, if◌then◌else◌, length, bit_and, bit_xor,
}
use hustngx.Nginx.{Bytes}

-- A `char` that is converted to `unsigned`.
unfoldable pub char_to_unsigned : ℕ → ℕ
char_to_unsigned c = if ltb c 128 then c else c + (2 ^ 32 - 256)

unfoldable pub hash_loop : ℕ → Bytes → ℕ
hash_loop hash [] = hash
hash_loop hash (c ∷ str) =
    hash_loop (bit_xor ((hash * 32 % 2 ^ 32 + hash) % 2 ^ 32) (char_to_unsigned c)) str

unfoldable pub c_dict_hash : Bytes → ℕ
c_dict_hash str = hash_loop 5381 str

-- `!strcmp(a, b)`
unfoldable pub same : Bytes → Bytes → Bool
same [] [] = true
same [] (y ∷ ys) = false
same (x ∷ xs) [] = false
same (x ∷ xs) (y ∷ ys) = x == y && same xs ys

unfoldable pub bucketidx : ℕ → ℕ → ℕ
bucketidx nbuckets hash = bit_and hash (nbuckets - 1)

-- `c_dict_node_t`, with the key that follows it in memory.
pub record Entry {ℓ} (V : Type ℓ) : Type ℓ where
  pub hash : ℕ
  pub key : Bytes
  pub value : V

-- `c_dict_base_t`; `nbuckets` is the length of `buckets`.
pub record Table {ℓ} (V : Type ℓ) : Type ℓ where
  pub buckets : List (List (Entry V))
  pub nnodes : ℕ

module _ {ℓ} {V : Type ℓ} where
  -- `c_dict_init`
  unfoldable pub init : Table V
  init = record { buckets = []; nnodes = 0 }

  unfoldable pub newnode : Bytes → V → Entry V
  newnode key value = record { hash = c_dict_hash key; key = key; value = value }

  unfoldable pub matches : ℕ → Bytes → Entry V → Bool
  matches hash key e = e.hash == hash && same e.key key

  -- The loop of `c_dict_getref` on one chain.
  unfoldable pub find : ℕ → Bytes → List (Entry V) → Option V
  find hash key [] = none
  find hash key (e ∷ chain) = if matches hash key e then some e.value else find hash key chain

  -- The first node that matches gets a new value.
  unfoldable pub assign : ℕ → Bytes → V → List (Entry V) → List (Entry V)
  assign hash key value [] = []
  assign hash key value (e ∷ chain) =
      if matches hash key e
      then record e { value = value } ∷ chain
      else e ∷ assign hash key value chain

  -- The first node that matches is unlinked.
  unfoldable pub unlink : ℕ → Bytes → List (Entry V) → List (Entry V)
  unlink hash key [] = []
  unlink hash key (e ∷ chain) = if matches hash key e then chain else e ∷ unlink hash key chain

  -- `dict->buckets[n]`, and a change of it.
  unfoldable pub bucket : List (List (Entry V)) → ℕ → List (Entry V)
  bucket [] n = []
  bucket (b ∷ rest) zero = b
  bucket (b ∷ rest) (suc n) = bucket rest n

  unfoldable pub at_bucket :
      (List (Entry V) → List (Entry V)) → List (List (Entry V)) → ℕ → List (List (Entry V))
  at_bucket f [] n = []
  at_bucket f (b ∷ rest) zero = f b ∷ rest
  at_bucket f (b ∷ rest) (suc n) = b ∷ at_bucket f rest n

  unfoldable pub addnode : List (List (Entry V)) → Entry V → List (List (Entry V))
  addnode buckets e = at_bucket (◌∷◌ e) buckets (bucketidx (length buckets) e.hash)

  -- `while (node)`: the nodes of one chain, pushed onto `nodes`.
  unfoldable pub push_chain : List (Entry V) → List (Entry V) → List (Entry V)
  push_chain [] nodes = nodes
  push_chain (e ∷ chain) nodes = push_chain chain (e ∷ nodes)

  -- `while (i--)`: the chains from the last bucket to the first.
  unfoldable pub chain_all : List (List (Entry V)) → List (Entry V)
  chain_all [] = []
  chain_all (b ∷ rest) = push_chain b (chain_all rest)

  unfoldable pub zeroed : ℕ → List (List (Entry V))
  zeroed zero = []
  zeroed (suc n) = [] ∷ zeroed n

  unfoldable pub readd : List (Entry V) → List (List (Entry V)) → List (List (Entry V))
  readd [] buckets = buckets
  readd (e ∷ nodes) buckets = readd nodes (addnode buckets e)

  -- `c_dict_resize`: the nodes are added again also if `realloc` has failed.
  unfoldable pub resize : Bool → List (List (Entry V)) → ℕ → Bool × List (List (Entry V))
  resize realloc buckets nbuckets =
      if realloc
      then (true, readd (chain_all buckets) (zeroed nbuckets))
      else (false, readd (chain_all buckets) (zeroed (length buckets)))

  unfoldable pub get : Bytes → Table V → Option V
  get key t =
      let n = length t.buckets in
      let hash = c_dict_hash key in
      if ltb 0 n then find hash key (bucket t.buckets (bucketidx n hash)) else none

  -- `c_dict_set_`: whether it has succeeded, and the table.
  unfoldable pub set : Bool → Bool → Bytes → V → Table V → Bool × Table V
  set malloc realloc key value t =
      let n = length t.buckets in
      let hash = c_dict_hash key in
      elim (get key t) [
        | some old ↦ (
          true,
          record t { buckets = at_bucket (assign hash key value) t.buckets (bucketidx n hash) },
        )
        | none ↦
            let (grown, buckets) =
              resize realloc t.buckets (if ltb 0 n then n * 2 % 2 ^ 32 else 1) in
            if not malloc
            then (false, t)
            else if leb n t.nnodes
            then if grown
              then (
                true,
                record {
                  buckets = addnode buckets (newnode key value);
                  nnodes = (t.nnodes + 1) % 2 ^ 32;
                },
              )
              else (false, record t { buckets = buckets })
            else (
              true,
              record {
                buckets = addnode t.buckets (newnode key value);
                nnodes = (t.nnodes + 1) % 2 ^ 32;
              },
            )
      ]

  unfoldable pub remove : Bytes → Table V → Table V
  remove key t =
      let n = length t.buckets in
      let hash = c_dict_hash key in
      elim (get key t) [
        | none ↦ t
        | some old ↦ record {
          buckets = at_bucket (unlink hash key) t.buckets (bucketidx n hash);
          nnodes = (t.nnodes + 2 ^ 32 - 1) % 2 ^ 32;
        }
      ]
