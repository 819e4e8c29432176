-- ===== src/Shm/Keys.antt =====
-- `ngx_shm_dict_get_total_keys` and `ngx_shm_dict_get_keys` of ngx_shm_dict.c.
use hustngx.Prelude.{ℕ, ◌+◌, ◌<◌, ◌⊎◌, ◌≡◌, Bool, true, Option, List, [], ◌∷◌, ◌++◌, if◌then◌else◌}
use hustngx.Nginx.{Nginx, Bytes}
use hustngx.Shm.Node.{Node, Zone}
use hustngx.Shm.Writer.{Status, ok, error}
use hustngx.Shm.Traverse.{Callback, traverse_nodes, is_listed, copy_str}

-- The keys of the nodes that are listed, in the order of the queue.
abbrev listed_keys : Bool → ℕ → (ℕ → Node) → List ℕ → List Bytes
listed_keys include_expires now heap [] = []
listed_keys include_expires now heap (a ∷ rest) =
    let keys = listed_keys include_expires now heap rest in
    if is_listed include_expires now (heap a) then (heap a).key ∷ keys else keys

-- Whether a key is to be listed: all are, or the node does not expire, or later than `now`.
abbrev IsListed : Bool → ℕ → Node → Type 0
IsListed include_expires now n = (include_expires ≡ true) ⊎ ((n.expires ≡ 0) ⊎ (now < n.expires))

-- The list of keys for a list of nodes.
pub data Lists (include_expires : Bool) (now : ℕ) (heap : ℕ → Node)
    : List ℕ → List Bytes → Type 0 where
  no_node : Lists include_expires now heap [] []
  listed :
      (a : ℕ) (rest : List ℕ) (keys : List Bytes)
      → IsListed include_expires now (heap a)
      → Lists include_expires now heap rest keys
      → Lists include_expires now heap (a ∷ rest) ((heap a).key ∷ keys)
  passed_over :
      (a : ℕ) (rest : List ℕ) (keys : List Bytes)
      → ¬ IsListed include_expires now (heap a)
      → Lists include_expires now heap rest keys
      → Lists include_expires now heap (a ∷ rest) keys

-- A traversal whose callback never fails, as a fold.
abbrev visit : {D : Type 0} → (Node → D → D) → (ℕ → Node) → List ℕ → D → D
visit f heap [] d = d
visit f heap (a ∷ rest) d = visit f heap rest (f (heap a) d)

-- What the loop does after the callback on its first node.
abbrev after_callback : {D : Type 0} → (ℕ → Node) → Callback D → List ℕ → Status × D → Status × D
after_callback heap cb rest r = elim r.0 [
  | ok ↦ traverse_nodes heap cb rest r.1
  | error ↦ (error, r.1)
]

module _ (heap : ℕ → Node) (include_expires : Bool) (now : ℕ) where
  count_key : Node → ℕ → ℕ
  count_key n total = if is_listed include_expires now n then total + 1 else total

  copy_key : (ℕ → Bool) → Node → List (Option Bytes) → List (Option Bytes)
  copy_key palloc n keys =
      if is_listed include_expires now n then keys ++ copy_str palloc n.key ∷ [] else keys
