-- ===== src/Tests/Setting.antt =====
-- A concrete setting for the runs: queues are lists, the allocator numbers its blocks and has a
-- fixed count of them, a deletion rebuilds the tree as a spine.
use hustngx.Prelude.{
  ℕ, suc, ◌+◌, ◌≡◌, ◌≤◌, refl, ap, true, false, Option, none, some, List, [], ◌∷◌, arith, ltb, ◌==◌,
  ==_iff, if◌then◌else◌, length, mem, erase,
}
use hustngx.Nginx.{Nginx, Tree, sentinel, branch, inorder}
use hustngx.Tests.Order.{bytes_order, bytes_order_eq, bytes_order_flip, bytes_order_trans}

-- The addresses in use, of which there may be `room`.
pub record Blocks : Type 0 where
  pub room : ℕ
  pub used : List ℕ

unfoldable pub sum : List ℕ → ℕ
sum [] = 0
sum (b ∷ rest) = b + sum rest

unfoldable pub alloc : Blocks → ℕ → Option (ℕ × Blocks)
alloc s n =
    if ltb (length s.used) s.room
    then some (suc (sum s.used), record s { used = suc (sum s.used) ∷ s.used })
    else none

unfoldable pub without : ℕ → List ℕ → List ℕ
without a [] = []
without a (b ∷ rest) = if b == a then without a rest else b ∷ without a rest

unfoldable pub free : Blocks → ℕ → Blocks
free s a = record s { used = without a s.used }

unfoldable pub spine : List ℕ → Tree
spine [] = sentinel
spine (a ∷ rest) = branch sentinel a (spine rest)

pub inorder-spine : (xs : List ℕ) → inorder (spine xs) ≡ xs
unfolding spine
inorder-spine [] = refl
inorder-spine (a ∷ rest) = ap (◌∷◌ a) (inorder-spine rest)

unfoldable pub plant : (Tree → ℕ → Tree) → Tree → ℕ → Tree
plant insert sentinel a = branch sentinel a sentinel
plant insert (branch l b r) a = insert (branch l b r) a

mem-sum : (b : ℕ) (xs : List ℕ) → mem b xs ≡ true → b ≤ sum xs
unfolding sum
mem-sum b [] h = absurd (cc)
mem-sum b (x ∷ xs) h = ground (arith, mem-sum b xs)

pub mem-without :
    (a b : ℕ) (xs : List ℕ) → mem b (without a xs) ≡ (if b == a then false else mem b xs)
unfolding without
mem-without a b [] = ground arith
mem-without a b (x ∷ xs) = ground (arith, mem-without a b xs, ==_iff b x)

pub alloc_fresh :
    (s : Blocks) (n a : ℕ) (s' : Blocks) → alloc s n ≡ some (a, s') → mem a s.used ≡ false
unfolding alloc
alloc_fresh s n a s' e = ground (arith, mem-sum a s.used)

pub alloc_used :
    (s : Blocks) (n a : ℕ) (s' : Blocks)
    → alloc s n ≡ some (a, s')
    → (b : ℕ) → mem b s'.used ≡ (if b == a then true else mem b s.used)
unfolding alloc
alloc_used s n a s' e b = ground arith

-- The setting.
unfoldable pub setting : Nginx (List ℕ) Blocks
unfolding free plant
setting = record {
  items = λ q. q;
  queue_init = [];
  insert_head = λ q a. a ∷ q;
  remove = λ q a. erase a q;
  items-queue_init = refl;
  items-insert_head = λ q a h. refl;
  items-remove = λ q a h. refl;
  slab_alloc = alloc;
  slab_free = free;
  in_use = λ s b. mem b s.used;
  slab_alloc_fresh = alloc_fresh;
  in_use-slab_alloc = alloc_used;
  in_use-slab_free = λ s a b. mem-without a b s.used;
  rbtree_insert = plant;
  rbtree_delete = λ t a. spine (erase a (inorder t));
  rbtree_insert-sentinel = λ insert a. refl;
  rbtree_insert-branch = λ insert l b r a. refl;
  rbtree_delete-erase = λ t a h. inorder-spine (erase a (inorder t));
  memn2cmp = bytes_order;
  memn2cmp_eq = bytes_order_eq;
  memn2cmp_flip = bytes_order_flip;
  memn2cmp_trans = bytes_order_trans;
  crc32_short = sum;
  color_offset = 32;
}
