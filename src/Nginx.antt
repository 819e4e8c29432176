-- ===== src/Nginx.antt =====
-- What the library takes from nginx itself, whose source is not part of the repository: the
-- intrusive queue (`ngx_queue_t`), the slab allocator of a shared zone, the red-black tree's
-- insertion and deletion, the byte comparison, the checksum, and the layout of the node header.
-- Each operation comes with its documented behaviour. An address is a number.
use hustngx.Prelude.{
  ℕ, ◌≡◌, ◌↔◌, Bool, true, false, Option, some, List, [], ◌∷◌, ◌++◌, Ordering, mem, erase, ◌==◌,
  if◌then◌else◌,
}

-- A pointer tree as `ngx_rbtree_node_t` links it; the colours are nginx's own business.
pub data Tree : Type 0 where
  sentinel : Tree
  branch : Tree → ℕ → Tree → Tree

-- The addresses of a tree, from left to right.
abbrev pub inorder : Tree → List ℕ
inorder sentinel = []
inorder (branch l a r) = inorder l ++ a ∷ inorder r

abbrev pub Bytes : Type 0
Bytes = List ℕ

pub record Nginx (Queue Slab : Type 0) : Type 0 where
  -- `items q` is what a walk visits from `ngx_queue_head` by `ngx_queue_next` to the sentinel.
  pub items : Queue → List ℕ
  pub queue_init : Queue
  pub insert_head : Queue → ℕ → Queue
  pub remove : Queue → ℕ → Queue
  pub items-queue_init : items queue_init ≡ []
  pub items-insert_head :
      (q : Queue) (a : ℕ) → mem a (items q) ≡ false → items (insert_head q a) ≡ a ∷ items q
  pub items-remove :
      (q : Queue) (a : ℕ) → mem a (items q) ≡ true → items (remove q a) ≡ erase a (items q)
  -- `ngx_slab_alloc_locked` returns a block that is not in use, or fails.
  pub slab_alloc : Slab → ℕ → Option (ℕ × Slab)
  pub slab_free : Slab → ℕ → Slab
  pub in_use : Slab → ℕ → Bool
  pub slab_alloc_fresh :
      (s : Slab) (n a : ℕ) (s' : Slab) → slab_alloc s n ≡ some (a, s') → in_use s a ≡ false
  pub in_use-slab_alloc :
      (s : Slab) (n a : ℕ) (s' : Slab)
      → slab_alloc s n ≡ some (a, s')
      → (b : ℕ) → in_use s' b ≡ (if b == a then true else in_use s b)
  pub in_use-slab_free :
      (s : Slab) (a b : ℕ) → in_use (slab_free s a) b ≡ (if b == a then false else in_use s b)
  -- `ngx_rbtree_insert` makes a first node the root, calls the tree's insert callback on any other,
  -- and then only rotates; `ngx_rbtree_delete` takes one node out.
  pub rbtree_insert : (Tree → ℕ → Tree) → Tree → ℕ → Tree
  pub rbtree_delete : Tree → ℕ → Tree
  pub rbtree_insert-sentinel :
      (insert : Tree → ℕ → Tree) (a : ℕ) → inorder (rbtree_insert insert sentinel a) ≡ a ∷ []
  pub rbtree_insert-branch :
      (insert : Tree → ℕ → Tree) (l : Tree) (b : ℕ) (r : Tree) (a : ℕ)
      → inorder (rbtree_insert insert (branch l b r) a) ≡ inorder (insert (branch l b r) a)
  pub rbtree_delete-erase :
      (t : Tree) (a : ℕ)
      → mem a (inorder t) ≡ true
      → inorder (rbtree_delete t a) ≡ erase a (inorder t)
  -- The sign of `ngx_memn2cmp`, which is a total order on byte strings.
  pub memn2cmp : Bytes → Bytes → Ordering
  pub memn2cmp_eq : (x y : Bytes) → (memn2cmp x y ≡ Ordering.eq) ↔ (x ≡ y)
  pub memn2cmp_flip : (x y : Bytes) → (memn2cmp x y ≡ Ordering.lt) ↔ (memn2cmp y x ≡ Ordering.gt)
  pub memn2cmp_trans :
      (x y z : Bytes)
      → memn2cmp x y ≡ Ordering.lt
      → memn2cmp y z ≡ Ordering.lt
      → memn2cmp x z ≡ Ordering.lt
  pub crc32_short : Bytes → ℕ
  -- `offsetof(ngx_rbtree_node_t, color)`
  pub color_offset : ℕ
