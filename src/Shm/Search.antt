-- ===== src/Shm/Search.antt =====
-- `ngx_shm_dict_rbtree_insert_value` and the loop of `ngx_shm_dict_lookup` against the sorted list
-- of a tree's addresses.
use hustngx.Prelude.{
  ℕ, ◌≡◌, ◌≢◌, inl, inr, true, false, some, List, [], ◌∷◌, Ordering, arith, ◌==◌, mem, erase,
  IsDistinct, Bool-cases, Ordering-cases, mem-append_left,
}
use hustngx.Nginx.{Nginx, Tree, Bytes, inorder}
use hustngx.Shm.Node.{Node, node_order, insert_value, search_tree}
use hustngx.Shm.Order.{
  mem_middle, key_order-eq, key_order_refl, node_order_flip, node_order_flip', node_order-key_order,
  IsSorted, IsSorted-Split, IsSorted-join, mem-insert_value,
}

module _ {Queue Slab : Type 0} (ngx : Nginx Queue Slab) where
  -- No node of the list has the key of `a`.
  abbrev pub IsNewKey : (ℕ → Node) → ℕ → List ℕ → Type 0
  IsNewKey heap a xs = (b : ℕ) → mem b xs ≡ true → node_order ngx (heap a) (heap b) ≢ Ordering.eq

  pub insert_value-IsSorted :
      (heap : ℕ → Node) (t : Tree) (a : ℕ)
      → IsSorted ngx heap (inorder t)
      → IsNewKey heap a (inorder t)
      → IsSorted ngx heap (inorder (insert_value ngx heap t a))
  unfolding insert_value
  insert_value-IsSorted heap Tree.sentinel a s new = (λ b h. cc, tt)
  insert_value-IsSorted heap (Tree.branch l x r) a s new =
      let p = IsSorted-Split ngx heap (inorder l) x (inorder r) s in
      elim (Ordering-cases (node_order ngx (heap a) (heap x))) [
        | inl e ↦
            rw (e, insert_value)
              (IsSorted-join ngx heap (inorder (insert_value ngx heap l a)) x (inorder r) (record {
                left =
                    insert_value-IsSorted heap l a p.left
                      (λ b h. new b (mem-append_left b (inorder l) (x ∷ inorder r) h));
                right = p.right;
                below = λ b h. ground (arith, mem-insert_value ngx heap l a b, p.below b);
                above = p.above;
              }))
        | inr (inl e) ↦ absurd (new x (ground (arith, mem_middle x x (inorder l) (inorder r))) e)
        | inr (inr e) ↦
            rw (e, insert_value)
              (IsSorted-join ngx heap (inorder l) x (inorder (insert_value ngx heap r a)) (record {
                left = p.left;
                right =
                    insert_value-IsSorted heap r a p.right
                      (λ b h. new b (ground (arith, mem_middle b x (inorder l) (inorder r))));
                below = p.below;
                above = λ b h. ground (
                  arith,
                  mem-insert_value ngx heap r a b,
                  p.above b,
                  node_order_flip ngx (heap a) (heap x),
                );
              }))
      ]

  -- The search returns a node of the tree that has the hash and the key.
  pub search_tree-some :
      (heap : ℕ → Node) (hash : ℕ) (key : Bytes) (t : Tree) (a : ℕ)
      → search_tree ngx heap hash key t ≡ some a
      → (mem a (inorder t) ≡ true) × ((heap a).hash ≡ hash) × ((heap a).key ≡ key)
  unfolding search_tree
  search_tree-some heap hash key Tree.sentinel a e = cc
  search_tree-some heap hash key (Tree.branch l x r) a e = ground (
    arith,
    search_tree-some heap hash key l a,
    search_tree-some heap hash key r a,
    mem_middle a x (inorder l) (inorder r),
    key_order-eq ngx hash (heap x).hash key (heap x).key,
  )

  -- In a sorted tree the search finds the node that has the hash and the key.
  pub search_tree-mem :
      (heap : ℕ → Node) (t : Tree) (a : ℕ)
      → IsSorted ngx heap (inorder t)
      → mem a (inorder t) ≡ true
      → search_tree ngx heap (heap a).hash (heap a).key t ≡ some a
  unfolding search_tree
  search_tree-mem heap Tree.sentinel a s h = cc
  search_tree-mem heap (Tree.branch l x r) a s h =
      let p = IsSorted-Split ngx heap (inorder l) x (inorder r) s in
      ground (
        arith,
        search_tree-mem heap l a p.left,
        search_tree-mem heap r a p.right,
        mem_middle a x (inorder l) (inorder r),
        p.below a,
        p.above a,
        node_order-key_order ngx (heap a) (heap x),
        node_order_flip' ngx (heap x) (heap a),
        key_order_refl ngx (heap x).hash (heap x).key,
      )

  pub sorted-IsDistinct : (heap : ℕ → Node) (xs : List ℕ) → IsSorted ngx heap xs → IsDistinct xs
  sorted-IsDistinct heap [] s = tt
  sorted-IsDistinct heap (x ∷ xs) s = (absent, sorted-IsDistinct heap xs s.1)
    where
      absent : mem x xs ≡ false
      absent = ground (
        arith,
        s.0 x,
        node_order-key_order ngx (heap x) (heap x),
        key_order_refl ngx (heap x).hash (heap x).key,
      )

  mem_of_mem-erase : (a b : ℕ) (xs : List ℕ) → mem b (erase a xs) ≡ true → mem b xs ≡ true
  mem_of_mem-erase a b [] h = h
  mem_of_mem-erase a b (x ∷ xs) h = ground (arith, mem_of_mem-erase a b xs)

  pub erase-IsSorted :
      (heap : ℕ → Node) (a : ℕ) (xs : List ℕ)
      → IsSorted ngx heap xs
      → IsSorted ngx heap (erase a xs)
  erase-IsSorted heap a [] s = tt
  erase-IsSorted heap a (x ∷ xs) s = elim (Bool-cases (a == x)) [
    | inl e ↦ rw e s.1
    | inr e ↦ rw e (λ b h. s.0 b (mem_of_mem-erase a b xs h), erase-IsSorted heap a xs s.1)
  ]

  -- Sortedness depends on the hashes and the keys alone.
  pub IsSorted-congr :
      (heap heap' : ℕ → Node) (xs : List ℕ)
      → ((b : ℕ) → mem b xs ≡ true → (heap b).hash ≡ (heap' b).hash)
      → ((b : ℕ) → mem b xs ≡ true → (heap b).key ≡ (heap' b).key)
      → IsSorted ngx heap xs
      → IsSorted ngx heap' xs
  unfolding node_order
  IsSorted-congr heap heap' [] e f s = tt
  IsSorted-congr heap heap' (x ∷ xs) e f s = (
    λ b h.
        rw (← e x (ground arith), ← f x (ground arith), ← e b (ground arith), ← f b (ground arith))
          (s.0 b h),
    IsSorted-congr heap heap' xs (λ b h. e b (ground arith)) (λ b h. f b (ground arith)) s.1,
  )
