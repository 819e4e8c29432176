-- ===== src/Shm/Valid.antt =====
-- The invariant of a zone, and the pointer operations of ngx_shm_dict_utils.c and
-- ngx_shm_dict_writer.c that keep it.
use hustngx.Prelude.{
  ℕ, ◌≡◌, refl, sym, ap, ◌∙◌, true, false, ◌∷◌, ◌==◌, if◌then◌else◌, arith, mem, erase, mem-erase,
  IsDistinct, erase-IsDistinct, ==_iff, mem-erase_self,
}
use hustngx.Nginx.{Nginx, inorder}
use hustngx.Shm.Node.{Node, Zone, shm_crc32}
use hustngx.Shm.Order.{IsSorted}
use hustngx.Shm.Search.{sorted-IsDistinct, erase-IsSorted, IsSorted-congr}
use hustngx.Shm.Zone.{update, lock, unlock, write, touch, drop_node}

module _ {Queue Slab : Type 0} (ngx : Nginx Queue Slab) where
  -- The address is in the zone's queue.
  abbrev pub Holds : Zone Queue Slab → ℕ → Type 0
  Holds z a = mem a (ngx.items z.queue) ≡ true

  -- The tree is sorted with no key twice, queue and tree have the same nodes, each once, their
  -- blocks are allocated, and each node has the hash of its key.
  pub record IsValid (z : Zone Queue Slab) : Type 0 where
    pub sorted : IsSorted ngx z.heap (inorder z.tree)
    pub distinct : IsDistinct (ngx.items z.queue)
    pub same : (a : ℕ) → mem a (ngx.items z.queue) ≡ mem a (inorder z.tree)
    pub live : (a : ℕ) → Holds z a → ngx.in_use z.slab a ≡ true
    pub hashed : (a : ℕ) → Holds z a → (z.heap a).hash ≡ shm_crc32 ngx (z.heap a).key

  pub unlock-IsValid : (z : Zone Queue Slab) → IsValid z → IsValid (unlock ngx z)
  unlock-IsValid z v = record {
    sorted = v.sorted;
    distinct = v.distinct;
    same = v.same;
    live = v.live;
    hashed = v.hashed;
  }

  pub lock-IsValid : (z : Zone Queue Slab) → IsValid z → IsValid (lock ngx z)
  lock-IsValid z v = record {
    sorted = v.sorted;
    distinct = v.distinct;
    same = v.same;
    live = v.live;
    hashed = v.hashed;
  }

  pub heap-drop_node : (z : Zone Queue Slab) (a : ℕ) → (drop_node ngx z a).heap ≡ z.heap
  unfolding drop_node
  heap-drop_node z a = refl

  pub heap-touch : (z : Zone Queue Slab) (a : ℕ) → (touch ngx z a).heap ≡ z.heap
  unfolding touch
  heap-touch z a = refl

  module _ (z : Zone Queue Slab) (v : IsValid z) (a : ℕ) (h : Holds z a) where
    pub items-touch : ngx.items (touch ngx z a).queue ≡ a ∷ erase a (ngx.items z.queue)
    unfolding touch
    items-touch =
        ngx.items-insert_head (ngx.remove z.queue a) a
          (rw (ngx.items-remove z.queue a h) (mem-erase_self a (ngx.items z.queue) v.distinct))
        ∙ ap (◌∷◌ a) (ngx.items-remove z.queue a h)

    -- Moving a node to the head leaves the same nodes in the queue.
    pub mem-touch : (b : ℕ) → mem b (ngx.items (touch ngx z a).queue) ≡ mem b (ngx.items z.queue)
    mem-touch b =
        rw items-touch (ground (arith, mem-erase a b (ngx.items z.queue) v.distinct, ==_iff b a))

    pub touch-IsValid : IsValid (touch ngx z a)
    touch-IsValid = record {
      sorted = unfold touch in v.sorted;
      distinct = rw items-touch (
        mem-erase_self a (ngx.items z.queue) v.distinct,
        erase-IsDistinct a (ngx.items z.queue) v.distinct,
      );
      same = λ b. mem-touch b ∙ (unfold touch in v.same b);
      live = λ b k. unfold touch in v.live b (sym (mem-touch b) ∙ k);
      hashed = λ b k. unfold touch in v.hashed b (sym (mem-touch b) ∙ k);
    }

    pub mem-drop_node :
        (b : ℕ)
        → mem b (ngx.items (drop_node ngx z a).queue)
          ≡ (if b == a then false else mem b (ngx.items z.queue))
    unfolding drop_node
    mem-drop_node b =
        rw (ngx.items-remove z.queue a h) (mem-erase a b (ngx.items z.queue) v.distinct)

    pub drop_node-IsValid : IsValid (drop_node ngx z a)
    drop_node-IsValid = record {
      sorted = sorted';
      distinct = distinct';
      same = same';
      live = live';
      hashed = λ b k. unfold drop_node in v.hashed b (ground (arith, mem-drop_node b));
    }
      where
        erased : inorder (ngx.rbtree_delete z.tree a) ≡ erase a (inorder z.tree)
        erased = ngx.rbtree_delete-erase z.tree a (sym (v.same a) ∙ h)

        sorted' : IsSorted ngx (drop_node ngx z a).heap (inorder (drop_node ngx z a).tree)
        sorted' =
            unfold drop_node in rw erased (erase-IsSorted ngx z.heap a (inorder z.tree) v.sorted)

        distinct' : IsDistinct (ngx.items (drop_node ngx z a).queue)
        distinct' =
            unfold drop_node in
            rw (ngx.items-remove z.queue a h) (erase-IsDistinct a (ngx.items z.queue) v.distinct)

        same' :
            (b : ℕ)
            → mem b (ngx.items (drop_node ngx z a).queue) ≡ mem b (inorder (drop_node ngx z a).tree)
        same' b =
            mem-drop_node b
            ∙ (unfold drop_node in
                rw
                  (
                    erased,
                    mem-erase a b (inorder z.tree)
                        (sorted-IsDistinct ngx z.heap (inorder z.tree) v.sorted),
                    v.same b,
                  )
                  refl)

        live' : (b : ℕ) → Holds (drop_node ngx z a) b → ngx.in_use (drop_node ngx z a).slab b ≡ true
        live' b k =
            unfold drop_node in
            ground (arith, mem-drop_node b, ngx.in_use-slab_free z.slab a b, v.live b)

    -- A write that keeps the hash and the key.
    pub write-IsValid :
        (n : Node) → n.hash ≡ (z.heap a).hash → n.key ≡ (z.heap a).key → IsValid (write ngx z a n)
    unfolding update
    write-IsValid n e f = record {
      sorted =
          IsSorted-congr ngx z.heap (update z.heap a n) (inorder z.tree)
            (λ b k. ground (arith, ==_iff b a)) (λ b k. ground (arith, ==_iff b a)) v.sorted;
      distinct = v.distinct;
      same = v.same;
      live = v.live;
      hashed = λ b k. ground (arith, v.hashed b, v.hashed a, ==_iff b a);
    }
