-- ===== src/HustdbHa/Correct.antt =====
-- The table that hustdb_ha_table_def.c builds against the shares that it was given.
use hustngx.Prelude.{
  ℕ, zero, suc, ◌+◌, ◌≡◌, ◌≢◌, ◌≤◌, ◌<◌, ◌⊎◌, inl, inr, refl, sym, ap, ◌∙◌, Bool, true, false, ◌&&◌,
  Option, none, some, List, [], ◌∷◌, ◌==◌, if◌then◌else◌, length, arith, ==_iff, Bool-cases,
  Option-cases,
}
use hustngx.Nginx.{Bytes}
use hustngx.CDict.Table.{Table, same}
use hustngx.HustdbHa.Table.{
  Pair, val_at, master1, master2, Decr, Elem, Cell, Result, done, refused, overrun, set_table_item,
}
use hustngx.HustdbHa.Check.{
  get_remove_idx, enable_increase, check_table_item, review_cells, review_table, review_writelist,
  precheck_table,
}
use hustngx.HustdbHa.Build.{
  State, get_remained_idx, build_peer_list, store_item, append_list, append_table_item,
  append_incr_item, append_decr_item, build_table_item, build_items, build_table, build_hash_table,
  include_increase, include_decrease, Bucket, build_bucket_table,
}
use hustngx.HustdbHa.Cells.{done-injective, set_table_item-done}
use hustngx.HustdbHa.Shares.{
  both, plain, replaced, grown, shares, all_shares, Named, ServesSome, Changes, Changes-append,
  build_peer_list-Named,
}

module _ {P : Type 0} (dict : Table P) (table_size : ℕ) where
  store_item-Changes :
      (p : Pair) (rk wk : List Bytes) (reads writes : List P) (room : ℕ) (s s' : State P)
      → Named dict rk reads
      → Named dict wk writes
      → store_item dict table_size p reads writes room s ≡ done s'
      → Changes dict s.table s'.table (record { range = p; reads = rk; writes = wk } ∷ [])
  unfolding store_item
  store_item-Changes p rk wk reads writes room s s' hr hw e i =
      go (set_table_item table_size p reads writes s.index s.table) refl
    where
      go :
          (r : Result ((ℕ → Cell P) × ℕ))
          → set_table_item table_size p reads writes s.index s.table ≡ r
          → (s'.table i ≡ s.table i)
            ⊎ ServesSome dict i (s'.table i) (record { range = p; reads = rk; writes = wk } ∷ [])
      go refused f = absurd (cc (rw (store_item, f) at e))
      go overrun f = absurd (cc (rw (store_item, f) at e))
      go (done (t, n)) f =
          let g : t ≡ s'.table =
            ap (λ x. x.table)
              (done-injective s (record { table = t; index = n; room = room }) s'
                (rw (store_item, f) at e)) in
          elim (set_table_item-done table_size p reads writes s.index s.table t n f i) [
            | inl h ↦ inl (ap (λ k. k i) (sym g) ∙ h)
            | inr (a, b, l, u, r, w) ↦ inr (
                rw (← g) (
                  inl (record {
                    from = a;
                    to = b;
                    low = l;
                    high = u;
                    reads = rw r hr;
                    writes = rw w hw;
                  })))
          ]

  append_list-Changes :
      (p : Pair) (keys : List Bytes) (s s' : State P)
      → append_list dict table_size p keys s ≡ done s'
      → Changes dict s.table s'.table (record { range = p; reads = keys; writes = keys } ∷ [])
  unfolding append_list
  append_list-Changes p keys s s' e = elim (Option-cases (build_peer_list dict s.room keys)) [
    | inl f ↦ absurd (cc (rw (append_list, f) at e))
    | inr ((list, room), f) ↦
        let named = build_peer_list-Named dict s.room keys list room f in
        store_item-Changes p keys keys list list room s s' named named (rw (append_list, f) at e)
  ]

  append_incr_item-Changes :
      (high low : Pair) (s s' : State P)
      → append_incr_item dict table_size high low s ≡ done s'
      → Changes dict s.table s'.table (grown low high ∷ [])
  unfolding append_incr_item
  append_incr_item-Changes high low s s' e =
      elim (Option-cases (build_peer_list dict s.room (both high))) [
        | inl f ↦ absurd (cc (rw (append_incr_item, f) at e))
        | inr ((writes, room), f) ↦
            elim (Option-cases (build_peer_list dict room (grown low high).reads)) [
              | inl g ↦ absurd (cc (rw (append_incr_item, f, g) at e))
              | inr ((reads, room'), g) ↦
                  store_item-Changes high (grown low high).reads (both high) reads writes room' s s'
                    (build_peer_list-Named dict room (grown low high).reads reads room' g)
                    (build_peer_list-Named dict s.room (both high) writes room f)
                    (rw (append_incr_item, f, g) at e)
            ]
      ]

  append_decr_item-Changes :
      (d : Decr) (p : Pair) (s s' : State P)
      → append_decr_item dict table_size d p s ≡ done s'
      → Changes dict s.table s'.table (replaced d p ∷ [])
  unfolding append_decr_item get_remained_idx get_remove_idx
  append_decr_item-Changes d p s s' e = elim (Bool-cases (same d.remove (val_at p master1))) [
    | inl f ↦ rw f (append_list-Changes p _ s s' (rw (append_decr_item, get_remove_idx, f) at e))
    | inr f ↦ elim (Bool-cases (same d.remove (val_at p master2))) [
      | inl g ↦
          rw f (append_list-Changes p _ s s' (rw (append_decr_item, get_remove_idx, f, g) at e))
      | inr g ↦ absurd (cc (rw (append_decr_item, get_remove_idx, f, g) at e))
    ]
  ]

  increase-Changes :
      (low high : Pair) (s s' : State P)
      → (elim (append_table_item dict table_size low s) [
        | done s'' ↦ append_incr_item dict table_size high low s''
        | refused ↦ refused
        | overrun ↦ overrun
      ])
        ≡ done s'
      → Changes dict s.table s'.table (plain low ∷ grown low high ∷ [])
  unfolding append_table_item
  increase-Changes low high s s' e = go (append_list dict table_size low (both low) s) refl
    where
      go :
          (r : Result (State P))
          → append_list dict table_size low (both low) s ≡ r
          → Changes dict s.table s'.table (plain low ∷ grown low high ∷ [])
      go refused f = absurd (cc (rw f at e))
      go overrun f = absurd (cc (rw f at e))
      go (done s'') f =
          Changes-append dict s.table s''.table s'.table (plain low ∷ []) (grown low high ∷ [])
            (append_list-Changes low (both low) s s'' f)
            (append_incr_item-Changes high low s'' s' (rw f at e))

  build_table_item-Changes :
      (include_decrease : Bool) (x : Elem) (s s' : State P)
      → build_table_item dict table_size include_decrease x s ≡ done s'
      → Changes dict s.table s'.table (shares include_decrease x)
  unfolding build_table_item enable_increase append_table_item
  build_table_item-Changes true x s s' e = elim (Bool-cases x.has_decrease) [
    | inl f ↦ rw f (append_decr_item-Changes x.decrease x.item s s' (rw f at e))
    | inr f ↦ rw f (append_list-Changes x.item (both x.item) s s' (rw f at e))
  ]
  build_table_item-Changes false x s s' e = elim (Bool-cases x.has_increase) [
    | inr f ↦ rw f (append_list-Changes x.item (both x.item) s s' (rw f at e))
    | inl f ↦ elim (Bool-cases x.increase.has_low) [
      | inr g ↦ rw (f, g) (append_list-Changes x.item (both x.item) s s' (rw (f, g) at e))
      | inl g ↦ elim (Bool-cases x.increase.has_high) [
        | inr h ↦ rw (f, g, h) (append_list-Changes x.item (both x.item) s s' (rw (f, g, h) at e))
        | inl h ↦
            rw (f, g, h)
              (increase-Changes x.increase.low x.increase.high s s'
                (unfold append_table_item in rw (f, g, h) at e))
      ]
    ]
  ]

  build_items-Changes :
      (include_decrease : Bool) (prev : Option Elem) (items : List Elem) (s s' : State P)
      → build_items dict table_size include_decrease prev items s ≡ done s'
      → Changes dict s.table s'.table (all_shares include_decrease items)
  unfolding build_items
  build_items-Changes d prev [] s s' e =
      λ i. inl (ap (λ x. x.table i) (sym (done-injective s s s' e)))
  build_items-Changes d prev (x ∷ rest) s s' e =
      elim (Bool-cases (check_table_item table_size d (length rest == 0) prev x)) [
        | inr f ↦ absurd (cc (rw (build_items, f) at e))
        | inl f ↦
            go f (λ y. build_items-Changes d (some x) rest y s')
              (build_table_item dict table_size d x s) refl
      ]
    where
      go :
          check_table_item table_size d (length rest == 0) prev x ≡ true
          → ((y : State P)
              → build_items dict table_size d (some x) rest y ≡ done s'
              → Changes dict y.table s'.table (all_shares d rest))
          → (r : Result (State P)) → build_table_item dict table_size d x s ≡ r
          → Changes dict s.table s'.table (all_shares d (x ∷ rest))
      go f later refused g = absurd (cc (rw (build_items, f, g) at e))
      go f later overrun g = absurd (cc (rw (build_items, f, g) at e))
      go f later (done y) g =
          Changes-append dict s.table y.table s'.table (shares d x) (all_shares d rest)
            (build_table_item-Changes d x s y g) (later y (rw (build_items, f, g) at e))

review_cells-size :
    {P : Type 0} (n i : ℕ) (table : ℕ → Cell P)
    → review_cells n i table ≡ true
    → (j : ℕ) → i ≤ j
    → j < i + n
    → length (table j).writelist ≡ 2
unfolding review_cells review_writelist
review_cells-size zero i table e j l u = absurd (omega arith)
review_cells-size (suc n) i table e j l u = elim (Bool-cases (j == i)) [
  | inl h ↦
      ap (λ k. length (table k).writelist) ((==_iff j i).0 h)
      ∙ (let two : (length (table i).writelist == 2) ≡ true = ground arith in (==_iff _ 2).0 two)
  | inr h ↦
      let ne : j ≢ i = λ q. absurd (cc (h, (==_iff j i).1 q)) in
      review_cells-size n (i + 1) table (ground arith) j (omega (arith, ne, l)) (omega (arith, u))
]

-- The end of `__build_table`: the table has passed the review.
finish :
    {P : Type 0} (table_size : ℕ) (c : Option Bool) (index : ℕ) (t table : ℕ → Cell P)
    (buckets : List (Bucket P))
    → ◌≡◌ {A = Result ((ℕ → Cell P) × List (Bucket P))}
        (elim c [
          | none ↦ refused
          | some false ↦ refused
          | some true ↦
              if review_table table_size t
              then elim (build_bucket_table table_size index t) [
                | none ↦ refused
                | some bs ↦ done (t, bs)
              ]
              else refused
        ])
        (done (table, buckets))
    → (t ≡ table)
      × (review_table table_size t ≡ true)
      × (build_bucket_table table_size index t ≡ some buckets)
finish table_size none index t table buckets e = absurd (cc)
finish table_size (some false) index t table buckets e = absurd (cc)
finish table_size (some true) index t table buckets e =
    elim (Bool-cases (review_table table_size t)) [
      | inr f ↦ absurd (cc (rw f at e))
      | inl f ↦ elim (Option-cases (build_bucket_table table_size index t)) [
        | inl g ↦ absurd (cc (rw (f, g) at e))
        | inr (bs, g) ↦
            let both_same = done-injective (t, bs) (t, bs) (table, buckets) (rw (f, g) at e) in
            (ap (λ r. r.0) both_same, f, g ∙ ap (λ r. some r.1) both_same)
      ]
    ]

module _ {P : Type 0} (dict : Table P) (table_size : ℕ) where
  -- An empty table.
  abbrev pub null_table : ℕ → Cell P
  null_table i = record { readlist = []; writelist = []; index = 0; start = 0; end = 0 }

  pub build_table-serves :
      (malloc realloc : Bool) (fuel : ℕ) (d : Bool) (items : List Elem) (room : ℕ)
      (table : ℕ → Cell P) (buckets : List (Bucket P))
      → build_table dict table_size malloc realloc fuel d items
          (record { table = null_table; index = 0; room = room })
        ≡ done (table, buckets)
      → (i : ℕ) → i < table_size
      → ServesSome dict i (table i) (all_shares d items) × (length (table i).writelist ≡ 2)
  unfolding build_table
  build_table-serves malloc realloc fuel d items room table buckets e i p =
      go (build_items dict table_size d none items s) refl
    where
      s : State P
      s = record { table = null_table; index = 0; room = room }

      go :
          (r : Result (State P))
          → build_items dict table_size d none items s ≡ r
          → ServesSome dict i (table i) (all_shares d items) × (length (table i).writelist ≡ 2)
      go refused f = absurd (cc (rw (build_table, f) at e))
      go overrun f = absurd (cc (rw (build_table, f) at e))
      go (done s') f =
          let (same_table, reviewed, _) =
            finish table_size _ s'.index s'.table table buckets (rw (build_table, f) at e) in
          let two : length (s'.table i).writelist ≡ 2 =
            review_cells-size table_size 0 s'.table (unfold review_table in reviewed) i
              (omega arith) (omega (arith, p)) in
          rw (← same_table) (elim (build_items-Changes dict table_size d none items s s' f i) [
            | inr h ↦ (h, two)
            | inl g ↦ absurd (omega (arith, two, ap (λ c. length c.writelist) g))
          ])

  -- A hash table that is built into an empty one serves every hash below its size: the cell has
  -- the range and the peers of a share that the elements declare, as `all_shares` reads them, the
  -- hash lies in that range, and exactly two peers take writes.
  pub build_hash_table-serves :
      (malloc realloc : Bool) (fuel room : ℕ) (items : List Elem) (table : ℕ → Cell P)
      (buckets : List (Bucket P))
      → build_hash_table dict table_size malloc realloc fuel room items null_table
        ≡ done (table, buckets)
      → (i : ℕ) → i < table_size
      → ServesSome dict i (table i) (all_shares (include_decrease items) items)
        × (length (table i).writelist ≡ 2)
  unfolding build_hash_table
  build_hash_table-serves malloc realloc fuel room items table buckets e =
      elim (Bool-cases (precheck_table items)) [
        | inr f ↦ absurd (cc (rw (build_hash_table, f) at e))
        | inl f ↦ elim (Bool-cases (include_increase items && include_decrease items)) [
          | inl g ↦ absurd (cc (rw (build_hash_table, f, g) at e))
          | inr g ↦
              build_table-serves malloc realloc fuel (include_decrease items) items room table
                buckets (rw (build_hash_table, f, g) at e)
        ]
      ]
