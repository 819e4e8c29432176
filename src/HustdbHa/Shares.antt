-- ===== src/HustdbHa/Shares.antt =====
-- What a table declares, apart from the order in which hustdb_ha_table_def.c builds it: which ranges
-- of hashes are served by which peers.
use hustngx.Prelude.{
  ℕ, zero, suc, ◌≡◌, ◌≤◌, ◌<◌, ◌⊎◌, inl, inr, sym, ap, ◌∙◌, Bool, true, false, some, some-injective,
  List, [], ◌∷◌, ◌++◌, if◌then◌else◌, Option-cases,
}
use mathlib.Core.List.{append_assoc, append-nil}
use hustngx.Nginx.{Bytes}
use hustngx.CDict.Table.{Table, same}
use hustngx.Peers.{append_peer, peer_dict_get}
use hustngx.HustdbHa.Table.{
  pos, Pair, key_at, val_at, start, end, master1, master2, Decr, Elem, Cell,
}
use hustngx.HustdbHa.Build.{append_keys, build_peer_list}

-- A range of hashes with the names of the peers that are read and written for it.
pub record Share : Type 0 where
  pub range : Pair
  pub reads : List Bytes
  pub writes : List Bytes

abbrev pub both : Pair → List Bytes
both p = val_at p master1 ∷ val_at p master2 ∷ []

abbrev pub plain : Pair → Share
plain p = record { range = p; reads = both p; writes = both p }

-- The master that stays when one of the two is removed.
abbrev pub remaining : Decr → Pair → Bytes
remaining d p = if same d.remove (val_at p master1) then val_at p master2 else val_at p master1

abbrev pub replaced : Decr → Pair → Share
replaced d p =
    let names = remaining d p ∷ d.replace_by ∷ [] in
    record { range = p; reads = names; writes = names }

-- The upper half of a range that is split. Its reads are not an intention of their own: they repeat
-- the list of `__append_incr_item`, where the second master of the lower half stands twice.
abbrev pub grown : Pair → Pair → Share
grown low high = record {
  range = high;
  reads = val_at high master1 ∷ val_at high master2 ∷ val_at low master2 ∷ val_at low master2 ∷ [];
  writes = both high;
}

-- An element that decreases has one of its masters replaced; one that increases is split in two;
-- any other is served by its two masters.
abbrev pub shares : Bool → Elem → List Share
shares true e = (if e.has_decrease then replaced e.decrease e.item else plain e.item) ∷ []
shares false e =
    if e.has_increase
    then if e.increase.has_low
      then if e.increase.has_high
        then plain e.increase.low ∷ grown e.increase.low e.increase.high ∷ []
        else plain e.item ∷ []
      else plain e.item ∷ []
    else plain e.item ∷ []

abbrev pub all_shares : Bool → List Elem → List Share
all_shares include_decrease [] = []
all_shares include_decrease (e ∷ rest) =
    shares include_decrease e ++ all_shares include_decrease rest

module _ {P : Type 0} (dict : Table P) where
  -- The list has the peers with these names, in their order.
  abbrev pub Named : List Bytes → List P → Type 0
  Named [] [] = Unit
  Named [] (p ∷ list) = ⊥
  Named (k ∷ keys) [] = ⊥
  Named (k ∷ keys) (p ∷ list) = (peer_dict_get dict k ≡ some p) × Named keys list

  -- The cell `i` serves the share: `i` lies in its range, and the lists have its peers.
  pub record Serves (i : ℕ) (c : Cell P) (s : Share) : Type 0 where
    pub from : key_at s.range start ≡ pos c.start
    pub to : key_at s.range end ≡ pos c.end
    pub low : c.start ≤ i
    pub high : i < c.end
    pub reads : Named s.reads c.readlist
    pub writes : Named s.writes c.writelist

  -- One of the shares is served.
  abbrev pub ServesSome : ℕ → Cell P → List Share → Type 0
  ServesSome i c [] = ⊥
  ServesSome i c (s ∷ rest) = Serves i c s ⊎ ServesSome i c rest

  -- Every cell is as it was, or serves one of the shares.
  abbrev pub Changes : (ℕ → Cell P) → (ℕ → Cell P) → List Share → Type 0
  Changes old new ss = (i : ℕ) → (new i ≡ old i) ⊎ ServesSome i (new i) ss

  ServesSome-left :
      (i : ℕ) (c : Cell P) (xs ys : List Share) → ServesSome i c xs → ServesSome i c (xs ++ ys)
  ServesSome-left i c [] ys h = elim h [ ]
  ServesSome-left i c (s ∷ xs) ys (inl h) = inl h
  ServesSome-left i c (s ∷ xs) ys (inr h) = inr (ServesSome-left i c xs ys h)

  ServesSome-right :
      (i : ℕ) (c : Cell P) (xs ys : List Share) → ServesSome i c ys → ServesSome i c (xs ++ ys)
  ServesSome-right i c [] ys h = h
  ServesSome-right i c (s ∷ xs) ys h = inr (ServesSome-right i c xs ys h)

  pub Changes-append :
      (a b c : ℕ → Cell P) (xs ys : List Share)
      → Changes a b xs
      → Changes b c ys
      → Changes a c (xs ++ ys)
  Changes-append a b c xs ys f g i = elim (g i) [
    | inr h ↦ inr (ServesSome-right i (c i) xs ys h)
    | inl e ↦ elim (f i) [
      | inl e' ↦ inl (e ∙ e')
      | inr h ↦ inr (ServesSome-left i (c i) xs ys (rw e h))
    ]
  ]

  Named-snoc :
      (keys : List Bytes) (list : List P) (k : Bytes) (p : P)
      → Named keys list
      → peer_dict_get dict k ≡ some p
      → Named (keys ++ k ∷ []) (list ++ p ∷ [])
  Named-snoc [] [] k p h e = (e, tt)
  Named-snoc [] (y ∷ list) k p h e = elim h [ ]
  Named-snoc (x ∷ keys) [] k p h e = elim h [ ]
  Named-snoc (x ∷ keys) (y ∷ list) k p h e = (h.0, Named-snoc keys list k p h.1 e)

  append_peer-snoc :
      (room : ℕ) (p : P) (list list' : List P) (room' : ℕ)
      → append_peer room p list ≡ some (list', room')
      → list' ≡ list ++ p ∷ []
  unfolding append_peer
  append_peer-snoc room p [] list' room' e = ap (λ r. r.0) (sym (some-injective _ _ e))
  append_peer-snoc zero p (q ∷ list) list' room' e = absurd (cc)
  append_peer-snoc (suc room) p (q ∷ list) list' room' e =
      ap (λ r. r.0) (sym (some-injective _ _ e))

  append_keys-Named :
      (room : ℕ) (keys before : List Bytes) (list list' : List P) (room' : ℕ)
      → Named before list
      → append_keys dict room keys list ≡ some (list', room')
      → Named (before ++ keys) list'
  unfolding append_keys
  append_keys-Named room [] before list list' room' h e =
      rw (append-nil before, ← ap (λ r. r.0) (some-injective _ _ e)) h
  append_keys-Named room (k ∷ keys) before list list' room' h e =
      elim (Option-cases (peer_dict_get dict k)) [
        | inl f ↦ absurd (cc (rw (append_keys, f) at e))
        | inr (p, f) ↦ elim (Option-cases (append_peer room p list)) [
          | inl g ↦ absurd (cc (rw (append_keys, f, g) at e))
          | inr ((list'', room''), g) ↦
              let same_list = append_peer-snoc room p list list'' room'' g in
              let named : Named (before ++ k ∷ []) list'' =
                rw same_list (Named-snoc before list k p h f) in
              rw (append_assoc before (k ∷ []) keys) at (
                append_keys-Named room'' keys (before ++ k ∷ []) list'' list' room' named
                  (rw (append_keys, f, g) at e))
        ]
      ]

  pub build_peer_list-Named :
      (room : ℕ) (keys : List Bytes) (list : List P) (room' : ℕ)
      → build_peer_list dict room keys ≡ some (list, room')
      → Named keys list
  unfolding build_peer_list
  build_peer_list-Named zero keys list room' e = absurd (cc)
  build_peer_list-Named (suc room) keys list room' e =
      append_keys-Named room keys [] [] list room' tt e
