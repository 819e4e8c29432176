-- ===== src/Peers/Walk.antt =====
-- The walk over the living peers, and the lists that are built from the configured ones
-- (ngx_http_utils_module.c).
use hustngx.Prelude.{
  ℕ, zero, suc, ◌≡◌, ◌≤◌, ◌<◌, refl, sym, ap, ◌∙◌, Bool, Option, none, some, List, [], ◌∷◌, ◌++◌,
  if◌then◌else◌, length, arith, inl, inr, Bool-cases,
}
use mathlib.Core.List.{append_assoc, append-nil}
use hustngx.Peers.{skip_dead, next_peer, first_peer, append_peer, append_all, init_peer_list}

module _ {P : Type 0} (is_alive : P → Bool) where
  abbrev pub alive : List P → List P
  alive [] = []
  alive (p ∷ rest) = if is_alive p then p ∷ alive rest else alive rest

  -- The peers from a position that `first_peer` or `next_peer` has returned, on fuel.
  abbrev pub visit : ℕ → Option (List P) → List P
  visit zero at = []
  visit (suc fuel) none = []
  visit (suc fuel) (some []) = []
  visit (suc fuel) (some (p ∷ rest)) = p ∷ visit fuel (next_peer is_alive (p ∷ rest))

  visit-skip_dead :
      (fuel : ℕ) (list : List P)
      → length list < fuel
      → visit fuel (skip_dead is_alive list) ≡ alive list
  unfolding skip_dead next_peer
  visit-skip_dead zero list p = absurd (omega arith)
  visit-skip_dead (suc fuel) [] p = refl
  visit-skip_dead (suc fuel) (x ∷ rest) p = elim (Bool-cases (is_alive x)) [
    | inl e ↦ rw e (ap (◌∷◌ x) (visit-skip_dead fuel rest (omega arith)))
    | inr e ↦ rw e (visit-skip_dead (suc fuel) rest (omega arith))
  ]

  pub first_peer-skip_dead : (list : List P) → first_peer is_alive list ≡ skip_dead is_alive list
  unfolding first_peer next_peer skip_dead
  first_peer-skip_dead [] = refl
  first_peer-skip_dead (p ∷ rest) = refl

  -- Going from the first peer to the next until there is none visits exactly the living peers of
  -- the list, in its order; fuel above the number of peers is enough.
  pub visit-first_peer :
      (fuel : ℕ) (list : List P)
      → length list < fuel
      → visit fuel (first_peer is_alive list) ≡ alive list
  visit-first_peer fuel list p = rw (first_peer-skip_dead list) (visit-skip_dead fuel list p)

module _ {P : Type 0} where
  append_all-append :
      (peers : List P) (p : P) (list : List P) (room : ℕ)
      → length peers ≤ room
      → (left : ℕ) × (append_all room peers (p ∷ list) ≡ some ((p ∷ list) ++ peers, left))
  unfolding append_all append_peer
  append_all-append [] p list room h =
      (room, ap (λ l. some (l, room)) (sym (append-nil (p ∷ list))))
  append_all-append (q ∷ peers) p list zero h = absurd (omega arith)
  append_all-append (q ∷ peers) p list (suc room) h =
      let (left, e) = append_all-append peers p (list ++ q ∷ []) room (omega arith) in
      (left, e ∙ ap (λ l. some (l, left)) (append_assoc (p ∷ list) (q ∷ []) peers))

  -- With room for a node for every peer, the list that is built from at least one peer has the
  -- peers in their order.
  init_peer_list-same :
      (room : ℕ) (peers : List P)
      → 0 < length peers
      → length peers ≤ room
      → (left : ℕ) × (init_peer_list room peers ≡ some (peers, left))
  unfolding init_peer_list append_all append_peer
  init_peer_list-same room [] p h = absurd (omega arith)
  init_peer_list-same zero (x ∷ peers) p h = absurd (omega arith)
  init_peer_list-same (suc room) (x ∷ peers) p h = append_all-append peers x [] room (omega arith)
