-- ===== src/Peers.antt =====
-- The peer lists of lib_hustngx/nginx/src/http/modules/ngx_http_utils_module.c. A peer is an
-- element of a type, with its server's name and, where it matters, whether the upstream check takes
-- it for alive. A list that is linked by `next` is a list, and a pointer to a node is the list from
-- that node on.
pub mod Walk
pub mod Names
use hustngx.Prelude.{
  ℕ, zero, suc, ◌+◌, ◌-◌, ◌==◌, Bool, true, false, Option, none, some, List, [], ◌∷◌, ◌++◌, ltb,
  if◌then◌else◌, length, get_elem?,
}
use hustngx.Nginx.{Bytes}
use hustngx.CDict.Table.{Table}
use hustngx.CDict.Table

module _ {P : Type 0} (is_alive : P → Bool) where
  -- The loop of `ngx_http_next_peer` and of `ngx_http_get_next_peer`, from the next node on.
  unfoldable pub skip_dead : List P → Option (List P)
  skip_dead [] = none
  skip_dead (p ∷ rest) = if is_alive p then some (p ∷ rest) else skip_dead rest

  -- `ngx_http_next_peer`, `ngx_http_get_next_peer`; a null list is empty.
  unfoldable pub next_peer : List P → Option (List P)
  next_peer [] = none
  next_peer (p ∷ rest) = skip_dead rest

  -- `ngx_http_first_peer`, `ngx_http_get_first_peer`
  unfoldable pub first_peer : List P → Option (List P)
  first_peer [] = none
  first_peer (p ∷ rest) = if is_alive p then some (p ∷ rest) else next_peer (p ∷ rest)

-- A pool that has room for so many blocks.
abbrev pub palloc : ℕ → Option ℕ
palloc zero = none
palloc (suc room) = some room

module _ {P : Type 0} where
  -- `ngx_http_append_peer` to a list whose last node is `node`; the head is empty at first, and the
  -- first peer goes into it.
  unfoldable pub append_peer : ℕ → P → List P → Option (List P × ℕ)
  append_peer room peer [] = some (peer ∷ [], room)
  append_peer room peer (p ∷ list) = elim (palloc room) [
    | none ↦ none
    | some room' ↦ some ((p ∷ list) ++ peer ∷ [], room')
  ]

  unfoldable pub append_all : ℕ → List P → List P → Option (List P × ℕ)
  append_all room [] list = some (list, room)
  append_all room (p ∷ peers) list = elim (append_peer room p list) [
    | none ↦ none
    | some (list', room') ↦ append_all room' peers list'
  ]

  -- `ngx_http_init_peer_list`
  unfoldable pub init_peer_list : ℕ → List P → Option (List P × ℕ)
  init_peer_list room [] = none
  init_peer_list room (p ∷ peers) = elim (palloc room) [
    | none ↦ none
    | some room' ↦ append_all room' (p ∷ peers) []
  ]

  -- `ngx_http_get_peer_by_index`
  unfoldable pub get_peer_by_index : List P → ℕ → Option P
  get_peer_by_index arr index = if ltb index (length arr) then get_elem? arr index else none

  -- `ngx_http_peer_dict_get`
  unfoldable pub peer_dict_get : Table P → Bytes → Option P
  peer_dict_get dict key = Table.get key dict

  module _ (name : P → Bytes) where
    -- `ngx_http_init_peer_dict`, where the results of `c_dict_set` are not looked at.
    unfoldable pub set_all : (ℕ → Bool) → (ℕ → Bool) → List P → Table P → Table P
    set_all malloc realloc [] dict = dict
    set_all malloc realloc (p ∷ peers) dict =
        set_all malloc realloc peers
          (Table.set (malloc (length peers)) (realloc (length peers)) (name p) p dict).1

    unfoldable pub init_peer_dict : (ℕ → Bool) → (ℕ → Bool) → List P → Option (Table P)
    init_peer_dict malloc realloc [] = none
    init_peer_dict malloc realloc (p ∷ peers) = some (set_all malloc realloc (p ∷ peers) Table.init)
