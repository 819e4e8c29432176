-- ===== src/HustdbHa/Read.antt =====
-- Reads from the peers of a key: hustdb_ha_read_handler.c.
use hustngx.Prelude.{
  ℕ, zero, suc, ◌≡◌, ◌<◌, refl, ap, ◌∙◌, Bool, true, false, not, Option, none, some, List, [], ◌∷◌,
  ◌==◌, if◌then◌else◌, length, arith, inl, inr, Bool-cases,
}
use hustngx.Nginx.{Bytes}
use hustngx.Peers.{skip_dead, next_peer, first_peer}
use hustngx.Peers.Walk.{alive, first_peer-skip_dead}
use hustngx.HustdbHa.Write.{http_ok, http_not_found}

-- What a call of the handler ends with: a subrequest to the first peer of the rest of the list, a
-- response, with the version and the body, which is null or there, an error code of nginx, or a
-- null pointer.
pub data ReadAction (P : Type 0) : Type 0 where
  read_from : List P → ReadAction P
  send_response : ℕ → Option Bytes → Option Bytes → ReadAction P
  ngx_error : ReadAction P
  null_pointer : ReadAction P

-- `hustdb_ha_hash_peer_by_key`, `hustdb_ha_hash_peer_by_tb` and `hustdb_ha_hash_peer_by_body_key`,
-- where the key is missing or there; a null list is empty.
unfoldable pub hash_peer : {P : Type 0} → (Bytes → List P) → Option Bytes → List P
hash_peer readlist none = []
hash_peer readlist (some key) = readlist key

module _ {P : Type 0} (is_alive : P → Bool) where
  -- `__get_peer_by_key`
  unfoldable pub get_peer_by_key : (Bytes → List P) → Option Bytes → Option (List P)
  get_peer_by_key readlist none = none
  get_peer_by_key readlist (some key) = first_peer is_alive (readlist key)

  -- `__start_read`
  unfoldable pub start_read : (Bytes → List P) → Option Bytes → ReadAction P
  start_read readlist key = elim (get_peer_by_key readlist key) [
    | none ↦ ngx_error
    | some peer ↦ read_from peer
  ]

  -- `__post_handler`, for a key of the body or of the parameters.
  unfoldable pub post_handler : (Bytes → List P) → Option Bytes → ReadAction P
  post_handler readlist key = elim (get_peer_by_key readlist key) [
    | none ↦ send_response http_not_found none none
    | some peer ↦ read_from peer
  ]

  -- The end of `hustdb_ha_read_handler`, when the subrequest to the first peer of the list has ended.
  unfoldable pub on_read_complete : ℕ → Option Bytes → Bytes → List P → ReadAction P
  on_read_complete status version body peer =
      if not (status == http_ok)
      then elim (next_peer is_alive peer) [
        | none ↦ send_response http_not_found none none
        | some peer' ↦ read_from peer'
      ]
      else send_response http_ok version (some body)

  module _ (status : P → ℕ) (version : P → Option Bytes) (body : P → Bytes) where
    -- The handler over the ends of subrequests, on fuel, when a peer always answers the same.
    unfoldable pub read_all : ℕ → ReadAction P → ReadAction P
    read_all zero a = a
    read_all (suc fuel) (read_from []) = null_pointer
    read_all (suc fuel) (read_from (p ∷ rest)) =
        read_all fuel (on_read_complete (status p) (version p) (body p) (p ∷ rest))
    read_all (suc fuel) (send_response s v b) = send_response s v b
    read_all (suc fuel) ngx_error = ngx_error
    read_all (suc fuel) null_pointer = null_pointer

    -- The answer of the first peer that answers with 200.
    abbrev pub first_good : List P → ReadAction P
    first_good [] = send_response http_not_found none none
    first_good (p ∷ rest) =
        if status p == http_ok
        then send_response http_ok (version p) (some (body p))
        else first_good rest

    after : List P → ReadAction P
    after list = elim (skip_dead is_alive list) [
      | none ↦ send_response http_not_found none none
      | some peer ↦ read_from peer
    ]

    after-dead : (p : P) (rest : List P) → is_alive p ≡ false → after (p ∷ rest) ≡ after rest
    unfolding after skip_dead
    after-dead p rest e = rw (after, e) refl

    after-alive :
        (p : P) (rest : List P) → is_alive p ≡ true → after (p ∷ rest) ≡ read_from (p ∷ rest)
    unfolding after skip_dead
    after-alive p rest e = rw (after, e) refl

    refused_goes_on :
        (p : P) (rest : List P)
        → (status p == http_ok) ≡ false
        → on_read_complete (status p) (version p) (body p) (p ∷ rest) ≡ after rest
    unfolding after on_read_complete next_peer
    refused_goes_on p rest f = rw f refl

    granted_answers :
        (p : P) (rest : List P)
        → (status p == http_ok) ≡ true
        → on_read_complete (status p) (version p) (body p) (p ∷ rest)
          ≡ send_response http_ok (version p) (some (body p))
    unfolding on_read_complete
    granted_answers p rest f = rw f refl

    read_all_stays :
        (fuel s : ℕ) (v b : Option Bytes)
        → read_all fuel (send_response s v b) ≡ send_response s v b
    unfolding read_all
    read_all_stays zero s v b = refl
    read_all_stays (suc fuel) s v b = refl

    read_all-after :
        (fuel : ℕ) (list : List P)
        → length list < fuel
        → read_all fuel (after list) ≡ first_good (alive is_alive list)
    unfolding read_all after skip_dead
    read_all-after zero list h = absurd (omega (arith, h))
    read_all-after (suc fuel) [] h = refl
    read_all-after (suc fuel) (p ∷ rest) h = elim (Bool-cases (is_alive p)) [
      | inr e ↦
          ap (read_all (suc fuel)) (after-dead p rest e)
          ∙ read_all-after (suc fuel) rest (omega (arith, h))
          ∙ rw e refl
      | inl e ↦ elim (Bool-cases (status p == http_ok)) [
        | inr f ↦
            ap (read_all (suc fuel)) (after-alive p rest e)
            ∙ ap (read_all fuel) (refused_goes_on p rest f)
            ∙ read_all-after fuel rest (omega (arith, h))
            ∙ rw (e, f) refl
        | inl f ↦
            ap (read_all (suc fuel)) (after-alive p rest e)
            ∙ ap (read_all fuel) (granted_answers p rest f)
            ∙ read_all_stays fuel http_ok (version p) (some (body p))
            ∙ rw (e, f) refl
      ]
    ]

    -- When peers neither die nor change their answers meanwhile, a read of a key that was posted
    -- is answered with 200 and the version and the body of the first living peer in its list that
    -- answers with 200, and with 404 if there is none; fuel above the number of peers is enough.
    pub read_all-post_handler :
        (readlist : Bytes → List P) (key : Bytes) (fuel : ℕ)
        → length (readlist key) < fuel
        → read_all fuel (post_handler readlist (some key))
          ≡ first_good (alive is_alive (readlist key))
    unfolding post_handler get_peer_by_key after
    read_all-post_handler readlist key fuel h =
        rw (post_handler, first_peer-skip_dead is_alive (readlist key))
          (read_all-after fuel (readlist key) h)
