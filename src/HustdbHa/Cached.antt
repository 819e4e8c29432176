-- ===== src/HustdbHa/Cached.antt =====
-- How a write to the caches of hustdb_ha_write_cache.c is answered.
use hustngx.Prelude.{
  ℕ, ◌+◌, ◌≡◌, refl, ap, ◌∙◌, Bool, true, false, not, ◌||◌, Option, none, some, List, [], ◌∷◌, ◌==◌,
  if◌then◌else◌, inl, inr, Bool-cases,
}
use hustngx.Nginx.{Bytes}
use hustngx.HustdbHa.Write.{
  WriteState, state_write_master1, state_write_master2, http_ok, http_not_found, head_peer,
  init_write_args,
}
use hustngx.HustdbHa.WriteCache.{
  WriteCacheCtx, CacheAction, run_subrequest, send_response, Answer, parse_cache_args,
  post_write_cache, update_cache_error, send_write_cache_response, ask_second_cache, on_cache_event,
  drive_cache, first_cache_request, copy_args, start_write_cache, write_cache,
}

module _ {P : Type 0} (is_alive : P → Bool) (add_field : Bool) (answers : P → Answer) where
  -- A master that is dead or does not answer 200.
  abbrev is_failed : P → Bool
  is_failed p = not (is_alive p) || not ((answers p).status == http_ok)

  -- The answer when one master has failed.
  abbrev named : Bytes → P → CacheAction P
  named body failed =
      if add_field
      then send_response http_ok (some body) (some failed)
      else send_response http_not_found none none

  -- The verdict on the two masters `p` and `q` of a key.
  abbrev pub verdict : P → P → CacheAction P
  verdict p q =
      if is_failed p
      then if is_failed q then send_response http_not_found none none else named (answers q).body p
      else if is_failed q
      then named (answers p).body q
      else send_response http_ok (some (answers q).body) none

  abbrev ctx_of : List P → WriteState → ℕ → Option P → Option Bytes → WriteCacheCtx P
  ctx_of peer state error_count error_peer response = record {
    peer = peer;
    state = state;
    error_count = error_count;
    error_peer = error_peer;
    response = response;
  }

  -- An answer is kept, or counted as an error.
  keeps :
      (a : Answer) (c : WriteCacheCtx P)
      → (a.status == http_ok) ≡ true
      → update_cache_error a.status (post_write_cache a c) ≡ record c { response = some a.body }
  unfolding update_cache_error post_write_cache
  keeps a c h = rw h refl

  counts :
      (a : Answer) (c : WriteCacheCtx P)
      → (a.status == http_ok) ≡ false
      → update_cache_error a.status (post_write_cache a c)
        ≡ record c { error_count = c.error_count + 1; error_peer = head_peer c.peer }
  unfolding update_cache_error post_write_cache
  counts a c h = rw h refl

  abbrev respond : WriteCacheCtx P → CacheAction P
  respond c = send_write_cache_response is_alive add_field c

  -- A response is sent once.
  sent :
      (c : WriteCacheCtx P) (l : List P) (st : WriteState) (n : ℕ) (e : Option P) (r : Option Bytes)
      → drive_cache is_alive add_field 1 answers c (respond (ctx_of l st n e r))
        ≡ respond (ctx_of l st n e r)
  unfolding drive_cache send_write_cache_response
  sent c l st n none r = elim (Bool-cases (n == 0)) [
    | inl f ↦ rw f refl
    | inr f ↦ elim (Bool-cases (n == 1)) [ inl g ↦ rw (f, g) refl | inr g ↦ rw (f, g) refl ]
  ]
  sent c l st n (some x) r = elim (Bool-cases (n == 0)) [
    | inl f ↦ rw f refl
    | inr f ↦ elim (Bool-cases (n == 1)) [
      | inl g ↦ elim (Bool-cases add_field) [
        | inl h ↦ rw (f, g, h) refl
        | inr h ↦ rw (f, g, h) refl
      ]
      | inr g ↦ rw (f, g) refl
    ]
  ]

  -- The second master has been asked.
  second_ends :
      (q : P) (n : ℕ) (e : Option P) (r : Option Bytes)
      → drive_cache is_alive add_field 1 answers
          (ctx_of (q ∷ []) state_write_master2 n e r)
          (run_subrequest q)
        ≡ (if (answers q).status == http_ok
            then respond (ctx_of (q ∷ []) state_write_master2 n e (some (answers q).body))
            else respond (ctx_of (q ∷ []) state_write_master2 (n + 1) (some q) r))
  unfolding drive_cache on_cache_event head_peer
  second_ends q n e r = elim (Bool-cases ((answers q).status == http_ok)) [
    | inl h ↦ rw h (ap respond (keeps (answers q) (ctx_of (q ∷ []) state_write_master2 n e r) h))
    | inr h ↦ rw h (ap respond (counts (answers q) (ctx_of (q ∷ []) state_write_master2 n e r) h))
  ]

  -- The second master alone has been asked.
  only_second_ends :
      (q : P) (n : ℕ) (e : Option P) (r : Option Bytes)
      → drive_cache is_alive add_field 2 answers
          (ctx_of (q ∷ []) state_write_master2 n e r)
          (run_subrequest q)
        ≡ (if (answers q).status == http_ok
            then respond (ctx_of (q ∷ []) state_write_master2 n e (some (answers q).body))
            else respond (ctx_of (q ∷ []) state_write_master2 (n + 1) (some q) r))
  unfolding drive_cache on_cache_event head_peer
  only_second_ends q n e r = elim (Bool-cases ((answers q).status == http_ok)) [
    | inl h ↦ rw h (
        ap (λ c. drive_cache is_alive add_field 1 answers c (respond c))
          (keeps (answers q) (ctx_of (q ∷ []) state_write_master2 n e r) h)
        ∙ sent (ctx_of (q ∷ []) state_write_master2 n e (some (answers q).body)) (q ∷ [])
            state_write_master2 n e (some (answers q).body))
    | inr h ↦ rw h (
        ap (λ c. drive_cache is_alive add_field 1 answers c (respond c))
          (counts (answers q) (ctx_of (q ∷ []) state_write_master2 n e r) h)
        ∙ sent (ctx_of (q ∷ []) state_write_master2 (n + 1) (some q) r) (q ∷ []) state_write_master2
            (n + 1) (some q) r)
  ]

  -- The first master has been counted.
  abbrev asked : WriteCacheCtx P → CacheAction P
  asked c =
      let next = ask_second_cache is_alive add_field c in
      drive_cache is_alive add_field 1 answers next.0 next.1

  asks_second :
      (p q : P) (n : ℕ) (e : Option P) (r : Option Bytes)
      → asked (ctx_of (p ∷ q ∷ []) state_write_master1 n e r) ≡ (
          if is_failed q
          then respond (ctx_of (q ∷ []) state_write_master2 (n + 1) (some q) r)
          else respond (ctx_of (q ∷ []) state_write_master2 n e (some (answers q).body)))
  unfolding ask_second_cache send_write_cache_response
  asks_second p q n e r = elim (Bool-cases (is_alive q)) [
    | inl g ↦ elim (Bool-cases ((answers q).status == http_ok)) [
      | inl h ↦ rw (g, h) (second_ends q n e r ∙ rw h refl)
      | inr h ↦ rw (g, h) (second_ends q n e r ∙ rw h refl)
    ]
    | inr g ↦ rw g (
        sent (ctx_of (q ∷ []) state_write_master1 (n + 1) (some q) r) (q ∷ []) state_write_master1
          (n + 1) (some q) r)
  ]

  -- The first master has been asked.
  first_ends :
      (p q : P)
      → drive_cache is_alive add_field 2 answers
          (ctx_of (p ∷ q ∷ []) state_write_master1 0 none none)
          (run_subrequest p)
        ≡ asked (
            if (answers p).status == http_ok
            then ctx_of (p ∷ q ∷ []) state_write_master1 0 none (some (answers p).body)
            else ctx_of (p ∷ q ∷ []) state_write_master1 1 (some p) none)
  unfolding drive_cache on_cache_event head_peer
  first_ends p q = elim (Bool-cases ((answers p).status == http_ok)) [
    | inl h ↦
        rw h (ap asked (keeps (answers p) (ctx_of (p ∷ q ∷ []) state_write_master1 0 none none) h))
    | inr h ↦
        rw h (ap asked (counts (answers p) (ctx_of (p ∷ q ∷ []) state_write_master1 0 none none) h))
  ]

  begins :
      (writelist : Bytes → List P) (key : Bytes) (l : List P)
      → writelist key ≡ l
      → write_cache is_alive add_field 2 answers writelist (some key) true
        ≡ start_write_cache is_alive add_field 2 answers (copy_args (init_write_args is_alive l))
  unfolding write_cache parse_cache_args
  begins writelist key l e =
      ap
        (λ m.
          start_write_cache is_alive add_field 2 answers (copy_args (init_write_args is_alive m)))
        e

  -- For a key with two masters and a request that passes its check, the handler of a write to the
  -- caches ends after two subrequests at most: if both masters have failed the answer is 404; if
  -- neither has, it is 200 with the body of the second; if one has, it is 200 with the body of the
  -- other and the failed one under the header Fail, and 404 if that header cannot be added. A
  -- master has failed if it is dead or does not answer 200.
  pub write_cache-verdict :
      (writelist : Bytes → List P) (key : Bytes) (p q : P)
      → writelist key ≡ p ∷ q ∷ []
      → write_cache is_alive add_field 2 answers writelist (some key) true ≡ verdict p q
  unfolding start_write_cache copy_args init_write_args first_cache_request
      send_write_cache_response
  write_cache-verdict writelist key p q e =
      begins writelist key (p ∷ q ∷ []) e ∙ (elim (Bool-cases (is_alive p)) [
        | inl f ↦ rw f (
            first_ends p q ∙ (elim (Bool-cases ((answers p).status == http_ok)) [
              | inl h ↦ rw h (asks_second p q 0 none (some (answers p).body))
              | inr h ↦ rw h (asks_second p q 1 (some p) none)
            ]))
        | inr f ↦ elim (Bool-cases (is_alive q)) [
          | inl g ↦ elim (Bool-cases ((answers q).status == http_ok)) [
            | inl h ↦ rw (f, g, h) (only_second_ends q 1 (some p) none ∙ rw h refl)
            | inr h ↦ rw (f, g, h) (only_second_ends q 1 (some p) none ∙ rw h refl)
          ]
          | inr g ↦ rw (f, g) refl
        ]
      ])
