-- ===== src/Shm/Counters.antt =====
-- The counters of ngx_shm_dict_code.c, `ngx_shm_dict_incr_int8` and the like, on a valid zone.
use hustngx.Prelude.{
  ℕ, zero, suc, ◌+◌, ◌%◌, ◌^◌, ◌≡◌, ◌≢◌, ◌≤◌, ◌<◌, refl, ap, ◌∙◌, true, some, [], ◌∷◌, ◌++◌, arith,
  ==_refl, length, take, drop,
}
use mathlib.Core.List.{append-nil}
use hustngx.Nginx.{Nginx, Bytes}
use hustngx.Shm.Node.{Zone, Time, to_ms, word32, expires_at}
use hustngx.Shm.Zone.{is_kept}
use hustngx.Shm.Valid.{IsValid, Holds, write-IsValid}
use hustngx.Shm.Expire.{IsFresh}
use hustngx.Shm.Insert.{update_self}
use hustngx.Shm.Reader.{got_node, get, get_base}
use hustngx.Shm.Read.{get_complete, get-Reads}
use hustngx.Shm.RoundTrip.{store_node}
use hustngx.Shm.Writer.{ok}
use hustngx.Shm.Store.{store}
use hustngx.Shm.Typed.{
  Kind, code, width, from_number, to_number, get_number, poke, modify, add_and_fetch, incr, double,
}
use hustngx.Shm.Numbers.{length-from_number, to_number-from_number, code-ne, width-le}

take_append : (n : ℕ) (xs ys : Bytes) → length xs ≡ n → take n (xs ++ ys) ≡ xs
take_append zero [] ys e = refl
take_append zero (x ∷ xs) ys e = absurd (omega arith)
take_append (suc n) [] ys e = absurd (omega arith)
take_append (suc n) (x ∷ xs) ys e = ap (◌∷◌ x) (take_append n xs ys (omega arith))

wrap_fits : (k : Kind) (x : ℕ) → x % 256 ^ width k < 256 ^ width k
unfolding width
wrap_fits double x = omega arith
wrap_fits k x = omega arith

module _ {Queue Slab : Type 0} (ngx : Nginx Queue Slab) where
  -- The node at `a` is a number of the kind with this key.
  pub record Counter (k : Kind) (key : Bytes) (z : Zone Queue Slab) (a : ℕ) : Type 0 where
    pub holds : Holds ngx z a
    pub key_is : (z.heap a).key ≡ key
    pub type_is : (z.heap a).value_type ≡ code k
    pub width_is : (z.heap a).value_len ≡ width k

  module _ (k : Kind) (key : Bytes) (p : 0 < length key) (q : length key ≤ 65535) where
    get_number-Counter :
        (t : Time) (z : Zone Queue Slab)
        → IsValid ngx z
        → (a : ℕ) → Counter k key z a
        → IsFresh ngx (z.heap a) (to_ms t)
        → (get_number ngx k t key z).0
          ≡ some (to_number (width k) (take (width k) (z.heap a).value))
    unfolding get_number get_base got_node
    get_number-Counter t z v a c fresh = rw (
      get_number,
      get_base,
      get_complete ngx t key z v p q a c.holds c.key_is fresh,
      c.type_is,
      ==_refl (code k),
      c.width_is,
    )

    -- A fresh counter is changed in place: the result is the operation's, the zone stays valid, and
    -- a reader that comes before the expiry reads the result.
    pub modify-Counter :
        (op : ℕ → ℕ → ℕ) (t t' : Time) (delta expire : ℕ) (z : Zone Queue Slab)
        → IsValid ngx z
        → (a : ℕ) → Counter k key z a
        → IsFresh ngx (z.heap a) (to_ms t)
        → IsFresh ngx (z.heap a) (to_ms t')
        → let v = op (to_number (width k) (z.heap a).value) delta in
          v < 256 ^ width k
          → let r = modify ngx op k t key delta expire z in
            (r.0 ≡ some v) × IsValid ngx r.1 × ((get_number ngx k t' key r.1).0 ≡ some v)
    unfolding poke got_node
    modify-Counter op t t' delta expire z w a c fresh fresh' fits =
        let e = get_complete ngx t key z w p q a c.holds c.key_is fresh in
        let r = get-Reads ngx t key z w p q in
        let (h, same) = r.retains a c.holds fresh in
        let z' = (get ngx t key z).1 in
        let v = op (to_number (width k) (z.heap a).value) delta in
        let y = poke ngx z' a (from_number (width k) v) in
        let rest = drop (length (from_number (width k) v)) (z.heap a).value in
        let cell : y.heap a ≡ record (z.heap a) { value = from_number (width k) v ++ rest } =
          update_self z'.heap a _ ∙ rw same refl in
        let valid : IsValid ngx y = write-IsValid ngx z' r.valid a h _ refl refl in
        let counter : Counter k key y a = record {
          holds = h;
          key_is = rw cell c.key_is;
          type_is = rw cell c.type_is;
          width_is = rw cell c.width_is;
        } in
        let read = get_number-Counter t' y valid a counter (rw cell fresh') in
        let value : to_number (width k) (take (width k) (y.heap a).value) ≡ v = rw (
          cell,
          take_append (width k) (from_number (width k) v) rest (length-from_number (width k) v),
          ← append-nil (from_number (width k) v),
          to_number-from_number (width k) v [] fits,
        ) in
        let ran : modify ngx op k t key delta expire z ≡ (some v, y) =
          unfold modify in rw (modify, e, c.type_is, ==_refl (code k), same) refl in
        rw ran (refl, valid, read ∙ ap some value)

  add_and_fetch-wraps :
      (double_add : ℕ → ℕ → ℕ) (k : Kind) (a b : ℕ)
      → k ≢ double
      → add_and_fetch double_add k a b ≡ (a + b) % 256 ^ width k
  unfolding add_and_fetch
  add_and_fetch-wraps double_add double a b ne = absurd (ne refl)
  add_and_fetch-wraps double_add k a b ne = refl

  -- An integer that a writer has stored successfully in a valid zone and that has not expired is
  -- counted up modulo 256^width: the call returns the sum, the zone stays valid, and a reader
  -- before the expiry reads the sum. The key has 1 to 65535 bytes.
  pub incr-store :
      (double_add : ℕ → ℕ → ℕ) (flags : ℕ) (k : Kind) (v delta : ℕ) (t t' t'' : Time) (key : Bytes)
      (expire : ℕ) (z z' : Zone Queue Slab)
      → IsValid ngx z
      → k ≢ double
      → 0 < length key
      → length key ≤ 65535
      → v < 256 ^ width k
      → store ngx flags t key (some (some (from_number (width k) v))) (code k) expire 0 z ≡ (ok, z')
      → is_kept 1 (expires_at t expire) (to_ms t') ≡ true
      → is_kept 1 (expires_at t expire) (to_ms t'') ≡ true
      → let r = incr ngx double_add k t' key delta expire z' in
        (r.0 ≡ some ((v + delta) % 256 ^ width k))
        × IsValid ngx r.1
        × ((get_number ngx k t'' key r.1).0 ≡ some ((v + delta) % 256 ^ width k))
  unfolding incr
  incr-store double_add flags k v delta t t' t'' key expire z z' w ne p q fits done fresh fresh' =
      let (valid, (a, h, key_is, value, type, len, exp)) =
        store_node ngx flags t key (from_number (width k) v) (code k) expire 0 z z' w p q
          (code-ne k) done in
      let small : length (from_number (width k) v) % word32 ≡ width k =
        rw (length-from_number (width k) v) (omega (arith, width-le k)) in
      let c : Counter k key z' a = record {
        holds = h;
        key_is = key_is;
        type_is = type;
        width_is = len ∙ small;
      } in
      let old : to_number (width k) (z'.heap a).value ≡ v =
        rw (value, ← append-nil (from_number (width k) v))
          (to_number-from_number (width k) v [] fits) in
      let sum = add_and_fetch-wraps double_add k (to_number (width k) (z'.heap a).value) delta ne in
      let res =
        modify-Counter k key p q (add_and_fetch double_add k) t' t'' delta expire z' valid a c
          (rw exp fresh) (rw exp fresh') (rw sum (wrap_fits k _)) in
      rw (sum, old) at res
