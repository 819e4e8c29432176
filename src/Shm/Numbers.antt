-- ===== src/Shm/Numbers.antt =====
-- Typed values of ngx_shm_dict_code.c: numbers and their bytes, and reading what was written.
use hustngx.Prelude.{
  ℕ, zero, suc, ◌*◌, ◌/◌, ◌^◌, ◌≡◌, ◌≢◌, ◌≤◌, ◌<◌, refl, ap, true, none, some, [], ◌++◌, arith,
  ==_refl, length,
}
use mathlib.Core.List.{append-nil}
use native.Mathlib.Nat.{pow-suc}
use hustngx.Nginx.{Nginx, Bytes}
use hustngx.Shm.Node.{Zone, Time, to_ms, word32, expires_at}
use hustngx.Shm.Zone.{is_kept}
use hustngx.Shm.Valid.{IsValid}
use hustngx.Shm.Reader.{get_base}
use hustngx.Shm.RoundTrip.{get-store}
use hustngx.Shm.Writer.{ok, shm_dict_null}
use hustngx.Shm.Store.{store}
use hustngx.Shm.Typed.{Kind, int8, code, width, from_number, to_number, get_number}

pub length-from_number : (w v : ℕ) → length (from_number w v) ≡ w
unfolding from_number
length-from_number zero v = refl
length-from_number (suc w) v = ap suc (length-from_number w (v / 256))

-- A number below 256^w is read back from its w bytes, whatever follows them.
pub to_number-from_number :
    (w v : ℕ) (rest : Bytes) → v < 256 ^ w → to_number w (from_number w v ++ rest) ≡ v
unfolding to_number from_number
to_number-from_number zero v rest h = omega arith
to_number-from_number (suc w) v rest h =
    let p : 256 ^ suc w ≡ 256 ^ w * 256 = pow-suc _ _ in
    omega (arith, to_number-from_number w (v / 256) rest (omega (arith, p)))

pub width-le : (k : Kind) → width k ≤ 8
unfolding width
width-le int8 = omega arith
width-le k = omega arith

pub number_fits : (k : Kind) (v : ℕ) → length (from_number (width k) v) < word32
number_fits k v = omega (arith, length-from_number (width k) v, width-le k)

pub code-ne : (k : Kind) → code k ≢ shm_dict_null
unfolding code
code-ne int8 = omega arith
code-ne k = omega arith

pub code-injective : (k l : Kind) → code k ≡ code l → k ≡ l
unfolding code
code-injective k l h = ground arith

module _ {Queue Slab : Type 0} (ngx : Nginx Queue Slab) where
  -- A number of its type's width that a writer has stored successfully in a valid zone is read
  -- back by the reader of its type before the expiry. The key has 1 to 65535 bytes.
  get_number-store :
      (flags : ℕ) (k : Kind) (v : ℕ) (t t' : Time) (key : Bytes) (expire : ℕ)
      (z z' : Zone Queue Slab)
      → IsValid ngx z
      → 0 < length key
      → length key ≤ 65535
      → v < 256 ^ width k
      → store ngx flags t key (some (some (from_number (width k) v))) (code k) expire 0 z ≡ (ok, z')
      → is_kept 1 (expires_at t expire) (to_ms t') ≡ true
      → (get_number ngx k t' key z').0 ≡ some v
  unfolding get_number get_base
  get_number-store flags k v t t' key expire z z' w p q fits done fresh =
      let (g, e, bytes, type, _) =
        get-store ngx flags t t' key (from_number (width k) v) (code k) expire 0 z z' w p q
          (number_fits k v) (code-ne k) done fresh in
      rw (
        get_number,
        get_base,
        e,
        type,
        ==_refl (code k),
        bytes,
        ← append-nil (from_number (width k) v),
        to_number-from_number (width k) v [] fits,
      )

  -- A number that a writer has stored successfully in a valid zone is refused by the readers of
  -- the other number types. The key has 1 to 65535 bytes.
  pub get_number-other :
      (flags : ℕ) (k l : Kind) (v : ℕ) (t t' : Time) (key : Bytes) (expire : ℕ)
      (z z' : Zone Queue Slab)
      → IsValid ngx z
      → 0 < length key
      → length key ≤ 65535
      → k ≢ l
      → store ngx flags t key (some (some (from_number (width k) v))) (code k) expire 0 z ≡ (ok, z')
      → is_kept 1 (expires_at t expire) (to_ms t') ≡ true
      → (get_number ngx l t' key z').0 ≡ none
  unfolding get_number get_base
  get_number-other flags k l v t t' key expire z z' w p q other done fresh =
      let (g, e, bytes, type, _) =
        get-store ngx flags t t' key (from_number (width k) v) (code k) expire 0 z z' w p q
          (number_fits k v) (code-ne k) done fresh in
      rw (get_number, get_base, e, type) (ground (arith, code-injective k l))
