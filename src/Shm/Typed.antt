-- ===== src/Shm/Typed.antt =====
-- ngx_shm_dict_code.c: the typed readers and writers, one of each for every type of value. The
-- functions of one family differ in the type alone and are one function of a `Kind` here. A number
-- is the pattern of its bits, signed types and doubles too, and memory is little-endian.
use hustngx.Prelude.{
  ℕ, zero, suc, ◌+◌, ◌-◌, ◌*◌, ◌/◌, ◌%◌, ◌^◌, Bool, Option, none, some, [], ◌∷◌, ◌++◌, ◌==◌,
  if◌then◌else◌, length, drop,
}
use hustngx.Nginx.{Nginx, Bytes}
use hustngx.Shm.Node.{Zone, Time}
use hustngx.Shm.Zone.{write}
use hustngx.Shm.Reader.{get, get_base}
use hustngx.Shm.Traverse.{copy_str}
use hustngx.Shm.Writer.{ok, error, Outcome}
use hustngx.Shm.Store

pub data Kind : Type 0 where
  int8 uint8 int16 uint16 int32 uint32 int64 uint64 double : Kind

-- SHM_DICT_INT8 to SHM_DICT_DOUBLE
unfoldable pub code : Kind → ℕ
code int8 = 1
code uint8 = 2
code int16 = 3
code uint16 = 4
code int32 = 5
code uint32 = 6
code int64 = 7
code uint64 = 8
code double = 9

abbrev pub shm_dict_string : ℕ
shm_dict_string = 10

abbrev pub shm_dict_binary : ℕ
shm_dict_binary = 11

-- `sizeof`
unfoldable pub width : Kind → ℕ
width int8 = 1
width uint8 = 1
width int16 = 2
width uint16 = 2
width int32 = 4
width uint32 = 4
width int64 = 8
width uint64 = 8
width double = 8

-- The bytes at the address of a number, `ngx_shm_dict_from_int8` and the like.
unfoldable pub from_number : ℕ → ℕ → Bytes
from_number zero v = []
from_number (suc w) v = (v % 256) ∷ from_number w (v / 256)

-- The number at an address, `ngx_shm_dict_to_int8` and the like. The typed writers store no value
-- that is shorter than its type.
unfoldable pub to_number : ℕ → Bytes → ℕ
to_number zero bytes = 0
to_number (suc w) [] = 0
to_number (suc w) (b ∷ bytes) = b + 256 * to_number w bytes

-- A value with its type; a string or binary value may have no data.
pub data Value : Type 0 where
  number : Kind → ℕ → Value
  string : Option Bytes → Value
  binary : Option Bytes → Value

unfoldable pub from_value : Value → Option Bytes
from_value (number k v) = some (from_number (width k) v)
from_value (string data') = data'
from_value (binary data') = data'

unfoldable pub value_code : Value → ℕ
value_code (number k v) = code k
value_code (string data') = shm_dict_string
value_code (binary data') = shm_dict_binary

-- `ngx_shm_dict_copy_bin` into the caller's buffer, if there is one, or into a pool.
unfoldable pub copy_bin : Bool → (ℕ → Bool) → Bytes → Option Bytes
copy_bin buffer palloc [] = none
copy_bin buffer palloc (c ∷ src) =
    if buffer then some (c ∷ src) else if palloc (length src + 1) then some (c ∷ src) else none

-- `__sync_add_and_fetch` and `__sync_sub_and_fetch` on integers; on doubles the machine's addition
-- and subtraction of bit patterns.
unfoldable pub add_and_fetch : (ℕ → ℕ → ℕ) → Kind → ℕ → ℕ → ℕ
add_and_fetch double_add double a b = double_add a b
add_and_fetch double_add k a b = (a + b) % 256 ^ width k

unfoldable pub sub_and_fetch : (ℕ → ℕ → ℕ) → Kind → ℕ → ℕ → ℕ
sub_and_fetch double_sub double a b = double_sub a b
sub_and_fetch double_sub k a b = (a + 256 ^ width k - b) % 256 ^ width k

module _ {Queue Slab : Type 0} (ngx : Nginx Queue Slab) where
  unfoldable pub get_number : Kind → Time → Bytes → Zone Queue Slab → Option ℕ × Zone Queue Slab
  get_number k t key z = get_base ngx t key (code k) (λ bytes. some (to_number (width k) bytes)) z

  -- The outer `none` is a null pool.
  unfoldable pub get_string :
      Time → Bytes → Option (ℕ → Bool) → Zone Queue Slab → Option Bytes × Zone Queue Slab
  get_string t key none z = (none, z)
  get_string t key (some palloc) z = get_base ngx t key shm_dict_string (copy_str palloc) z

  unfoldable pub get_binary :
      Bool → Time → Bytes → Option (ℕ → Bool) → Zone Queue Slab → Option Bytes × Zone Queue Slab
  get_binary buffer t key none z = (none, z)
  get_binary buffer t key (some palloc) z =
      get_base ngx t key shm_dict_binary (copy_bin buffer palloc) z

  unfoldable pub add_value : Value → Time → Bytes → ℕ → Zone Queue Slab → Outcome ngx
  add_value x t key expire z = Store.add ngx t key (some (from_value x)) (value_code x) expire 0 z

  unfoldable pub safe_add_value : Value → Time → Bytes → ℕ → Zone Queue Slab → Outcome ngx
  safe_add_value x t key expire z =
      Store.safe_add ngx t key (some (from_value x)) (value_code x) expire 0 z

  unfoldable pub replace_value : Value → Time → Bytes → ℕ → Zone Queue Slab → Outcome ngx
  replace_value x t key expire z =
      Store.replace ngx t key (some (from_value x)) (value_code x) expire 0 z

  unfoldable pub set_value : Value → Time → Bytes → ℕ → Zone Queue Slab → Outcome ngx
  set_value x t key expire z = Store.set ngx t key (some (from_value x)) (value_code x) expire 0 z

  unfoldable pub safe_set_value : Value → Time → Bytes → ℕ → Zone Queue Slab → Outcome ngx
  safe_set_value x t key expire z =
      Store.safe_set ngx t key (some (from_value x)) (value_code x) expire 0 z

  -- A store through `(int8_t *) data.data` and the like: the first bytes of a node's value.
  unfoldable pub poke : Zone Queue Slab → ℕ → Bytes → Zone Queue Slab
  poke z a bytes =
      write ngx z a (record (z.heap a) { value = bytes ++ drop (length bytes) (z.heap a).value })

  -- The body that `incr` and `decr` share: a number of the right type is changed in place, a missing
  -- one is set to the delta. The result is `*result`, or an error.
  unfoldable pub modify :
      (ℕ → ℕ → ℕ) → Kind → Time → Bytes → ℕ → ℕ → Zone Queue Slab → Option ℕ × Zone Queue Slab
  modify op k t key delta expire z =
      let (got, z') = get ngx t key z in
      elim got [
        | some g ↦
            let v = op (to_number (width k) (z'.heap g.at).value) delta in
            if g.value_type == code k
            then (some v, poke z' g.at (from_number (width k) v))
            else (none, z')
        | none ↦
            let (rc, z'') = set_value (number k delta) t key expire z' in
            elim rc [ ok ↦ (some delta, z'') | error ↦ (none, z'') ]
      ]

  unfoldable pub incr :
      (ℕ → ℕ → ℕ) → Kind → Time → Bytes → ℕ → ℕ → Zone Queue Slab → Option ℕ × Zone Queue Slab
  incr double_add k t key delta expire z =
      modify (add_and_fetch double_add k) k t key delta expire z

  unfoldable pub decr :
      (ℕ → ℕ → ℕ) → Kind → Time → Bytes → ℕ → ℕ → Zone Queue Slab → Option ℕ × Zone Queue Slab
  decr double_sub k t key delta expire z =
      modify (sub_and_fetch double_sub k) k t key delta expire z
