-- ===== src/HustdbHa/Head.antt =====
-- The head of a record of the binlog, hustdb_ha_write_binlog.c. The
-- checksum is nginx's, as is the number that it reads from the version.
use hustngx.Prelude.{
  ℕ, ◌+◌, ◌%◌, ◌^◌, Bool, true, false, Option, none, some, List, [], ◌∷◌, ◌++◌, ltb, if◌then◌else◌,
  length, take,
}
use hustngx.Nginx.{Bytes}
use hustngx.Shm.Typed.{from_number}

-- `head_item_t`: where the data are, and how many bytes.
pub record HeadItem : Type 0 where
  pub bytes : Option Bytes
  pub len : ℕ

-- A number in `w` bytes of memory.
abbrev pub number_item : ℕ → ℕ → HeadItem
number_item w v = record { bytes = some (from_number w v); len = w }

-- What is encoded, without its lengths: `ver`, `key_crc` and `tb_crc` as the code computes them.
pub record Head : Type 0 where
  pub method : ℕ
  pub ver : ℕ
  pub key : Bytes
  pub key_crc : ℕ
  pub ttl : ℕ
  pub tb : Bytes
  pub tb_crc : ℕ
  pub score : ℕ
  pub opt : ℕ

-- The fields from the arguments of `__encode_head`.
unfoldable pub head_of : (Bytes → ℕ) → ℕ → Bool → ℕ → Bytes → Bytes → ℕ → ℕ → ℕ → Head
head_of crc method has_tb ver key tb ttl score opt = record {
  method = method;
  ver = ver;
  key = key;
  key_crc = crc key;
  ttl = ttl;
  tb = if has_tb then tb else [];
  tb_crc = if has_tb then crc tb else 0;
  score = score;
  opt = opt;
}

-- `heads`, given the contents of `head_len`; lengths are of 32 bits.
unfoldable pub heads : ℕ → Head → List HeadItem
heads head_len h =
    number_item 4 head_len
    ∷ number_item 1 h.method
    ∷ number_item 4 h.ver
    ∷ number_item 4 (length h.key % 2 ^ 32)
    ∷ record { bytes = some h.key; len = length h.key % 2 ^ 32 }
    ∷ number_item 4 h.key_crc
    ∷ number_item 4 h.ttl
    ∷ number_item 4 (length h.tb % 2 ^ 32)
    ∷ record { bytes = some h.tb; len = length h.tb % 2 ^ 32 }
    ∷ number_item 4 h.tb_crc
    ∷ number_item 8 h.score
    ∷ number_item 1 h.opt
    ∷ []

unfoldable pub add_lengths : ℕ → List HeadItem → ℕ
add_lengths head_len [] = head_len
add_lengths head_len (item ∷ items) = add_lengths ((head_len + item.len) % 2 ^ 32) items

unfoldable pub copy_items : List HeadItem → Bytes
copy_items [] = []
copy_items (item ∷ items) =
    let rest = copy_items items in
    elim item.bytes [
      | none ↦ rest
      | some bytes ↦ if ltb 0 item.len then take item.len bytes ++ rest else rest
    ]

-- `__encode_head`; the pool has room for the buffer, or not.
unfoldable pub encode_head : Bool → Head → Option Bytes
encode_head false h = none
encode_head true h = some (copy_items (heads (add_lengths 0 (heads 0 h)) h))
