-- ===== src/Params.antt =====
-- The parameters of a query string: `__match_key`, `ngx_http_match_key`, `ngx_http_get_param_val`,
-- `ngx_http_append_arg` and `ngx_http_remove_param` of
-- lib_hustngx/nginx/src/http/modules/ngx_http_utils_module.c.
pub mod Changes
pub mod Pairs
pub mod Values
pub mod Search
pub mod Walk
use hustngx.Prelude.{
  ℕ, zero, suc, ◌+◌, ◌-◌, Bool, true, false, ◌&&◌, Option, none, some, List, [], ◌∷◌, ◌++◌, leb,
  ltb, ◌==◌, if◌then◌else◌, length, take, drop,
}
use hustngx.Nginx.{Bytes}

-- `ngx_str_t`: the bytes from `data` on up to a zero byte, of which the first `len` are the string.
pub record Str : Type 0 where
  pub bytes : Bytes
  pub len : ℕ

abbrev pub equals_sign : ℕ
equals_sign = 61

abbrev pub ampersand : ℕ
ampersand = 38

unfoldable pub starts_with : Bytes → Bytes → Bool
starts_with [] hay = true
starts_with (k ∷ key) [] = false
starts_with (k ∷ key) (x ∷ hay) = k == x && starts_with key hay

-- `strstr`: how many bytes before the first occurrence.
unfoldable pub strstr : Bytes → Bytes → Option ℕ
strstr key [] = if starts_with key [] then some 0 else none
strstr key (x ∷ hay) =
    let later = strstr key hay in
    if starts_with key (x ∷ hay) then some 0 else elim later [ none ↦ none | some i ↦ some (suc i) ]

-- A byte behind the end is the zero byte.
unfoldable pub first_byte : Bytes → ℕ
first_byte [] = 0
first_byte (x ∷ rest) = x

-- The loop of `__match_key`, at `offset` with `hay` from there on; the outer `none` is for fuel that
-- ran out, which is what an empty key makes of any.
unfoldable pub match_loop : ℕ → Bytes → ℕ → ℕ → Bytes → Option (Option ℕ)
match_loop zero key len offset hay = none
match_loop (suc fuel) key len offset hay = elim (strstr key hay) [
  | none ↦ some none
  | some i ↦
      let next = match_loop fuel key len (offset + i + length key) (drop (i + length key) hay) in
      if leb len (offset + i + length key)
      then some none
      else if first_byte (drop (i + length key) hay) == equals_sign
      then some (some (offset + i))
      else next
]

-- How far the loop of `ngx_http_match_key` goes in at most `n` rounds; the bytes are those behind
-- the current one.
unfoldable pub scan_end : ℕ → Bytes → ℕ
scan_end zero behind = 0
scan_end (suc n) behind =
    let more = scan_end n (drop 1 behind) in if first_byte behind == ampersand then 1 else suc more

-- `ngx_http_match_key`: the offsets of start and end.
unfoldable pub match_key : ℕ → Bytes → Str → Option (Option (ℕ × ℕ))
match_key fuel key args = elim (match_loop fuel key args.len 0 args.bytes) [
  | none ↦ none
  | some found ↦ elim found [
    | none ↦ some none
    | some start ↦
        let end = start + length key in
        if args.len == end
        then some none
        else some (some (start, end + scan_end (args.len - end) (drop (end + 1) args.bytes)))
  ]
]

-- `ngx_http_get_param_val`, with a pool that has room.
unfoldable pub get_param_val : ℕ → Str → Bytes → Option (Option Bytes)
get_param_val fuel args key = elim (match_key fuel key args) [
  | none ↦ none
  | some found ↦ elim found [
    | none ↦ some none
    | some (start, end) ↦
        let val = start + (length key + 1) in some (some (take (end - val) (drop val args.bytes)))
  ]
]

-- A string in memory of its own, which ends with a zero byte.
abbrev pub own_str : Bytes → Str
own_str bytes = record { bytes = bytes; len = length bytes }

abbrev pub str_bytes : Str → Bytes
str_bytes s = take s.len s.bytes

-- `ngx_http_append_arg`, with the result of `ngx_palloc`: the new arguments.
unfoldable pub append_arg : Bool → Str → Str → Str → Option Str
append_arg false key val args = none
append_arg true key val args =
    some
      (own_str (str_bytes args ++ (ampersand ∷ (str_bytes key ++ (equals_sign ∷ str_bytes val)))))

-- `__remove_first_param`
unfoldable pub remove_first_param : Str → ℕ → Str
remove_first_param args end =
    let size = args.len - (end + 1) in
    if ltb size 1 then args else own_str (take size (drop (end + 1) args.bytes))

-- `__remove_last_param`
unfoldable pub remove_last_param : Str → ℕ → Str
remove_last_param args start =
    let size = start - 1 in if ltb size 1 then args else own_str (take size args.bytes)

-- `__remove_mid_param`
unfoldable pub remove_mid_param : Str → ℕ → ℕ → Str
remove_mid_param args start end =
    own_str (take (start - 1) args.bytes ++ take (args.len - end) (drop end args.bytes))

-- `ngx_http_remove_param`
unfoldable pub remove_param : ℕ → Str → Bytes → Option Str
remove_param fuel args key = elim (match_key fuel key args) [
  | none ↦ none
  | some found ↦ elim found [
    | none ↦ some args
    | some (start, end) ↦
        if start == 0 && args.len == end
        then some (own_str [])
        else if start == 0
        then some (remove_first_param args end)
        else if args.len == end
        then some (remove_last_param args start)
        else some (remove_mid_param args start end)
  ]
]
