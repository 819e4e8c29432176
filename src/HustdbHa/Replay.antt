-- ===== src/HustdbHa/Replay.antt =====
-- The arguments of a replay (`__format_binlog_args` of hustdb_ha_write_binlog.c) and what a handler
-- reads of them (`ngx_http_get_param_val`).
use hustngx.Prelude.{
  Bool, true, false, if◌then◌else◌, ℕ, ◌≡◌, ◌<◌, refl, ap, ◌∙◌, Option, none, some, [], ◌∷◌, ◌++◌,
  length, mem, arith,
}
use hustngx.Nginx.{Bytes}
use hustngx.CDict.Table.{same}
use hustngx.Params.{Str, get_param_val, equals_sign, ampersand}
use hustngx.Params.Pairs.{Pairs, print, value_of, IsPlain, ArePlain, IsKey, append_assoc}
use hustngx.Params.Walk.{has_suffix}
use hustngx.Params.Values.{get_param_val-print}
use hustngx.Params.Changes.{append_nil}
use hustngx.HustdbHa.Write.{Args, decimal, format_binlog_args}

-- "host", "method", "tb" and "key"
abbrev pub host_name : Bytes
host_name = 104 ∷ 111 ∷ 115 ∷ 116 ∷ []

abbrev pub method_name : Bytes
method_name = 109 ∷ 101 ∷ 116 ∷ 104 ∷ 111 ∷ 100 ∷ []

abbrev pub tb_name : Bytes
tb_name = 116 ∷ 98 ∷ []

abbrev pub key_name : Bytes
key_name = 107 ∷ 101 ∷ 121 ∷ []

-- A string without an end of its own: what stands behind it is in reach of a search.
abbrev pub in_memory : Bytes → Bytes → Str
in_memory behind bytes = record { bytes = bytes ++ behind; len = length bytes }

-- The arguments with the table and the key where they are there.
abbrev replay_args : Bytes → Bytes → Option Bytes → Option Bytes → Bytes
replay_args host method_str tb key =
    host_name
    ++ (equals_sign
        ∷ (host
            ++ (ampersand
                ∷ (method_name
                    ++ (equals_sign
                        ∷ (method_str
                            ++ (elim tb [
                              | none ↦ []
                              | some t ↦ ampersand ∷ (tb_name ++ (equals_sign ∷ t))
                            ]
                                ++ elim key [
                                  | none ↦ []
                                  | some k ↦ ampersand ∷ (key_name ++ (equals_sign ∷ k))
                                ])))))))

-- A value without the two signs.
pub record IsFlat (value : Bytes) : Type 0 where
  pub equals : mem equals_sign value ≡ false
  pub ampersand : mem ampersand value ≡ false

abbrev pub IsFlat? : Option Bytes → Type 0
IsFlat? none = Unit
IsFlat? (some value) = IsFlat value

abbrev optional : Bytes → Option Bytes → Pairs
optional name none = []
optional name (some value) = (name, value) ∷ []

abbrev replay_pairs : Bytes → Bytes → Option Bytes → Option Bytes → Pairs
replay_pairs host method_str tb key =
    (host_name, host) ∷ (method_name, method_str) ∷ (optional tb_name tb ++ optional key_name key)

replay_args-print :
    (host method_str : Bytes) (tb key : Option Bytes)
    → replay_args host method_str tb key ≡ print (replay_pairs host method_str tb key)
replay_args-print host method_str none none =
    ap
      (λ t. host_name ++ (equals_sign ∷ (host ++ (ampersand ∷ (method_name ++ (equals_sign ∷ t))))))
      (append_nil method_str)
replay_args-print host method_str none (some k) = refl
replay_args-print host method_str (some t) none =
    ap
      (λ r.
        host_name
        ++ (equals_sign
            ∷ (host ++ (ampersand ∷ (method_name ++ (equals_sign ∷ (method_str ++ r)))))))
      (append_nil (ampersand ∷ (tb_name ++ (equals_sign ∷ t))))
replay_args-print host method_str (some t) (some k) =
    ap
      (λ r.
        host_name
        ++ (equals_sign
            ∷ (host ++ (ampersand ∷ (method_name ++ (equals_sign ∷ (method_str ++ r)))))))
      (append_assoc (ampersand ∷ (tb_name ++ (equals_sign ∷ []))) t
        (ampersand ∷ (key_name ++ (equals_sign ∷ k))))

-- No name of a replay ends with the key and is longer.
record Apart (wanted : Bytes) : Type 0 where
  host : same wanted host_name ≡ false → has_suffix wanted host_name ≡ false
  method : same wanted method_name ≡ false → has_suffix wanted method_name ≡ false
  tb : same wanted tb_name ≡ false → has_suffix wanted tb_name ≡ false
  key : same wanted key_name ≡ false → has_suffix wanted key_name ≡ false

plain :
    (key name value : Bytes)
    → mem equals_sign name ≡ false
    → (same key name ≡ false → has_suffix key name ≡ false)
    → IsFlat value
    → IsPlain key name value
plain key name value n s f = record {
  name_equals = n;
  value_equals = f.equals;
  value_ampersand = f.ampersand;
  no_suffix = s;
}

replay_pairs-ArePlain :
    (wanted host method_str : Bytes) (tb key : Option Bytes)
    → Apart wanted
    → IsFlat host
    → IsFlat method_str
    → IsFlat? tb
    → IsFlat? key
    → ArePlain wanted (replay_pairs host method_str tb key)
replay_pairs-ArePlain wanted host method_str none none a h m t k = (
  plain wanted host_name host refl a.host h,
  (plain wanted method_name method_str refl a.method m, tt),
)
replay_pairs-ArePlain wanted host method_str none (some key) a h m t k = (
  plain wanted host_name host refl a.host h,
  (
    plain wanted method_name method_str refl a.method m,
    (plain wanted key_name key refl a.key k, tt),
  ),
)
replay_pairs-ArePlain wanted host method_str (some tb) none a h m t k = (
  plain wanted host_name host refl a.host h,
  (plain wanted method_name method_str refl a.method m, (plain wanted tb_name tb refl a.tb t, tt)),
)
replay_pairs-ArePlain wanted host method_str (some tb) (some key) a h m t k = (
  plain wanted host_name host refl a.host h,
  (
    plain wanted method_name method_str refl a.method m,
    (plain wanted tb_name tb refl a.tb t, (plain wanted key_name key refl a.key k, tt)),
  ),
)

module _ (fuel : ℕ) (behind host method_str : Bytes) (tb key : Option Bytes) (h : IsFlat host)
    (m : IsFlat method_str) (t : IsFlat? tb) (k : IsFlat? key)
    (enough : length (replay_args host method_str tb key ++ behind) < fuel) where
  reads :
      (x : ℕ) (wanted : Bytes)
      → IsKey (x ∷ wanted)
      → Apart (x ∷ wanted)
      → get_param_val fuel (in_memory behind (replay_args host method_str tb key)) (x ∷ wanted)
        ≡ some (value_of (x ∷ wanted) (replay_pairs host method_str tb key))
  reads x wanted i a =
      let ps = replay_pairs host method_str tb key in
      let whole = replay_args-print host method_str tb key in
      ap (λ b. get_param_val fuel (in_memory behind b) (x ∷ wanted)) whole
      ∙ get_param_val-print fuel x wanted ps behind i
          (replay_pairs-ArePlain (x ∷ wanted) host method_str tb key a h m t k)
          (omega (arith, enough, ap (λ b. length (b ++ behind)) whole))

  value_of-tb : value_of tb_name (replay_pairs host method_str tb key) ≡ tb
  unfolding same
  value_of-tb = by_cases tb key
    where
      by_cases : (a b : Option Bytes) → value_of tb_name (replay_pairs host method_str a b) ≡ a
      by_cases none none = refl
      by_cases none (some y) = refl
      by_cases (some x) b = refl

  value_of-key : value_of key_name (replay_pairs host method_str tb key) ≡ key
  unfolding same
  value_of-key = by_cases tb key
    where
      by_cases : (a b : Option Bytes) → value_of key_name (replay_pairs host method_str a b) ≡ b
      by_cases none none = refl
      by_cases none (some y) = refl
      by_cases (some x) none = refl
      by_cases (some x) (some y) = refl

  get_param_val-replay_args :
      (get_param_val fuel (in_memory behind (replay_args host method_str tb key)) host_name
        ≡ some (some host))
      × (get_param_val fuel (in_memory behind (replay_args host method_str tb key)) method_name
          ≡ some (some method_str))
      × (get_param_val fuel (in_memory behind (replay_args host method_str tb key)) tb_name
          ≡ some tb)
      × (get_param_val fuel (in_memory behind (replay_args host method_str tb key)) key_name
          ≡ some key)
  unfolding same
  get_param_val-replay_args = (
    reads 104 (111 ∷ 115 ∷ 116 ∷ []) (record { key_equals = refl; key_ampersand = refl })
        (record { host = λ d. d; method = λ d. refl; tb = λ d. refl; key = λ d. refl }),
    reads 109 (101 ∷ 116 ∷ 104 ∷ 111 ∷ 100 ∷ [])
        (record { key_equals = refl; key_ampersand = refl })
        (record { host = λ d. refl; method = λ d. d; tb = λ d. refl; key = λ d. refl }),
    reads 116 (98 ∷ []) (record { key_equals = refl; key_ampersand = refl })
          (record { host = λ d. refl; method = λ d. refl; tb = λ d. d; key = λ d. refl })
        ∙ ap some value_of-tb,
    reads 107 (101 ∷ 121 ∷ []) (record { key_equals = refl; key_ampersand = refl })
          (record { host = λ d. refl; method = λ d. refl; tb = λ d. refl; key = λ d. d })
        ∙ ap some value_of-key,
  )

decimal-IsFlat : (n : ℕ) → n < 256 → IsFlat (decimal n)
unfolding decimal
decimal-IsFlat n p = record { equals = ground arith; ampersand = ground arith }

abbrev pub tb_of : Args → Option Bytes
tb_of args = if args.has_tb then some args.tb else none

abbrev pub key_of : Args → Option Bytes
key_of args = if args.key_in_body then none else some args.key

format_binlog_args-replay_args :
    (method : ℕ) (args : Args) (host : Bytes)
    → format_binlog_args method args host
      ≡ replay_args host (decimal method) (tb_of args) (key_of args)
unfolding format_binlog_args
format_binlog_args-replay_args method args host = by_cases args.has_tb args.key_in_body
  where
    by_cases :
        (b c : Bool)
        → host_name
            ++ (equals_sign ∷ [])
            ++ host
            ++ (ampersand ∷ (method_name ++ equals_sign ∷ []))
            ++ decimal method
            ++ (if b then (38 ∷ 116 ∷ 98 ∷ 61 ∷ []) ++ args.tb else [])
            ++ (if c then [] else (38 ∷ 107 ∷ 101 ∷ 121 ∷ 61 ∷ []) ++ args.key)
          ≡ replay_args host
              (decimal method)
              (if b then some args.tb else none)
              (if c then none else some args.key)
    by_cases true true = simp (append_assoc)
    by_cases true false = simp (append_assoc)
    by_cases false true = simp (append_assoc)
    by_cases false false = simp (append_assoc)

module _ (fuel : ℕ) (behind : Bytes) (method : ℕ) (args : Args) (host : Bytes) (byte : method < 256)
    (h : IsFlat host) (t : IsFlat? (tb_of args)) (k : IsFlat? (key_of args))
    (enough : length (format_binlog_args method args host ++ behind) < fuel) where
  -- From the arguments of a replay, whatever stands behind them in memory, for a method below 256
  -- and with a host, a table and a key that have neither "=" nor "&", ngx_http_get_param_val reads
  -- back the host, the digits of the method, the table if the request has one, the key if it is
  -- not in the body, and nothing for the two otherwise; fuel above the number of bytes is enough.
  pub get_param_val-format_binlog_args :
      (get_param_val fuel (in_memory behind (format_binlog_args method args host)) host_name
        ≡ some (some host))
      × (get_param_val fuel (in_memory behind (format_binlog_args method args host)) method_name
          ≡ some (some (decimal method)))
      × (get_param_val fuel (in_memory behind (format_binlog_args method args host)) tb_name
          ≡ some (tb_of args))
      × (get_param_val fuel (in_memory behind (format_binlog_args method args host)) key_name
          ≡ some (key_of args))
  get_param_val-format_binlog_args =
      let whole = format_binlog_args-replay_args method args host in
      rw whole (
        get_param_val-replay_args fuel behind host (decimal method) (tb_of args) (key_of args) h
          (decimal-IsFlat method byte) t k
          (omega (arith, enough, ap (λ b. length (b ++ behind)) whole)))
