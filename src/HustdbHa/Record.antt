-- ===== src/HustdbHa/Record.antt =====
-- Records of the binlog, read back by the layout that hustdb_ha_write_binlog.c describes.
use hustngx.Prelude.{
  ℕ, ◌+◌, ◌%◌, ◌^◌, ◌≡◌, ◌<◌, refl, sym, ap, ◌∙◌, true, false, Option, none, some, List, [], ◌∷◌,
  ◌++◌, ltb, if◌then◌else◌, length, length-append, take, take-length, drop, arith,
}
use hustngx.Nginx.{Bytes}
use hustngx.Shm.Typed.{from_number, to_number}
use hustngx.Shm.Numbers.{to_number-from_number, length-from_number}
use hustngx.Params.Pairs.{append_assoc}
use hustngx.Params.Changes.{append_nil}
use hustngx.Params.Values.{drop-append, take-append}
use hustngx.HustdbHa.Head.{HeadItem, Head, number_item, heads, add_lengths, copy_items, encode_head}

infixl 5 ◌>>=◌
abbrev pub ◌>>=◌ {ℓ κ} : {A : Type ℓ} {B : Type κ} → Option A → (A → Option B) → Option B
none >>= f = none
some a >>= f = f a

-- A number of `w` bytes in front, and a text of `n` bytes.
unfoldable pub read_number : ℕ → Bytes → Option (ℕ × Bytes)
read_number w bytes = if ltb (length bytes) w then none else some (to_number w bytes, drop w bytes)

unfoldable pub read_text : ℕ → Bytes → Option (Bytes × Bytes)
read_text n bytes = if ltb (length bytes) n then none else some (take n bytes, drop n bytes)

-- A record: the length of its head, the head, and what follows it.
unfoldable pub read_head : Bytes → Option (ℕ × Head × Bytes)
read_head bytes = do
  (head_len, a) ← read_number 4 bytes
  (method, b) ← read_number 1 a
  (ver, c) ← read_number 4 b
  (key_len, d) ← read_number 4 c
  (key, e) ← read_text key_len d
  (key_crc, f) ← read_number 4 e
  (ttl, g) ← read_number 4 f
  (tb_len, h) ← read_number 4 g
  (tb, i) ← read_text tb_len h
  (tb_crc, j) ← read_number 4 i
  (score, k) ← read_number 8 j
  (opt, rest) ← read_number 1 k
  some (
    head_len,
    record {
      method = method;
      ver = ver;
      key = key;
      key_crc = key_crc;
      ttl = ttl;
      tb = tb;
      tb_crc = tb_crc;
      score = score;
      opt = opt;
    },
    rest,
  )

drop-exact : (n : ℕ) (xs ys : Bytes) → length xs ≡ n → drop n (xs ++ ys) ≡ ys
drop-exact n xs ys e =
    let sum : n ≡ length xs + 0 = omega (arith, e) in
    ap (λ m. drop m (xs ++ ys)) sum ∙ drop-append 0 xs ys

read_number-append :
    (w v : ℕ) (rest : Bytes)
    → v < 256 ^ w
    → read_number w (from_number w v ++ rest) ≡ some (v, rest)
unfolding read_number
read_number-append w v rest p =
    let long = length-from_number w v in
    let enough : ltb (length (from_number w v ++ rest)) w ≡ false =
      ground (arith, length-append (from_number w v) rest, long) in
    rw (enough, to_number-from_number w v rest p, drop-exact w (from_number w v) rest long) refl

read_text-append :
    (n : ℕ) (text rest : Bytes) → length text ≡ n → read_text n (text ++ rest) ≡ some (text, rest)
unfolding read_text
read_text-append n text rest e =
    let enough : ltb (length (text ++ rest)) n ≡ false =
      ground (arith, length-append text rest, e) in
    let taken : take n (text ++ rest) ≡ text =
      ap (λ m. take m (text ++ rest)) (sym e) ∙ take-append text rest in
    rw (enough, taken, drop-exact n text rest e) refl

-- What fits the fields.
pub record Fits (h : Head) : Type 0 where
  pub method : h.method < 2 ^ 8
  pub ver : h.ver < 2 ^ 32
  pub key_crc : h.key_crc < 2 ^ 32
  pub ttl : h.ttl < 2 ^ 32
  pub tb_crc : h.tb_crc < 2 ^ 32
  pub score : h.score < 2 ^ 64
  pub opt : h.opt < 2 ^ 8
  pub total : length h.key + length h.tb + 38 < 2 ^ 32

-- An item that has the length of its data.
copy_items-cons :
    (bytes : Bytes) (len : ℕ) (items : List HeadItem)
    → length bytes ≡ len
    → copy_items (record { bytes = some bytes; len = len } ∷ items) ≡ bytes ++ copy_items items
unfolding copy_items
copy_items-cons [] len items e =
    let nothing : ltb 0 len ≡ false = ground (arith, e) in rw nothing refl
copy_items-cons (x ∷ bytes) len items e =
    let something : ltb 0 len ≡ true = ground (arith, e) in
    rw (something, take-length len (x ∷ bytes) (omega (arith, e))) refl

copy_text :
    (bytes : Bytes) (len : ℕ) (items : List HeadItem) (body : Bytes)
    → length bytes ≡ len
    → copy_items (record { bytes = some bytes; len = len } ∷ items) ++ body
      ≡ bytes ++ (copy_items items ++ body)
copy_text bytes len items body e =
    ap (λ t. t ++ body) (copy_items-cons bytes len items e)
    ∙ append_assoc bytes (copy_items items) body

copy_number :
    (w v : ℕ) (items : List HeadItem) (body : Bytes)
    → copy_items (number_item w v ∷ items) ++ body ≡ from_number w v ++ (copy_items items ++ body)
copy_number w v items body = copy_text (from_number w v) w items body (length-from_number w v)

-- What stands in memory from the checksum of the table on, from the text of the table on, and so on.
abbrev from_tb_crc : Head → Bytes → Bytes
from_tb_crc h body =
    from_number 4 h.tb_crc ++ (from_number 8 h.score ++ (from_number 1 h.opt ++ body))

abbrev from_key_crc : Head → Bytes → Bytes
from_key_crc h body =
    from_number 4 h.key_crc
    ++ (from_number 4 h.ttl ++ (from_number 4 (length h.tb) ++ (h.tb ++ from_tb_crc h body)))

abbrev laid_out : ℕ → Head → Bytes → Bytes
laid_out head_len h body =
    from_number 4 head_len
    ++ (from_number 1 h.method
        ++ (from_number 4 h.ver
            ++ (from_number 4 (length h.key) ++ (h.key ++ from_key_crc h body))))

no_items : copy_items [] ≡ []
unfolding copy_items
no_items = refl

add_lengths-heads :
    (h : Head) → Fits h → add_lengths 0 (heads 0 h) ≡ length h.key + length h.tb + 38
unfolding add_lengths heads
add_lengths-heads h f = omega (arith, f.total)

copies :
    (head_len : ℕ) (h : Head) (body : Bytes)
    → Fits h
    → copy_items (heads head_len h) ++ body ≡ laid_out head_len h body
unfolding heads
copies head_len h body f =
    let key_len : length h.key % 2 ^ 32 ≡ length h.key = omega (arith, f.total) in
    let tb_len : length h.tb % 2 ^ 32 ≡ length h.tb = omega (arith, f.total) in
    rw (key_len, tb_len)
      (copy_number 4 head_len _ body
        ∙ ap (λ t. from_number 4 head_len ++ t)
            (copy_number 1 h.method _ body
              ∙ ap (λ t. from_number 1 h.method ++ t)
                  (copy_number 4 h.ver _ body
                    ∙ ap (λ t. from_number 4 h.ver ++ t)
                        (copy_number 4 (length h.key) _ body
                          ∙ ap (λ t. from_number 4 (length h.key) ++ t)
                              (copy_text h.key (length h.key) _ body refl
                                ∙ ap (λ t. h.key ++ t)
                                    (copy_number 4 h.key_crc _ body
                                      ∙ ap (λ t. from_number 4 h.key_crc ++ t)
                                          (copy_number 4 h.ttl _ body
                                            ∙ ap (λ t. from_number 4 h.ttl ++ t)
                                                (copy_number 4 (length h.tb) _ body
                                                  ∙ ap (λ t. from_number 4 (length h.tb) ++ t)
                                                      (copy_text h.tb (length h.tb) _ body refl
                                                        ∙ ap (λ t. h.tb ++ t)
                                                            (copy_number 4 h.tb_crc _ body
                                                            ∙ ap (λ t. from_number 4 h.tb_crc ++ t)
                                                            (copy_number 8 h.score _ body
                                                            ∙ ap (λ t. from_number 8 h.score ++ t)
                                                            (copy_number 1 h.opt [] body
                                                            ∙ ap
                                                            (λ t.
                                                            from_number 1 h.opt ++ (t ++ body))
                                                            nothing_left))))))))))))
  where
    nothing_left : copy_items [] ≡ []
    nothing_left = no_items

reads :
    (head_len : ℕ) (h : Head) (body : Bytes)
    → Fits h
    → head_len < 2 ^ 32
    → read_head (laid_out head_len h body) ≡ some (head_len, h, body)
unfolding read_head
reads head_len h body f p =
    rw
      (
        read_number-append 4 head_len _ p,
        read_number-append 1 h.method _ f.method,
        read_number-append 4 h.ver _ f.ver,
        read_number-append 4 (length h.key) _ (omega (arith, f.total)),
        read_text-append (length h.key) h.key _ refl,
        read_number-append 4 h.key_crc _ f.key_crc,
        read_number-append 4 h.ttl _ f.ttl,
        read_number-append 4 (length h.tb) _ (omega (arith, f.total)),
        read_text-append (length h.tb) h.tb _ refl,
        read_number-append 4 h.tb_crc _ f.tb_crc,
        read_number-append 8 h.score _ f.score,
        read_number-append 1 h.opt _ f.opt,
      )
      refl

length-number-append : (w v : ℕ) (rest : Bytes) → length (from_number w v ++ rest) ≡ w + length rest
length-number-append w v rest =
    omega (arith, length-append (from_number w v) rest, length-from_number w v)

length-laid_out :
    (head_len : ℕ) (h : Head) → length (laid_out head_len h []) ≡ length h.key + length h.tb + 38
length-laid_out head_len h =
    let tail = from_number 4 h.ttl ++ (from_number 4 (length h.tb) ++ (h.tb ++ from_tb_crc h [])) in
    omega (
      arith,
      length-number-append 4 head_len _,
      length-number-append 1 h.method _,
      length-number-append 4 h.ver _,
      length-number-append 4 (length h.key) (h.key ++ from_key_crc h []),
      length-append h.key (from_key_crc h []),
      length-number-append 4 h.key_crc tail,
      length-number-append 4 h.ttl (from_number 4 (length h.tb) ++ (h.tb ++ from_tb_crc h [])),
      length-number-append 4 (length h.tb) (h.tb ++ from_tb_crc h []),
      length-append h.tb (from_tb_crc h []),
      length-number-append 4 h.tb_crc (from_number 8 h.score ++ (from_number 1 h.opt ++ [])),
      length-number-append 8 h.score (from_number 1 h.opt ++ []),
      length-number-append 1 h.opt [],
    )

-- If memory is there, a head whose numbers fit their fields and whose length fits 32 bits is
-- encoded in 38 bytes and those of the key and the table, and the layout that the source describes
-- reads back from it, with any body behind it, that length, all fields and the body.
pub read_head-encode_head :
    (h : Head) (body : Bytes)
    → Fits h
    → (head : Bytes) × (encode_head true h ≡ some head)
      × (length head ≡ length h.key + length h.tb + 38)
      × (read_head (head ++ body) ≡ some (length head, h, body))
unfolding encode_head
read_head-encode_head h body f =
    let total = length h.key + length h.tb + 38 in
    let lengths = add_lengths-heads h f in
    let head = copy_items (heads total h) in
    let alone = sym (append_nil head) ∙ copies total h [] f in
    let long : length head ≡ total = ap length alone ∙ length-laid_out total h in
    (
      head,
      rw lengths refl,
      long,
      ap read_head (copies total h body f)
          ∙ reads total h body f f.total
          ∙ ap (λ n. some (n, h, body)) (sym long),
    )
