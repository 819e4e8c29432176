-- ===== src/HustdbHa/Reconfigured/Servers.antt =====
-- The content that hustdb_ha_conf_setter.c writes in place of that of the configuration file.
use hustngx.Prelude.{
  ℕ, zero, suc, ◌+◌, ◌-◌, ◌≡◌, ◌≢◌, refl, sym, ap, ◌∙◌, Bool, true, false, ◌||◌, List, [], ◌∷◌,
  ◌++◌, leb, ◌==◌, if◌then◌else◌, take, drop, arith, inl, inr, Bool-cases,
}
use hustngx.Nginx.{Bytes}
use hustngx.Params.Pairs.{append_assoc}
use hustngx.Params.Changes.{append_nil}
use hustngx.HustdbHa.Conf.{
  newline, line_size, push_byte, lines_from, selector_tag, server_key, contains, find_tag,
  match_upstream_begin, servers, match_upstream_end, concat, server_lines, new_conf,
}

concat-push_byte : (c : ℕ) (lines : List Bytes) → concat (push_byte c lines) ≡ c ∷ concat lines
unfolding push_byte
concat-push_byte c [] = refl
concat-push_byte c (line ∷ lines) = refl

-- The lines make up the file.
concat-lines_from : (room : ℕ) (content : Bytes) → concat (lines_from room content) ≡ content
unfolding lines_from
concat-lines_from room [] = refl
concat-lines_from room (c ∷ rest) =
    branches (c == newline || leb room 1) (concat-lines_from line_size rest)
      (concat-lines_from (room - 1) rest)
  where
    branches :
        (b : Bool)
        → concat (lines_from line_size rest) ≡ rest
        → concat (lines_from (room - 1) rest) ≡ rest
        → concat (
            if b
            then (c ∷ []) ∷ lines_from line_size rest
            else push_byte c (lines_from (room - 1) rest))
          ≡ c ∷ rest
    branches true e f = ap (◌∷◌ c) e
    branches false e f = concat-push_byte c (lines_from (room - 1) rest) ∙ ap (◌∷◌ c) f

-- Every line names a server.
abbrev pub AreServers : List Bytes → Type 0
AreServers [] = Unit
AreServers (line ∷ lines) = (contains server_key line ≡ true) × AreServers lines

servers-AreServers : (lines : List Bytes) → AreServers (take (servers lines) lines)
unfolding servers
servers-AreServers [] = tt
servers-AreServers (line ∷ lines) = named (contains server_key line) refl (servers-AreServers lines)
  where
    named :
        (b : Bool)
        → contains server_key line ≡ b
        → AreServers (take (servers lines) lines)
        → AreServers (take (if b then suc (servers lines) else 0) (line ∷ lines))
    named true e s = (e, s)
    named false e s = tt

concat-split :
    (n : ℕ) (lines : List Bytes) → concat lines ≡ concat (take n lines) ++ concat (drop n lines)
concat-split zero lines = refl
concat-split (suc n) [] = refl
concat-split (suc n) (line ∷ lines) =
    ap (λ t. line ++ t) (concat-split n lines)
    ∙ sym (append_assoc line (concat (take n lines)) (concat (drop n lines)))

drop_none : (n : ℕ) → drop {A = Bytes} n [] ≡ []
drop_none zero = refl
drop_none (suc n) = refl

drop-plus : (n m : ℕ) (lines : List Bytes) → drop (n + m) lines ≡ drop m (drop n lines)
drop-plus zero m lines = ap (λ k. drop k lines) (omega arith)
drop-plus (suc n) m [] = drop_none (suc n + m) ∙ sym (drop_none m)
drop-plus (suc n) m (line ∷ lines) =
    let next : suc n + m ≡ suc (n + m) = omega arith in
    ap (λ k. drop k (line ∷ lines)) next ∙ drop-plus n m lines

take_one_more :
    (n : ℕ) (lines : List Bytes) (line : Bytes) (rest : List Bytes)
    → drop n lines ≡ line ∷ rest
    → concat (take (suc n) lines) ≡ concat (take n lines) ++ line
take_one_more zero [] line rest e = absurd (cc e)
take_one_more zero (x ∷ lines) line rest e = let first : x ≡ line = cc e in append_nil x ∙ first
take_one_more (suc n) [] line rest e = absurd (cc e)
take_one_more (suc n) (x ∷ lines) line rest e =
    ap (λ t. x ++ t) (take_one_more n lines line rest e)
    ∙ sym (append_assoc x (concat (take n lines)) line)

-- The line that is found has the tag.
find_tag-line :
    (i n : ℕ) (lines : List Bytes)
    → find_tag i lines ≡ n
    → n ≢ 0
    → (k : ℕ) × (line : Bytes) × (rest : List Bytes) × (n ≡ i + k)
      × (drop k lines ≡ line ∷ rest)
      × (contains selector_tag line ≡ true)
unfolding find_tag
find_tag-line i n [] e d = absurd (d (sym e))
find_tag-line i n (line ∷ lines) e d = elim (Bool-cases (contains selector_tag line)) [
  | inl f ↦ (0, line, lines, omega (arith, (rw f at e)), refl, f)
  | inr f ↦
      let (k, found, rest, at_k, dropped, tagged) = find_tag-line (i + 1) n lines (rw f at e) d in
      (suc k, found, rest, omega (arith, at_k), dropped, tagged)
]

-- A configuration whose servers, which follow the line of the selector, have been replaced.
pub record Replaced (content new : Bytes) (backends : List Bytes) : Type 0 where
  pub before : Bytes
  pub tag : Bytes
  pub old : List Bytes
  pub after : Bytes
  pub content_eq : content ≡ before ++ (tag ++ (concat old ++ after))
  pub new_eq : new ≡ before ++ (tag ++ (server_lines backends ++ after))
  pub tagged : contains selector_tag tag ≡ true
  pub were_servers : AreServers old

pub new_conf-Replaced :
    (content : Bytes) (backends : List Bytes) (tag : ℕ)
    → match_upstream_begin (lines_from line_size content) ≡ tag
    → tag ≢ 0
    → Replaced content
        (new_conf
          (lines_from line_size content)
          backends
          (tag + 1)
          (match_upstream_end (lines_from line_size content) (tag + 1)))
        backends
unfolding new_conf match_upstream_end match_upstream_begin
new_conf-Replaced content backends tag e d =
    let lines = lines_from line_size content in
    let (k, line, rest, at_k, dropped, tagged) = find_tag-line 0 tag lines e d in
    let same_k : tag ≡ k = omega (arith, at_k) in
    let at_tag : drop tag lines ≡ line ∷ rest = ap (λ n. drop n lines) same_k ∙ dropped in
    let is_rest : drop (tag + 1) lines ≡ rest = drop-plus tag 1 lines ∙ ap (drop 1) at_tag in
    let n = servers (drop (tag + 1) lines) in
    let old = take n (drop (tag + 1) lines) in
    let after = concat (drop (tag + 1 + n) lines) in
    let begin : tag + 1 ≡ suc tag = omega arith in
    record {
      before = concat (take tag lines);
      tag = line;
      old = old;
      after = after;
      content_eq =
          sym (concat-lines_from line_size content)
          ∙ concat-split tag lines
          ∙ ap (λ t. concat (take tag lines) ++ concat t) at_tag
          ∙ ap (λ t. concat (take tag lines) ++ (line ++ t))
              (ap concat (sym is_rest)
                ∙ concat-split n (drop (tag + 1) lines)
                ∙ ap (λ t. concat old ++ concat t) (sym (drop-plus (tag + 1) n lines)));
      new_eq =
          ap (λ t. t ++ (server_lines backends ++ after))
            (ap (λ m. concat (take m lines)) begin ∙ take_one_more tag lines line rest at_tag)
          ∙ append_assoc (concat (take tag lines)) line (server_lines backends ++ after);
      tagged = tagged;
      were_servers = servers-AreServers (drop (tag + 1) lines);
    }
