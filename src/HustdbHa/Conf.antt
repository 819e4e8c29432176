-- ===== src/HustdbHa/Conf.antt =====
-- hustdb_ha_conf_setter.c: the servers of the upstream in nginx's configuration file are replaced.
use hustngx.Prelude.{
  ℕ, suc, ◌+◌, ◌-◌, ◌%◌, ◌^◌, Bool, true, false, ◌||◌, Option, none, some, List, [], ◌∷◌, ◌++◌, leb,
  ltb, ◌==◌, if◌then◌else◌, length, take, drop,
}
use hustngx.Nginx.{Bytes}
use hustngx.Params.{strstr}
use hustngx.HustdbHa.Files.{Files, save_to_file, rename}
use hustngx.HustdbHa.Setter.{tmp_ext, del_ext}

abbrev pub newline : ℕ
newline = 10

-- LINE_BUF - 1, which is what `fgets` reads at most.
abbrev pub line_size : ℕ
line_size = 4095

unfoldable pub push_byte : ℕ → List Bytes → List Bytes
push_byte c [] = (c ∷ []) ∷ []
push_byte c (line ∷ lines) = (c ∷ line) ∷ lines

-- The lines that `fgets` gives, with room for `room` more bytes in the first one.
unfoldable pub lines_from : ℕ → Bytes → List Bytes
lines_from room [] = []
lines_from room (c ∷ rest) =
    let ended = (c ∷ []) ∷ lines_from line_size rest in
    let more = push_byte c (lines_from (room - 1) rest) in
    if c == newline || leb room 1 then ended else more

-- "customized_selector"
abbrev pub selector_tag : Bytes
selector_tag =
    99 ∷ 117 ∷ 115 ∷ 116 ∷ 111 ∷ 109 ∷ 105 ∷ 122 ∷ 101 ∷ 100 ∷ 95 ∷ 115 ∷ 101 ∷ 108 ∷ 101 ∷ 99 ∷ 116
    ∷ 111 ∷ 114 ∷ []

-- "server"
abbrev pub server_key : Bytes
server_key = 115 ∷ 101 ∷ 114 ∷ 118 ∷ 101 ∷ 114 ∷ []

unfoldable pub contains : Bytes → Bytes → Bool
contains key line = elim (strstr key line) [ none ↦ false | some i ↦ true ]

-- The loop of `__match_upstream_begin`, from line `i` on.
unfoldable pub find_tag : ℕ → List Bytes → ℕ
find_tag i [] = 0
find_tag i (line ∷ lines) = if contains selector_tag line then i else find_tag (i + 1) lines

-- `__match_upstream_begin`
unfoldable pub match_upstream_begin : List Bytes → ℕ
match_upstream_begin lines = find_tag 0 lines

-- How many of the lines in front name servers.
unfoldable pub servers : List Bytes → ℕ
servers [] = 0
servers (line ∷ lines) =
    let more = servers lines in if contains server_key line then suc more else 0

-- `__match_upstream_end`
unfoldable pub match_upstream_end : List Bytes → ℕ → ℕ
match_upstream_end lines begin = begin + servers (drop begin lines)

abbrev pub concat : List Bytes → Bytes
concat [] = []
concat (line ∷ lines) = line ++ concat lines

-- "        server ", and ";" at the end of the line.
unfoldable pub server_line : Bytes → Bytes
server_line backend =
    (32 ∷ 32 ∷ 32 ∷ 32 ∷ 32 ∷ 32 ∷ 32 ∷ 32 ∷ [])
    ++ (server_key ++ (32 ∷ (backend ++ 59 ∷ newline ∷ [])))

unfoldable pub server_lines : List Bytes → Bytes
server_lines [] = []
server_lines (backend ∷ backends) = server_line backend ++ server_lines backends

-- What `__write_conf` writes.
unfoldable pub new_conf : List Bytes → List Bytes → ℕ → ℕ → Bytes
new_conf lines backends begin end =
    concat (take begin lines) ++ (server_lines backends ++ concat (drop end lines))

-- What the system answers: how much it writes, and which files it lets be renamed.
pub record ConfSystem : Type 0 where
  pub written : Option ℕ
  pub move_conf : Bool
  pub move_tmp : Bool

-- `hustdb_ha_overwrite_backends` from `__write_conf` on.
unfoldable pub replace_conf : ConfSystem → Bytes → Bytes → Bytes → Bytes → Files → Bool × Files
replace_conf s conf tmp del content files =
    let (saved, files') = save_to_file s.written content tmp files in
    let (moved, files'') = rename s.move_conf conf del files' in
    let (moved', files''') = rename s.move_tmp tmp conf files'' in
    if saved
    then if moved then if moved' then (true, files''') else (false, files''') else (false, files'')
    else (false, files')

-- `hustdb_ha_overwrite_backends`, of the configuration file `conf`.
unfoldable pub overwrite_backends : ConfSystem → Bytes → List Bytes → Files → Bool × Files
overwrite_backends s conf backends files = elim (files conf) [
  | none ↦ (false, files)
  | some content ↦
      let lines = lines_from line_size content in
      let tag = match_upstream_begin lines in
      let begin = tag + 1 in
      let end = match_upstream_end lines begin in
      if tag == 0
      then (false, files)
      else if leb end begin || ltb ((length lines + (2 ^ 64 - 2)) % 2 ^ 64) end
      then (false, files)
      else replace_conf s conf (conf ++ tmp_ext) (conf ++ del_ext)
          (new_conf lines backends begin end) files
]
