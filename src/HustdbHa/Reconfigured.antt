-- ===== src/HustdbHa/Reconfigured.antt =====
-- The configuration file after hustdb_ha_conf_setter.c has replaced the servers in it.
pub mod Servers
use hustngx.Prelude.{
  ℕ, zero, suc, ◌+◌, ◌-◌, ◌%◌, ◌^◌, ◌≡◌, ◌≢◌, refl, sym, ap, ◌∙◌, ◌⊎◌, Bool, true, false, ◌||◌,
  Option, none, some, List, [], ◌∷◌, ◌++◌, leb, ltb, ◌==◌, if◌then◌else◌, length, take, drop, arith,
  inl, inr, Bool-cases, Option-cases,
}
use hustngx.Nginx.{Bytes}
use hustngx.Params.Pairs.{append_assoc}
use hustngx.Params.Changes.{append_nil}
use hustngx.HustdbHa.Files.{Files, put, put_self, put_other, save_to_file, saves, rename_cases}
use hustngx.HustdbHa.Setter.{tmp_ext, del_ext, init_table_path}
use hustngx.HustdbHa.Overwrite.{AreApart, init_table_path-AreApart}
use hustngx.HustdbHa.Conf.{
  newline, line_size, push_byte, lines_from, selector_tag, server_key, contains, find_tag,
  match_upstream_begin, servers, match_upstream_end, concat, server_lines, new_conf, ConfSystem,
  replace_conf, overwrite_backends,
}
use hustngx.HustdbHa.Reconfigured.Servers.{Replaced, new_conf-Replaced}

-- What becomes of the configuration file.
pub record Reconfigures (written : Option ℕ) (conf : Bytes) (backends : List Bytes) (files : Files)
    (result : Bool) (files' : Files) : Type 0 where
  pub replaced :
      result ≡ true
      → (content : Bytes) × (new : Bytes) × (n : ℕ) × (files conf ≡ some content)
        × (written ≡ some n)
        × Replaced content new backends
        × (files' conf ≡ some (take n new))
        × (files' (conf ++ del_ext) ≡ some content)
  pub failed :
      result ≡ false
      → (files' conf ≡ files conf)
        ⊎ ((files' conf ≡ none) × (files' (conf ++ del_ext) ≡ files conf) × (files conf ≢ none))
  pub others :
      (p : Bytes) → p ≢ conf → p ≢ conf ++ tmp_ext → p ≢ conf ++ del_ext → files' p ≡ files p

refused :
    (written : Option ℕ) (conf : Bytes) (backends : List Bytes) (files files' : Files)
    → files' conf ≡ files conf
    → ((p : Bytes) → p ≢ conf ++ tmp_ext → files' p ≡ files p)
    → Reconfigures written conf backends files false files'
refused written conf backends files files' e o = record {
  replaced = λ d. absurd (cc d);
  failed = λ d. inl e;
  others = λ p _ t _. o p t;
}

replace_conf-Reconfigures :
    (s : ConfSystem) (conf : Bytes) (content new : Bytes) (backends : List Bytes) (files : Files)
    → files conf ≡ some content
    → Replaced content new backends
    → Reconfigures s.written conf backends files
        (replace_conf s conf (conf ++ tmp_ext) (conf ++ del_ext) new files).0
        (replace_conf s conf (conf ++ tmp_ext) (conf ++ del_ext) new files).1
unfolding replace_conf init_table_path
replace_conf-Reconfigures s conf content new backends files c r = elim (Option-cases s.written) [
  | inl e ↦
      let not_saved : save_to_file s.written new tmp files ≡ (false, files) =
        unfold save_to_file in rw e refl in
      rw (replace_conf, not_saved) (refused s.written conf backends files files refl (λ p _. refl))
  | inr (n, e) ↦
      let is_saved = saves s.written n new tmp files e in
      let kept : saved n conf ≡ files conf =
        put_other tmp conf (some (take n new)) files (λ g. a.table_tmp (sym g)) in
      elim (rename_cases s.move_conf conf del (saved n)) [
        | inr f ↦
            rw (replace_conf, is_saved, f)
              (refused s.written conf backends files (saved n) kept
                (λ p t. put_other tmp p (some (take n new)) files (λ h. t (sym h))))
        | inl (x, f, g) ↦
            let is_content : some x ≡ some content = sym f ∙ kept ∙ c in
            let away = put conf none (put del (some x) (saved n)) in
            let in_del : away del ≡ some content =
              put_other conf del none (put del (some x) (saved n)) a.table_del
              ∙ put_self del (some x) (saved n)
              ∙ is_content in
            let in_tmp : away tmp ≡ some (take n new) =
              put_other conf tmp none (put del (some x) (saved n)) a.table_tmp
              ∙ put_other del tmp (some x) (saved n) (λ h. a.tmp_del (sym h))
              ∙ put_self tmp (some (take n new)) files in
            let elsewhere : (p : Bytes) → p ≢ conf → p ≢ tmp → p ≢ del → away p ≡ files p =
              λ p t m d.
                put_other conf p none (put del (some x) (saved n)) (λ h. t (sym h))
                ∙ put_other del p (some x) (saved n) (λ h. d (sym h))
                ∙ put_other tmp p (some (take n new)) files (λ h. m (sym h)) in
            elim (rename_cases s.move_tmp tmp conf away) [
              | inr h ↦
                  rw (replace_conf, is_saved, g, h)
                    (record {
                      replaced = λ d. absurd (cc d);
                      failed = λ d. inr (
                        put_self conf none (put del (some x) (saved n)),
                        in_del ∙ sym c,
                        λ none_there. absurd (cc (sym c ∙ none_there)),
                      );
                      others = elsewhere;
                    })
              | inl (y, h, k) ↦
                  let is_new : some y ≡ some (take n new) = sym h ∙ in_tmp in
                  rw (replace_conf, is_saved, g, k)
                    (record {
                      replaced = λ d. (
                        content,
                        new,
                        n,
                        c,
                        e,
                        r,
                        put_other tmp conf none (put conf (some y) away) (λ h. a.table_tmp (sym h))
                            ∙ put_self conf (some y) away
                            ∙ is_new,
                        put_other tmp del none (put conf (some y) away) a.tmp_del
                            ∙ put_other conf del (some y) away a.table_del
                            ∙ in_del,
                      );
                      failed = λ d. absurd (cc d);
                      others = λ p t m d.
                          put_other tmp p none (put conf (some y) away) (λ h. m (sym h))
                          ∙ put_other conf p (some y) away (λ h. t (sym h))
                          ∙ elsewhere p t m d;
                    })
            ]
      ]
]
  where
    tmp : Bytes
    tmp = conf ++ tmp_ext

    del : Bytes
    del = conf ++ del_ext

    a : AreApart (init_table_path conf)
    a = init_table_path-AreApart conf

    saved : ℕ → Files
    saved n = put tmp (some (take n new)) files

pub overwrite_backends-Reconfigures :
    (s : ConfSystem) (conf : Bytes) (backends : List Bytes) (files : Files)
    → Reconfigures s.written conf backends files
        (overwrite_backends s conf backends files).0
        (overwrite_backends s conf backends files).1
unfolding overwrite_backends
overwrite_backends-Reconfigures s conf backends files = elim (Option-cases (files conf)) [
  | inl e ↦
      rw (overwrite_backends, e) (refused s.written conf backends files files refl (λ p _. refl))
  | inr (content, e) ↦
      let lines = lines_from line_size content in
      let tag = match_upstream_begin lines in
      let end = match_upstream_end lines (tag + 1) in
      elim (Bool-cases (tag == 0)) [
        | inl f ↦
            rw (overwrite_backends, e, f)
              (refused s.written conf backends files files refl (λ p _. refl))
        | inr f ↦
            elim (Bool-cases
              (leb end (tag + 1) || ltb ((length lines + (2 ^ 64 - 2)) % 2 ^ 64) end)) [
                | inl g ↦
                    rw (overwrite_backends, e, f, g)
                      (refused s.written conf backends files files refl (λ p _. refl))
                | inr g ↦
                    rw (overwrite_backends, e, f, g)
                      (replace_conf-Reconfigures s conf content
                        (new_conf lines backends (tag + 1) end) backends files e
                        (new_conf-Replaced content backends tag refl
                          (λ h. absurd (ground (arith, f, h)))))
              ]
      ]
]
