-- ===== src/HustdbHa/Overwrite.antt =====
-- The files after hustdb_ha_table_setter.c has set a table.
use hustngx.Prelude.{
  ℕ, ◌+◌, ◌≡◌, ◌≢◌, refl, sym, ap, ◌∙◌, ◌⊎◌, false, Option, none, some, [], ◌∷◌, ◌++◌, length,
  length-append, take, drop, arith, inl, inr, Option-cases,
}
use hustngx.Nginx.{Bytes}
use hustngx.Params.Values.{drop-append}
use hustngx.HustdbHa.Table.{Result, done, refused, overrun}
use hustngx.HustdbHa.Files.{Files, put, put_self, put_other, save_to_file, saves, rename_cases}
use hustngx.HustdbHa.Setter.{
  TablePath, tmp_ext, del_ext, init_table_path, SetTableResult, set_table_success, check_table_err,
  rename_table_err, rollback_overwrite_err, Checker, System, check_table, move_in, replace_table,
  install, overwrite_table,
}

Result-cases : (r : Result (Unit {0})) → (r ≡ refused) ⊎ ((r ≡ overrun) ⊎ (r ≡ done tt))
Result-cases refused = inl refl
Result-cases overrun = inr (inl refl)
Result-cases (done tt) = inr (inr refl)

-- The second byte, which tells the two endings apart.
abbrev second : Bytes → ℕ
second (x ∷ y ∷ rest) = y
second (x ∷ []) = 0
second [] = 0

pub record AreApart (path : TablePath) : Type 0 where
  pub table_tmp : path.table_path ≢ path.table_tmp_path
  pub table_del : path.table_path ≢ path.table_del_path
  pub tmp_del : path.table_tmp_path ≢ path.table_del_path

longer : (path ext : Bytes) → length ext ≡ 4 → path ≢ path ++ ext
longer path ext n e = absurd (omega (arith, n, ap length e, length-append path ext))

pub init_table_path-AreApart : (path : Bytes) → AreApart (init_table_path path)
unfolding init_table_path
init_table_path-AreApart path = record {
  table_tmp = longer path tmp_ext refl;
  table_del = longer path del_ext refl;
  tmp_del = λ e.
      let same_ext =
        sym (drop-append 0 path tmp_ext)
        ∙ ap (drop (length path + 0)) e
        ∙ drop-append 0 path del_ext in
      absurd (omega (arith, ap second same_ext));
}

module _ {P : Type 0} (c : Checker P) where
  -- What setting a table does to the files, by its result.
  pub record Overwrites (written : Option ℕ) (path : TablePath) (content : Bytes) (files : Files)
      (result : Option SetTableResult) (files' : Files) : Type 0 where
    pub replaced :
        result ≡ some set_table_success
        → (n : ℕ) × (written ≡ some n)
          × (files' path.table_path ≡ some (take n content))
          × (check_table c path.table_path files' ≡ done tt)
          × (files' path.table_del_path ≡ files path.table_path)
          × (files' path.table_tmp_path ≡ none)
    pub kept :
        result ≢ some set_table_success
        → result ≢ some rollback_overwrite_err
        → files' path.table_path ≡ files path.table_path
    pub in_del :
        result ≡ some rollback_overwrite_err
        → (files' path.table_del_path ≡ files path.table_path) × (files path.table_path ≢ none)
    pub others :
        (p : Bytes)
        → p ≢ path.table_path
        → p ≢ path.table_tmp_path
        → p ≢ path.table_del_path
        → files' p ≡ files p

  -- Where only the temporary file has been written.
  early :
      (written : Option ℕ) (path : TablePath) (content : Bytes) (files : Files)
      (result : Option SetTableResult) (saved : Option Bytes)
      → AreApart path
      → result ≢ some set_table_success
      → result ≢ some rollback_overwrite_err
      → Overwrites written path content files result (put path.table_tmp_path saved files)
  early written path content files result saved a n m = record {
    replaced = λ e. absurd (n e);
    kept =
        λ _ _. put_other path.table_tmp_path path.table_path saved files (λ e. a.table_tmp (sym e));
    in_del = λ e. absurd (m e);
    others = λ p _ d _. put_other path.table_tmp_path p saved files (λ e. d (sym e));
  }

  check_table-same :
      (path path' : Bytes) (files files' : Files)
      → files path ≡ files' path'
      → check_table c path files ≡ check_table c path' files'
  unfolding check_table
  check_table-same path path' files files' e = rw (check_table, e) refl

  -- The files when the table has been moved away.
  abbrev moved_away : TablePath → Bytes → Files → Files
  moved_away path old files = put path.table_path none (put path.table_del_path (some old) files)

  module _ (path : TablePath) (a : AreApart path) (old : Bytes) (files : Files) where
    away_tmp : moved_away path old files path.table_tmp_path ≡ files path.table_tmp_path
    away_tmp =
        put_other path.table_path path.table_tmp_path none
          (put path.table_del_path (some old) files) a.table_tmp
        ∙ put_other path.table_del_path path.table_tmp_path (some old) files
            (λ e. a.tmp_del (sym e))

    away_del : moved_away path old files path.table_del_path ≡ some old
    away_del =
        put_other path.table_path path.table_del_path none
          (put path.table_del_path (some old) files) a.table_del
        ∙ put_self path.table_del_path (some old) files

    away_other :
        (p : Bytes)
        → p ≢ path.table_path
        → p ≢ path.table_del_path
        → moved_away path old files p ≡ files p
    away_other p t d =
        put_other path.table_path p none (put path.table_del_path (some old) files) (λ e. t (sym e))
        ∙ put_other path.table_del_path p (some old) files (λ e. d (sym e))

  move_in-Overwrites :
      (s : System) (n : ℕ) (path : TablePath) (content old : Bytes) (files : Files)
      → AreApart path
      → s.written ≡ some n
      → files path.table_path ≡ some old
      → check_table c path.table_tmp_path (put path.table_tmp_path (some (take n content)) files)
        ≡ done tt
      → (let r =
            move_in c s path
              (moved_away path old (put path.table_tmp_path (some (take n content)) files)) in
          Overwrites s.written path content files (some r.0) r.1)
  unfolding move_in
  move_in-Overwrites s n path content old files a w was checked =
      elim (rename_cases s.move_tmp path.table_tmp_path path.table_path away) [
        | inl (x, f, e) ↦
            let new = put path.table_path (some x) away in
            let in_place : put path.table_tmp_path none new path.table_path ≡ some x =
              put_other path.table_tmp_path path.table_path none new (λ g. a.table_tmp (sym g))
              ∙ put_self path.table_path (some x) away in
            let is_data : some x ≡ some (take n content) =
              sym f
              ∙ away_tmp path a old saved
              ∙ put_self path.table_tmp_path (some (take n content)) files in
            rw (move_in, e)
              (record {
                replaced = λ _. (
                  n,
                  w,
                  in_place ∙ is_data,
                  check_table-same path.table_path path.table_tmp_path
                        (put path.table_tmp_path none new) saved
                        (in_place
                          ∙ is_data
                          ∙ sym (put_self path.table_tmp_path (some (take n content)) files))
                      ∙ checked,
                  put_other path.table_tmp_path path.table_del_path none new a.tmp_del
                      ∙ put_other path.table_path path.table_del_path (some x) away a.table_del
                      ∙ away_del path a old saved
                      ∙ sym was,
                  put_self path.table_tmp_path none new,
                );
                kept = λ d _. absurd (d refl);
                in_del = λ d. absurd (cc d);
                others = λ p t m d.
                    put_other path.table_tmp_path p none new (λ g. m (sym g))
                    ∙ put_other path.table_path p (some x) away (λ g. t (sym g))
                    ∙ away_other path a old saved p t d
                    ∙ put_other path.table_tmp_path p (some (take n content)) files
                        (λ g. m (sym g));
              })
        | inr e ↦ elim (rename_cases s.move_back path.table_del_path path.table_path away) [
          | inl (y, g, k) ↦
              let new = put path.table_path (some y) away in
              let is_old : some y ≡ files path.table_path =
                sym g ∙ away_del path a old saved ∙ sym was in
              rw (move_in, e, k)
                (record {
                  replaced = λ d. absurd (cc d);
                  kept = λ _ _.
                      put_other path.table_del_path path.table_path none new
                        (λ h. a.table_del (sym h))
                      ∙ put_self path.table_path (some y) away
                      ∙ is_old;
                  in_del = λ d. absurd (cc d);
                  others = λ p t m d.
                      put_other path.table_del_path p none new (λ h. d (sym h))
                      ∙ put_other path.table_path p (some y) away (λ h. t (sym h))
                      ∙ away_other path a old saved p t d
                      ∙ put_other path.table_tmp_path p (some (take n content)) files
                          (λ h. m (sym h));
                })
          | inr k ↦
              rw (move_in, e, k)
                (record {
                  replaced = λ d. absurd (cc d);
                  kept = λ _ d. absurd (d refl);
                  in_del = λ _. (
                    away_del path a old saved ∙ sym was,
                    λ none_there. absurd (cc (sym was ∙ none_there)),
                  );
                  others = λ p t m d.
                      away_other path a old saved p t d
                      ∙ put_other path.table_tmp_path p (some (take n content)) files
                          (λ h. m (sym h));
                })
        ]
      ]
    where
      saved : Files
      saved = put path.table_tmp_path (some (take n content)) files

      away : Files
      away = moved_away path old saved

  replace_table-Overwrites :
      (s : System) (n : ℕ) (path : TablePath) (content : Bytes) (files : Files)
      → AreApart path
      → s.written ≡ some n
      → check_table c path.table_tmp_path (put path.table_tmp_path (some (take n content)) files)
        ≡ done tt
      → (let r = replace_table c s path (put path.table_tmp_path (some (take n content)) files) in
          Overwrites s.written path content files (some r.0) r.1)
  unfolding replace_table
  replace_table-Overwrites s n path content files a w checked =
      let saved = put path.table_tmp_path (some (take n content)) files in
      elim (rename_cases s.move_table path.table_path path.table_del_path saved) [
        | inl (old, f, e) ↦
            let was =
              sym (
                put_other path.table_tmp_path path.table_path (some (take n content)) files
                  (λ g. a.table_tmp (sym g)))
              ∙ f in
            rw (replace_table, e) (move_in-Overwrites s n path content old files a w was checked)
        | inr e ↦
            rw (replace_table, e)
              (early s.written path content files (some rename_table_err) (some (take n content)) a
                (λ d. absurd (cc d)) (λ d. absurd (cc d)))
      ]

  install-Overwrites :
      (s : System) (n : ℕ) (path : TablePath) (content : Bytes) (files : Files)
      → AreApart path
      → s.written ≡ some n
      → (let r = install c s path (put path.table_tmp_path (some (take n content)) files) in
          Overwrites s.written path content files r.0 r.1)
  unfolding install
  install-Overwrites s n path content files a e =
      let saved = put path.table_tmp_path (some (take n content)) files in
      elim (Result-cases (check_table c path.table_tmp_path saved)) [
        | inl f ↦
            rw (install, f)
              (early s.written path content files (some check_table_err) (some (take n content)) a
                (λ d. absurd (cc d)) (λ d. absurd (cc d)))
        | inr (inl f) ↦
            rw (install, f)
              (early s.written path content files none (some (take n content)) a
                (λ d. absurd (cc d)) (λ d. absurd (cc d)))
        | inr (inr f) ↦ rw (install, f) (replace_table-Overwrites s n path content files a e f)
      ]

  -- Whatever is written and whichever renaming fails: after a success the table's file holds what
  -- was written and passes the check, the old file is the one with ".del", and that with ".tmp" is
  -- gone; after any other end but a failed rollback the table's file is as it was; after a failed
  -- rollback the table's file, which was there, is the one with ".del"; no other file changes.
  pub overwrite_table-Overwrites :
      (s : System) (path content : Bytes) (files : Files)
      → Overwrites s.written
          (init_table_path path)
          content
          files
          (overwrite_table c s (init_table_path path) content files).0
          (overwrite_table c s (init_table_path path) content files).1
  unfolding overwrite_table
  overwrite_table-Overwrites s path content files =
      let paths = init_table_path path in
      elim (Option-cases s.written) [
        | inl e ↦
            let not_saved : save_to_file s.written content paths.table_tmp_path files
                ≡ (false, files) =
              unfold save_to_file in rw e refl in
            rw (overwrite_table, not_saved)
              (record {
                replaced = λ d. absurd (cc d);
                kept = λ _ _. refl;
                in_del = λ d. absurd (cc d);
                others = λ p _ _ _. refl;
              })
        | inr (n, e) ↦
            rw (overwrite_table, saves s.written n content paths.table_tmp_path files e)
              (install-Overwrites s n paths content files (init_table_path-AreApart path) e)
      ]
