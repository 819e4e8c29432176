-- ===== src/HustdbHa/Files.antt =====
-- The files that hustdb_ha_table_setter.c and hustdb_ha_conf_setter.c write: contents by path, and
-- the C library's `fopen`, `fwrite` and `rename`, with what the system permits as an argument.
use hustngx.Prelude.{
  ℕ, ◌≡◌, ◌≢◌, refl, Bool, true, false, Option, none, some, if◌then◌else◌, take, inl, inr,
  Bool-cases, Option-cases, ◌⊎◌,
}
use hustngx.Nginx.{Bytes}
use hustngx.CDict.Table.{same}
use hustngx.CDict.Chain.{same_refl, same_true}

abbrev pub Files : Type 0
Files = Bytes → Option Bytes

abbrev pub put : Bytes → Option Bytes → Files → Files
put path content files p = if same path p then content else files p

pub put_self :
    (path : Bytes) (content : Option Bytes) (files : Files) → put path content files path ≡ content
put_self path content files = rw (same_refl path) refl

pub put_other :
    (path p : Bytes) (content : Option Bytes) (files : Files)
    → path ≢ p
    → put path content files p ≡ files p
put_other path p content files d = elim (Bool-cases (same path p)) [
  | inl e ↦ absurd (d (same_true path p e))
  | inr e ↦ rw e refl
]

-- A file is opened for writing, or not; of the data a number of bytes gets to it.
unfoldable pub save_to_file : Option ℕ → Bytes → Bytes → Files → Bool × Files
save_to_file none content path files = (false, files)
save_to_file (some n) content path files = (true, put path (some (take n content)) files)

-- `rename`, which replaces a file of the new name; it fails where there is no file to rename.
unfoldable pub rename : Bool → Bytes → Bytes → Files → Bool × Files
rename false old new files = (false, files)
rename true old new files = elim (files old) [
  | none ↦ (false, files)
  | some content ↦ (true, put old none (put new (some content) files))
]

-- How a renaming ends.
pub rename_cases :
    (allowed : Bool) (old new : Bytes) (files : Files)
    → ((content : Bytes) × (files old ≡ some content)
        × (rename allowed old new files ≡ (true, put old none (put new (some content) files))))
      ⊎ (rename allowed old new files ≡ (false, files))
unfolding rename
rename_cases false old new files = inr refl
rename_cases true old new files = elim (Option-cases (files old)) [
  | inl e ↦ inr (rw (rename, e) refl)
  | inr (content, e) ↦ inl (content, e, rw (rename, e) refl)
]

-- A file that is opened is written.
pub saves :
    (written : Option ℕ) (n : ℕ) (content path : Bytes) (files : Files)
    → written ≡ some n
    → save_to_file written content path files ≡ (true, put path (some (take n content)) files)
unfolding save_to_file
saves written n content path files e = rw e refl
