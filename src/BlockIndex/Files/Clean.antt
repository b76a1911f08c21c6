-- ===== src/BlockIndex/Files/Clean.antt =====
-- The clean-up of a directory of the index cache: which files of blocks are left.
use thanos_datafusion_experi.Common.{
  ℕ, ◌≡◌, refl, ◌∙◌, Bool, true, false, not, ◌&&◌, ◌||◌, Option, none, some, List, [], ◌∷◌, ◌++◌,
  arith, ok,
}
use thanos_datafusion_experi.Common.Text.{Text, codes, text_eq, text_eq_iff}
use thanos_datafusion_experi.Common.Maps.{lookup}
use thanos_datafusion_experi.BlockIndex.Meta.{TextSet}
use thanos_datafusion_experi.BlockIndex.Paths.{split_last_dot, extension, file_stem}
use thanos_datafusion_experi.BlockIndex.Files.{
  DirEntry, remove_where, is_index_extension, holds_key, is_stale, cleanup_index_files,
}

unfoldable pub some_entry : (DirEntry → Bool) → List DirEntry → Bool
some_entry test [] = false
some_entry test (e ∷ entries) = test e || some_entry test entries

-- A regular file of that name.
abbrev pub is_file_named : Text → DirEntry → Bool
is_file_named name e = e.regular && text_eq e.name name

some_entry-remove_where :
    (removes : Text → Bool) (test p : DirEntry → Bool) (entries : List DirEntry)
    → (remove_where removes test entries).1 ≡ ok tt
    → some_entry p (remove_where removes test entries).0
      ≡ some_entry (λ e. p e && not (test e)) entries
unfolding remove_where some_entry
some_entry-remove_where removes test p [] h = refl
some_entry-remove_where removes test p (e ∷ entries) h =
    ground (arith, some_entry-remove_where removes test p entries)

split_last_dot-append :
    (stem ext : Text)
    → split_last_dot ext ≡ none
    → split_last_dot (stem ++ (46 ∷ ext)) ≡ some (stem, ext)
unfolding split_last_dot
split_last_dot-append [] ext h = rw (h, split_last_dot) refl
split_last_dot-append (c ∷ stem) ext h = rw (split_last_dot-append stem ext h, split_last_dot) refl

some_entry-and :
    (p : DirEntry → Bool) (q : DirEntry → Bool) (b : Bool) (entries : List DirEntry)
    → ((e : DirEntry) → q e ≡ (p e && b))
    → some_entry q entries ≡ (some_entry p entries && b)
unfolding some_entry
some_entry-and p q b [] h = refl
some_entry-and p q b (e ∷ entries) h = ground (arith, h e, some_entry-and p q b entries h)

extension-append :
    (c : ℕ) (stem ext : Text)
    → split_last_dot ext ≡ none
    → extension ((c ∷ stem) ++ (46 ∷ ext)) ≡ some ext
unfolding extension
extension-append c stem ext h = rw (split_last_dot-append (c ∷ stem) ext h, extension) refl

file_stem-append :
    (c : ℕ) (stem ext : Text)
    → split_last_dot ext ≡ none
    → file_stem ((c ∷ stem) ++ (46 ∷ ext)) ≡ c ∷ stem
unfolding file_stem
file_stem-append c stem ext h = rw (split_last_dot-append (c ∷ stem) ext h, file_stem) refl

-- The file of a block is stale where the block is not active.
is_stale-file :
    (active : TextSet) (c : ℕ) (stem ext : Text) (e : DirEntry)
    → split_last_dot ext ≡ none
    → is_index_extension (some ext) ≡ true
    → e.regular ≡ true
    → e.name ≡ (c ∷ stem) ++ (46 ∷ ext)
    → is_stale active e ≡ not (holds_key (lookup (c ∷ stem) active))
unfolding is_stale
is_stale-file active c stem ext e plain known regular named =
    rw (regular, named, extension-append c stem ext plain, file_stem-append c stem ext plain, known)
      refl

is_stale-named :
    (active : TextSet) (c : ℕ) (stem ext : Text) (e : DirEntry)
    → split_last_dot ext ≡ none
    → is_index_extension (some ext) ≡ true
    → (is_file_named ((c ∷ stem) ++ (46 ∷ ext)) e && not (is_stale active e))
      ≡ (is_file_named ((c ∷ stem) ++ (46 ∷ ext)) e && holds_key (lookup (c ∷ stem) active))
is_stale-named active c stem ext e plain known = ground (
  arith,
  is_stale-file active c stem ext e plain known,
  text_eq_iff e.name ((c ∷ stem) ++ (46 ∷ ext)),
)

unfoldable pub left_of : Option (List DirEntry) → List DirEntry
left_of none = []
left_of (some entries) = entries

-- A clean-up that succeeds leaves the Parquet file and the manifest of a block, whose name is not
-- empty, exactly where they were there and the block is active.
pub cleanup_index_files_exact :
    (removes : Text → Bool) (active : TextSet) (entries : List DirEntry) (c : ℕ) (stem : Text)
    → (cleanup_index_files removes active (some entries)).1 ≡ ok tt
    → (some_entry
          (is_file_named ((c ∷ stem) ++ codes ".parquet"))
          (left_of (cleanup_index_files removes active (some entries)).0)
        ≡ (some_entry (is_file_named ((c ∷ stem) ++ codes ".parquet")) entries
            && holds_key (lookup (c ∷ stem) active)))
      × (some_entry
            (is_file_named ((c ∷ stem) ++ codes ".json"))
            (left_of (cleanup_index_files removes active (some entries)).0)
          ≡ (some_entry (is_file_named ((c ∷ stem) ++ codes ".json")) entries
              && holds_key (lookup (c ∷ stem) active)))
unfolding cleanup_index_files left_of split_last_dot text_eq
cleanup_index_files_exact removes active entries c stem h =
    (kept (codes "parquet") (refl) (refl), kept (codes "json") (refl) (refl))
  where
    kept :
        (ext : Text)
        → split_last_dot ext ≡ none
        → is_index_extension (some ext) ≡ true
        → some_entry
            (is_file_named ((c ∷ stem) ++ (46 ∷ ext)))
            (remove_where removes (is_stale active) entries).0
          ≡ (some_entry (is_file_named ((c ∷ stem) ++ (46 ∷ ext))) entries
              && holds_key (lookup (c ∷ stem) active))
    kept ext plain known =
        some_entry-remove_where removes (is_stale active) (is_file_named ((c ∷ stem) ++ (46 ∷ ext)))
          entries h
        ∙ some_entry-and (is_file_named ((c ∷ stem) ++ (46 ∷ ext))) _
            (holds_key (lookup (c ∷ stem) active)) entries
            (λ e. is_stale-named active c stem ext e plain known)
