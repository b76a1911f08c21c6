-- ===== src/BlockIndex/Paths/Apart.antt =====
-- The files that the reader keeps for one block stand under different paths.
use thanos_datafusion_experi.Common.{
  ℕ, ◌≡◌, refl, ap, Bool, true, false, [], ◌∷◌, ◌++◌, append_assoc, ◌==◌, Bool-cases, inl, inr,
}
use thanos_datafusion_experi.Common.Text.{Text, codes, text_eq, text_eq_iff}
use thanos_datafusion_experi.BlockIndex.Paths.{
  local_path, ends_with_slash, is_absolute, join, series_index_file_path, block_manifest_file_path,
  parent, or_empty, with_file_name,
}

-- The last byte of a text.
ends_in : ℕ → Text → Bool
ends_in c [] = false
ends_in c (x ∷ []) = x == c
ends_in c (x ∷ y ∷ s) = ends_in c (y ∷ s)

ends_in-append : (c x : ℕ) (s t : Text) → ends_in c (s ++ (x ∷ t)) ≡ ends_in c (x ∷ t)
unfolding ends_in
ends_in-append c x [] t = refl
ends_in-append c x (y ∷ []) t = refl
ends_in-append c x (y ∷ z ∷ s) t = ends_in-append c x (z ∷ s) t

-- A path that is joined to any base ends in what it ended in.
ends_in-join :
    (c x : ℕ) (base s t : Text) → ends_in c (join base (s ++ (x ∷ t))) ≡ ends_in c (x ∷ t)
unfolding join
ends_in-join c x [] s t = ends_in-append c x s t
ends_in-join c x (b ∷ base) s t = elim (Bool-cases (is_absolute (s ++ (x ∷ t)))) [
  | inl e ↦ rw e (ends_in-append c x s t)
  | inr e ↦ rw e (elim (Bool-cases (ends_with_slash (b ∷ base))) [
    | inl f ↦ rw (f, ← append_assoc (b ∷ base) s (x ∷ t)) (ends_in-append c x ((b ∷ base) ++ s) t)
    | inr f ↦
        rw (f, ← append_assoc (b ∷ base) (47 ∷ s) (x ∷ t))
          (ends_in-append c x ((b ∷ base) ++ (47 ∷ s)) t)
  ])
]

apart : (c : ℕ) (s t : Text) → ends_in c s ≡ false → ends_in c t ≡ true → text_eq s t ≡ false
apart c s t p q = elim (Bool-cases (text_eq s t)) [
  | inl e ↦ absurd (let same = (text_eq_iff s t).0 e in cc (ap (ends_in c) same))
  | inr e ↦ e
]

ends_in-series : (location ulid : Text) → ends_in b't' (series_index_file_path location ulid) ≡ true
unfolding series_index_file_path ends_in
ends_in-series location ulid =
    ends_in-join b't' b'.' (join (local_path location) (codes "series")) ulid (codes "parquet")

ends_in-manifest :
    (location ulid : Text) → ends_in b't' (block_manifest_file_path location ulid) ≡ false
unfolding block_manifest_file_path ends_in
ends_in-manifest location ulid =
    ends_in-join b't' b'.' (join (local_path location) (codes "manifests")) ulid (codes "json")

pub manifest_apart :
    (location ulid : Text)
    → text_eq (block_manifest_file_path location ulid) (series_index_file_path location ulid)
      ≡ false
manifest_apart location ulid =
    apart b't' (block_manifest_file_path location ulid) (series_index_file_path location ulid)
      (ends_in-manifest location ulid) (ends_in-series location ulid)

-- A file beside another one, with an ending of its own.
pub beside_apart :
    (location ulid path stem : Text)
    → text_eq
        (with_file_name path (stem ++ codes ".json.partial"))
        (series_index_file_path location ulid)
      ≡ false
unfolding with_file_name ends_in
beside_apart location ulid path stem =
    apart b't' (with_file_name path (stem ++ codes ".json.partial"))
      (series_index_file_path location ulid)
      (ends_in-join b't' b'.' (or_empty (parent path)) stem (codes "json.partial"))
      (ends_in-series location ulid)
