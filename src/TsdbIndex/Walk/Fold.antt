-- ===== src/TsdbIndex/Walk/Fold.antt =====
-- `parse_each` hands its visitor the series that `parse` collects, in that order.
use thanos_datafusion_experi.Common.{
  ℕ, zero, suc, ◌≡◌, refl, inl, inr, List, [], ◌∷◌, ◌++◌, ok, err, panicked, stuck, view, is_ok,
  is_err, is_panicked, is_stuck, leb, ◌==◌, get_elem?, Bool-cases, Option-cases,
}
use thanos_datafusion_experi.Common.Text.{Bytes, Text}
use thanos_datafusion_experi.TsdbIndex.Reader.{Crates, Res, align_series}
use thanos_datafusion_experi.TsdbIndex.Entry.{Series}
use thanos_datafusion_experi.TsdbIndex.Walk.{
  Run, resume, visit_entry, read_entry, walk, read_header, parse_each,
}
use mathlib.Core.List.{foldl}

-- A visitor's state may be read through a function that respects the visits.
module _ {ℓ κ} {S : Type ℓ} {T : Type κ} (visit : Series → S → S) (visit' : Series → T → T)
    (h : S → T) (respects : (x : Series) (s : S) → h (visit x s) ≡ visit' x (h s)) (crates : Crates)
    (bytes : Bytes) where
  abbrev through : Run S → Run T
  through r = (h r.0, r.1)

  resume-through :
      (r : Res ℕ) (s : S) (k : ℕ → Run S) (k' : ℕ → Run T)
      → ((n : ℕ) → k' n ≡ through (k n))
      → resume (h s) r k' ≡ through (resume s r k)
  resume-through (ok n) s k k' e = e n
  resume-through (err x) s k k' e = refl
  resume-through panicked s k k' e = refl
  resume-through stuck s k k' e = refl

  visit_entry-through :
      (r : Res (Series × ℕ)) (s : S) (k : S → ℕ → Run S) (k' : T → ℕ → Run T)
      → ((s' : S) (n : ℕ) → k' (h s') n ≡ through (k s' n))
      → visit_entry visit' (h s) r k' ≡ through (visit_entry visit s r k)
  visit_entry-through (ok (x, end)) s k k' e = rw (← respects x s) (
      resume-through (align_series end) (visit x s) (k (visit x s)) (k' (h (visit x s)))
        (e (visit x s)))
  visit_entry-through (err x) s k k' e = refl
  visit_entry-through panicked s k k' e = refl
  visit_entry-through stuck s k k' e = refl

  walk-through :
      (fuel : ℕ) (symbols : List Text) (end offset : ℕ) (s : S)
      → walk crates bytes visit' fuel symbols end offset (h s)
        ≡ through (walk crates bytes visit fuel symbols end offset s)
  unfolding walk
  walk-through zero symbols end offset s = refl
  walk-through (suc fuel) symbols end offset s = elim (Bool-cases (leb end offset)) [
    | inl done ↦ rw done
    | inr more ↦ rw more (elim (Option-cases (get_elem? bytes offset)) [
      | inl e ↦ rw e
      | inr (b, e) ↦ rw e (elim (Bool-cases (b == 0)) [
        | inl z ↦
            rw z
              (resume-through (align_series offset) s _ _ (λ n. walk-through fuel symbols end n s))
        | inr z ↦ rw z (
            visit_entry-through (read_entry crates bytes symbols end offset) s _ _
              (λ s' n. walk-through fuel symbols end n s'))
      ])
    ])
  ]

-- `|entry| series.push(entry)`
abbrev pub collect : Series → List Series → List Series
collect entry series = series ++ (entry ∷ [])

module _ {ℓ} {S : Type ℓ} (visit : Series → S → S) (crates : Crates) (fuel : ℕ) (bytes : Bytes)
    (s : S) where
  abbrev replay : List Series → S
  replay = foldl (λ t x. visit x t) s

  foldl-snoc :
      (xs : List Series) (x : Series) (t : S)
      → foldl (λ t x. visit x t) t (xs ++ (x ∷ [])) ≡ visit x (foldl (λ t x. visit x t) t xs)
  foldl-snoc [] x t = refl
  foldl-snoc (y ∷ ys) x t = foldl-snoc ys x (visit y t)

  -- With any visitor `parse_each` ends as the run that only collects the series, and leaves the
  -- visitor's state as visiting the collected series in order leaves it, also where the run fails
  -- half-way.
  pub parse_each-foldl : parse_each crates fuel bytes visit s ≡ (
    foldl (λ t x. visit x t) s (parse_each crates fuel bytes collect []).0,
    (parse_each crates fuel bytes collect []).1,
  )
  unfolding parse_each
  parse_each-foldl = elim (view (read_header crates bytes)) [
    | is_ok (symbols, start, end) e ↦
        rw (e, parse_each)
          (walk-through collect visit replay (λ x xs. foldl-snoc xs x s) crates bytes fuel symbols
            end start [])
    | is_err x e ↦ rw (e, parse_each)
    | is_panicked e ↦ rw (e, parse_each)
    | is_stuck e ↦ rw (e, parse_each)
  ]
