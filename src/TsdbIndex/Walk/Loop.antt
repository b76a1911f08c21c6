-- ===== src/TsdbIndex/Walk/Loop.antt =====
-- The loop of `parse_each`: with enough fuel it ends, unless it meets a byte 0 at an aligned offset.
use thanos_datafusion_experi.Common.{
  ℕ, zero, suc, ◌+◌, ◌-◌, ◌%◌, ◌^◌, ◌≤◌, ◌<◌, ◌≡◌, ◌≢◌, refl, ap, ◌∙◌, some, List, arith, ok, err,
  panicked, stuck, leb, ◌==◌, length, get_elem?, get_range, Ends, Ends-bind, Ends-ok_or,
  Ends-or_panic, Ends-ensure, Ends-ne-stuck, returned, Bool-cases, Option-cases, inl, inr, view,
  is_ok, is_err, is_panicked, is_stuck, Ensures, Ensures-of, Ensures-bind, Ensures-ensure,
  Ensures-eq-ok, Ensures-ok_or, holds, or_panic, ◌/◌, leb→le, leb_false→lt, ==_iff,
}
use native.Mathlib.Decide.{ℕ_discrete}
use thanos_datafusion_experi.Common.Int.{checked_add}
use thanos_datafusion_experi.Common.Text.{Bytes, Text}
use thanos_datafusion_experi.TsdbIndex.Reader.{
  Crates, Res, Section, series_alignment, read_uvarint, align_series, verify_crc, truncated_entry,
}
use thanos_datafusion_experi.TsdbIndex.Varint.{read_uvarint_bounds}
use thanos_datafusion_experi.TsdbIndex.Align.{align_series_bounds, align_series_fixed}
use thanos_datafusion_experi.TsdbIndex.Entry.{Series, parse_series}
use thanos_datafusion_experi.TsdbIndex.Entry.Ends.{parse_series-Ends}
use thanos_datafusion_experi.TsdbIndex.Walk.{
  Run, resume, visit_entry, read_entry, walk, read_header, parse_each,
}
use thanos_datafusion_experi.TsdbIndex.Walk.Header.{read_header_bounds}
use thanos_datafusion_experi.TsdbIndex.Walk.Ends.{
  read_uvarint-Ends, verify_crc-Ends, read_header-Returns,
}

-- An entry lies behind its offset and within the section.
read_entry_bounds :
    (crates : Crates) (bytes : Bytes) (symbols : List Text) (end offset : ℕ)
    → Ensures
        (λ (s, next). (offset < next) × (next ≤ end))
        (read_entry crates bytes symbols end offset)
unfolding read_entry checked_add
read_entry_bounds crates bytes symbols end offset =
    Ensures-bind
      (Ensures-of (λ (v, n). 0 < n) (read_uvarint bytes offset)
        (λ (v, n) e. (read_uvarint_bounds bytes offset v n e).1))
      λ (size, n) pos.
        Ensures-bind
          (Ensures-ok_or (λ s. offset < s) (checked_add offset n) _ (λ s e. ground arith))
          λ start p.
            Ensures-bind
              (Ensures-ok_or (λ s. start ≤ s) (checked_add start size) _ (λ s e. ground arith))
              λ body q.
                Ensures-bind
                  (Ensures-ok_or (λ s. body ≤ s) (checked_add body 4) _ (λ s e. ground arith))
                  λ next r.
                    Ensures-bind (Ensures-ensure (leb next end) truncated_entry (leb→le next end))
                      λ _ fits.
                        Ensures-bind
                          (Ensures-of (λ _. Unit {0})
                            (verify_crc crates bytes start size Section.series_entry) (λ _ _. tt))
                          λ _ _.
                            Ensures-bind
                              (Ensures-of (λ _. Unit {0}) (or_panic (get_range bytes start body))
                                (λ _ _. tt))
                              λ content _.
                                Ensures-bind
                                  (Ensures-of (λ _. Unit {0})
                                    (parse_series content (offset / series_alignment) symbols)
                                    (λ _ _. tt))
                                  λ _ _. holds (omega arith, fits)

module _ (crates : Crates) (bytes : Bytes) (short : length bytes < 2 ^ 63)
    (symbols : List Text) where
  read_entry-Ends : (end offset : ℕ) → Ends (Unit {0}) (read_entry crates bytes symbols end offset)
  unfolding read_entry
  read_entry-Ends end offset = Ends-bind (read_uvarint-Ends bytes offset) λ (size, n) _.
      Ends-bind (Ends-ok_or (checked_add offset n) _) λ start _.
        Ends-bind (Ends-ok_or (checked_add start size) _) λ body _.
          Ends-bind (Ends-ok_or (checked_add body 4) _) λ next _.
            Ends-bind (Ends-ensure (leb next end) truncated_entry) λ _ _.
              Ends-bind (verify_crc-Ends crates bytes short start size Section.series_entry) λ _ _.
                Ends-bind (Ends-or_panic (get_range bytes start body) (λ _. tt))
                  λ content _. Ends-bind (parse_series-Ends content _ symbols) λ _ _. returned

align_series-Ends : {P : Type 0} (offset : ℕ) → Ends P (align_series offset)
unfolding align_series
align_series-Ends offset = Ends-ok_or _ _

-- No padding byte stands where an entry must.
abbrev pub NoStall : Bytes → ℕ → ℕ → Type 0
NoStall bytes start end = (p : ℕ) → start ≤ p → p < end → p % 16 ≡ 0 → get_elem? bytes p ≢ some 0

module _ {ℓ} {S : Type ℓ} (crates : Crates) (bytes : Bytes) (visit : Series → S → S) where
  -- Padding at an aligned offset: the offset stays, and the loop goes round for ever.
  pub walk_stalls :
      (fuel : ℕ) (symbols : List Text) (end offset : ℕ) (s : S)
      → offset < end
      → offset + 15 < 2 ^ 64
      → offset % 16 ≡ 0
      → get_elem? bytes offset ≡ some 0
      → walk crates bytes visit fuel symbols end offset s ≡ (s, stuck)
  unfolding walk
  walk_stalls zero symbols end offset s inside fits aligned pad = refl
  walk_stalls (suc fuel) symbols end offset s inside fits aligned pad = ground (
    arith,
    pad,
    align_series_fixed offset aligned fits,
    walk_stalls fuel symbols end offset s inside fits aligned pad,
  )

module _ {ℓ} {S : Type ℓ} where
  resume-Ends :
      (r : Res ℕ) (s : S) (k : ℕ → Run S)
      → Ends (Unit {0}) r
      → ((n : ℕ) → r ≡ ok n → (k n).1 ≢ stuck)
      → (resume s r k).1 ≢ stuck
  resume-Ends (ok n) s k e h = h n refl
  resume-Ends (err x) s k e h = λ p. cc
  resume-Ends panicked s k e h = λ p. cc
  resume-Ends stuck s k e h = λ p. Ends-ne-stuck e refl

  visit-Ends :
      (visit : Series → S → S) (r : Res (Series × ℕ)) (s : S) (k : S → ℕ → Run S)
      → Ends (Unit {0}) r
      → ((s' : S) (x : Series) (end n : ℕ)
          → r ≡ ok (x, end)
          → align_series end ≡ ok n
          → (k s' n).1 ≢ stuck)
      → (visit_entry visit s r k).1 ≢ stuck
  visit-Ends visit (ok (x, end)) s k e h =
      resume-Ends (align_series end) (visit x s) (k (visit x s)) (align_series-Ends end)
        (λ n p. h (visit x s) x end n refl p)
  visit-Ends visit (err x) s k e h = λ p. cc
  visit-Ends visit panicked s k e h = λ p. cc
  visit-Ends visit stuck s k e h = λ p. Ends-ne-stuck e refl

moves_on :
    (bytes : Bytes) (start end offset next : ℕ)
    → NoStall bytes start end
    → start ≤ offset
    → offset < end
    → get_elem? bytes offset ≡ some 0
    → align_series offset ≡ ok next
    → offset < next
moves_on bytes start end offset next h from inside pad e = elim (ℕ_discrete (offset % 16) 0) [
  | yes z ↦ absurd (h offset from inside z pad)
  | no nz ↦ omega (arith, align_series_bounds offset next e)
]

module _ {ℓ} {S : Type ℓ} (crates : Crates) (bytes : Bytes) (visit : Series → S → S)
    (short : length bytes < 2 ^ 63) (symbols : List Text) (start end : ℕ)
    (h : NoStall bytes start end) where
  walk-ne-stuck :
      (fuel offset : ℕ) (s : S)
      → start ≤ offset
      → end - offset < fuel
      → (walk crates bytes visit fuel symbols end offset s).1 ≢ stuck
  unfolding walk
  walk-ne-stuck zero offset s from f = absurd (omega arith)
  walk-ne-stuck (suc fuel) offset s from f = elim (Bool-cases (leb end offset)) [
    | inl done ↦ rw done (λ p. cc)
    | inr more ↦ rw more (elim (Option-cases (get_elem? bytes offset)) [
      | inl e ↦ rw e (λ p. cc)
      | inr (b, e) ↦ rw e (elim (Bool-cases (b == 0)) [
        | inl z ↦ rw z (
            resume-Ends (align_series offset) s _ (align_series-Ends offset) (λ n p.
              let on =
                moves_on bytes start end offset n h from (leb_false→lt end offset more)
                  (e ∙ ap some ((==_iff b 0).0 z)) p in
              walk-ne-stuck fuel n s (omega (arith, on))
                (omega (arith, leb_false→lt end offset more, on))))
        | inr z ↦ rw z (
            visit-Ends visit (read_entry crates bytes symbols end offset) s _
              (read_entry-Ends crates bytes short symbols end offset)
              (λ s' x last n p q.
                let on = entry_moves x last n (leb_false→lt end offset more) p q in
                walk-ne-stuck fuel n s' (omega (arith, on.0)) on.1))
      ])
    ])
  ]
    where
      entry_moves :
          (x : Series) (last n : ℕ)
          → offset < end
          → read_entry crates bytes symbols end offset ≡ ok (x, last)
          → align_series last ≡ ok n
          → (offset < n) × (end - n < fuel)
      entry_moves x last n inside p q =
          let b = Ensures-eq-ok (read_entry_bounds crates bytes symbols end offset) p in
          (
            omega (arith, b.0, align_series_bounds last n q),
            omega (arith, b.0, b.1, align_series_bounds last n q),
          )

-- `parse_each` ends, with fuel for every byte and one more, on an input shorter than 2^63 whose
-- series section has no byte 0 at an offset that is a multiple of 16.
pub parse_each-ne-stuck {ℓ} :
    {S : Type ℓ} (crates : Crates) (bytes : Bytes) (visit : Series → S → S) (s : S)
    → length bytes < 2 ^ 63
    → ((symbols : List Text) (start end : ℕ)
        → read_header crates bytes ≡ ok (symbols, start, end)
        → NoStall bytes start end)
    → (parse_each crates (length bytes + 1) bytes visit s).1 ≢ stuck
unfolding parse_each
parse_each-ne-stuck crates bytes visit s short h = elim (view (read_header crates bytes)) [
  | is_ok (symbols, start, end) e ↦
      rw (e, parse_each)
        (walk-ne-stuck crates bytes visit short symbols start end (h symbols start end e)
          (length bytes + 1) start s (omega arith)
          (omega (arith, read_header_bounds crates bytes symbols start end e)))
  | is_err x e ↦ rw (e, parse_each) (λ p. cc)
  | is_panicked e ↦ rw (e, parse_each) (λ p. cc)
  | is_stuck e ↦ absurd (Ends-ne-stuck (read_header-Returns crates bytes short) e)
]

-- Where the series section starts at a multiple of 16 and its first byte is 0, `parse_each` does
-- not end whatever the fuel, and visits nothing.
pub parse_each_stalls {ℓ} :
    {S : Type ℓ} (crates : Crates) (fuel : ℕ) (bytes : Bytes) (visit : Series → S → S) (s : S)
    (symbols : List Text) (start end : ℕ)
    → read_header crates bytes ≡ ok (symbols, start, end)
    → start < end
    → start + 15 < 2 ^ 64
    → start % 16 ≡ 0
    → get_elem? bytes start ≡ some 0
    → parse_each crates fuel bytes visit s ≡ (s, stuck)
unfolding parse_each
parse_each_stalls crates fuel bytes visit s symbols start end e inside fits aligned pad =
    rw (e, parse_each)
      (walk_stalls crates bytes visit fuel symbols end start s inside fits aligned pad)
