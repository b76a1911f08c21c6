-- ===== src/TsdbIndex/Entry/Order.antt =====
-- What `parse_series` guarantees of the chunks that it returns.
use thanos_datafusion_experi.Common.{
  ℕ, zero, suc, ◌+◌, ◌<◌, ◌≡◌, refl, ap, true, not, Option, none, some, List, [], ◌∷◌, arith, ok,
  ◌==◌, length, Ensures, Ensures-mono, Option-cases, inl, inr, holds, rejected, Ensures-of,
  Ensures-bind, Ensures-ok_or, Ensures-ensure, Ensures-eq-ok,
}
use thanos_datafusion_experi.Common.Int.{
  ℤ, pos, negsuc, ◌≤ℤ◌, ◌+ℤ◌, IsI64, IsU64, i64_try_from, u64_try_from, checked_add_i64,
}
use thanos_datafusion_experi.Common.Text.{Bytes, Text}
use thanos_datafusion_experi.Common.Maps.{Labels, Sorted, Sorted-insert, length-insert, lookup}
use thanos_datafusion_experi.TsdbIndex.Reader.{symbol, read_uvarint, read_varint}
use thanos_datafusion_experi.TsdbIndex.Varint.{read_uvarint_bounds, read_varint_bounds}
use thanos_datafusion_experi.TsdbIndex.Entry.{
  Chunk, Series, insert_new, read_labels, read_mint, read_reference, starts_before, not_above,
  read_chunk, read_chunks, reserve_chunks, parse_series,
}

-- A chunk of 64-bit values whose times are in order.
abbrev pub WellFormed : Chunk → Type 0
WellFormed c = IsI64 c.mint × IsI64 c.maxt × IsU64 c.reference × (c.mint ≤ℤ c.maxt)

abbrev pub From : Option ℤ → ℤ → Type 0
From none t = Unit {0}
From (some lo) t = lo ≤ℤ t

abbrev pub Beyond : Option ℕ → ℕ → Type 0
Beyond none r = Unit {0}
Beyond (some lo) r = lo < r

-- Each chunk begins where the last one has ended or later, and references rise.
abbrev pub Ordered : Option ℤ → Option ℕ → List Chunk → Type 0
Ordered maxt reference [] = Unit {0}
Ordered maxt reference (c ∷ cs) =
    WellFormed c
    × From maxt c.mint
    × Beyond reference c.reference
    × Ordered (some c.maxt) (some c.reference) cs

checked_add_i64_lem : (a b c : ℤ) → checked_add_i64 a b ≡ some c → IsI64 c × (c ≡ a +ℤ b)
unfolding checked_add_i64
checked_add_i64_lem a b c e = ground arith

later_or_equal :
    (a : ℤ) (d : ℕ) (d' c : ℤ)
    → i64_try_from d ≡ some d'
    → checked_add_i64 a d' ≡ some c
    → IsI64 c × (a ≤ℤ c)
unfolding i64_try_from checked_add_i64
later_or_equal a d d' c p q = ground arith

read_mint-Ensures :
    (bytes : Bytes) (position : ℕ) (maxt : Option ℤ)
    → Ensures (λ (mint, after). IsI64 mint × From maxt mint) (read_mint bytes position maxt)
unfolding read_mint
read_mint-Ensures bytes position none =
    Ensures-bind
      (Ensures-of (λ (z, n). IsI64 z) (read_varint bytes position)
        (λ (z, n) e. (read_varint_bounds bytes position z n e).0))
      λ (z, n) h. holds (h, tt)
read_mint-Ensures bytes position (some maxt) =
    Ensures-bind (Ensures-of (λ _. Unit {0}) (read_uvarint bytes position) (λ _ _. tt))
      λ (delta, n) _.
        Ensures-bind
          (Ensures-ok_or (λ d. i64_try_from delta ≡ some d) (i64_try_from delta) _ (λ _ e. e))
          λ d p.
            Ensures-bind
              (Ensures-ok_or (λ z. IsI64 z × (maxt ≤ℤ z)) (checked_add_i64 maxt d) _
                (λ z q. later_or_equal maxt delta d z p q))
              λ z h. holds h

u64_try_from_lem : (z : ℤ) (r : ℕ) → u64_try_from z ≡ some r → IsU64 r
unfolding u64_try_from
u64_try_from_lem (pos n) r e = ground arith
u64_try_from_lem (negsuc n) r e = cc

read_reference-Ensures :
    (bytes : Bytes) (position : ℕ) (previous : Option ℕ)
    → Ensures (λ (reference, after). IsU64 reference) (read_reference bytes position previous)
unfolding read_reference
read_reference-Ensures bytes position none =
    Ensures-bind
      (Ensures-of (λ (v, n). IsU64 v) (read_uvarint bytes position)
        (λ (v, n) e. (read_uvarint_bounds bytes position v n e).0))
      λ (v, n) h. holds h
read_reference-Ensures bytes position (some previous) =
    Ensures-bind (Ensures-of (λ _. Unit {0}) (read_varint bytes position) (λ _ _. tt))
      λ (delta, n) _.
        Ensures-bind
          (Ensures-ok_or (λ r. IsU64 r) (u64_try_from (pos previous +ℤ delta)) _
            (u64_try_from_lem (pos previous +ℤ delta)))
          λ r h. holds h

not_before : (maxt : Option ℤ) (mint : ℤ) → not (starts_before maxt mint) ≡ true → From maxt mint
unfolding starts_before
not_before none mint e = tt
not_before (some p) mint e = ground arith

is-Beyond : (previous : Option ℕ) (r : ℕ) → not (not_above previous r) ≡ true → Beyond previous r
unfolding not_above
is-Beyond none r e = tt
is-Beyond (some p) r e = ground arith

abbrev Follows : Option ℤ → Option ℕ → Chunk → Type 0
Follows maxt reference c = WellFormed c × From maxt c.mint × Beyond reference c.reference

read_chunk-Ensures :
    (bytes : Bytes) (position : ℕ) (maxt : Option ℤ) (reference : Option ℕ)
    → Ensures (λ (c, after). Follows maxt reference c) (read_chunk bytes position maxt reference)
unfolding read_chunk
read_chunk-Ensures bytes position maxt reference =
    Ensures-bind (read_mint-Ensures bytes position maxt) λ (mint, after_mint) m.
      Ensures-bind (Ensures-of (λ _. Unit {0}) (read_uvarint bytes after_mint) (λ _ _. tt))
        λ (duration, size) _.
          Ensures-bind
            (Ensures-ok_or (λ d. i64_try_from duration ≡ some d) (i64_try_from duration) _
              (λ _ e. e))
            λ d p.
              Ensures-bind
                (Ensures-ok_or (λ z. IsI64 z × (mint ≤ℤ z)) (checked_add_i64 mint d) _
                  (λ z q. later_or_equal mint duration d z p q))
                λ end h.
                  Ensures-bind (read_reference-Ensures bytes (after_mint + size) reference)
                    λ (r, after) u.
                      Ensures-bind
                        (Ensures-ensure (not (starts_before maxt mint)) _ (not_before maxt mint))
                        λ _ f.
                          Ensures-bind
                            (Ensures-ensure (not (not_above reference r)) _ (is-Beyond reference r))
                            λ _ b. holds ((m.0, h.0, u, h.1), f, b)

read_chunks-Ensures :
    (bytes : Bytes) (count position : ℕ) (maxt : Option ℤ) (reference : Option ℕ)
    → Ensures
        (λ (cs, after). Ordered maxt reference cs × (length cs ≡ count))
        (read_chunks bytes count position maxt reference)
unfolding read_chunks
read_chunks-Ensures bytes zero position maxt reference = holds (tt, refl)
read_chunks-Ensures bytes (suc count) position maxt reference =
    Ensures-bind (read_chunk-Ensures bytes position maxt reference) λ (c, after) h.
      Ensures-bind (read_chunks-Ensures bytes count after (some c.maxt) (some c.reference))
        λ (cs, end) t. holds ((h.0, h.1, h.2, t.0), ap suc t.1)

insert_new-Ensures :
    (name value : Text) (labels : Labels)
    → Sorted labels
    → Ensures (λ new. Sorted new × (length new ≡ length labels + 1)) (insert_new name value labels)
unfolding insert_new
insert_new-Ensures name value labels s = elim (Option-cases (lookup name labels)) [
  | inl e ↦
      rw (e, insert_new)
        (holds (Sorted-insert name value labels s, length-insert name value labels e))
  | inr (old, e) ↦ rw (e, insert_new) rejected
]

read_labels-Ensures :
    (symbols : List Text) (bytes : Bytes) (count position : ℕ) (labels : Labels)
    → Sorted labels
    → Ensures
        (λ (all, after). Sorted all × (length all ≡ length labels + count))
        (read_labels symbols bytes count position labels)
unfolding read_labels
read_labels-Ensures symbols bytes zero position labels s = holds (s, omega arith)
read_labels-Ensures symbols bytes (suc count) position labels s =
    Ensures-bind (Ensures-of (λ _. Unit {0}) (read_uvarint bytes position) (λ _ _. tt))
      λ (name_ref, name_size) _.
        Ensures-bind
          (Ensures-of (λ _. Unit {0}) (read_uvarint bytes (position + name_size)) (λ _ _. tt))
          λ (value_ref, value_size) _.
            Ensures-bind (Ensures-of (λ _. Unit {0}) (symbol symbols name_ref) (λ _ _. tt))
              λ name _.
                Ensures-bind (Ensures-of (λ _. Unit {0}) (symbol symbols value_ref) (λ _ _. tt))
                  λ value _. Ensures-bind (insert_new-Ensures name value labels s) λ new h.
                    Ensures-mono (λ (all, after) t. (t.0, omega (arith, h.1, t.1)))
                      (read_labels-Ensures symbols bytes count (position + name_size + value_size)
                        new h.0)

-- What is known of a series that was parsed.
abbrev pub Parsed : ℕ → Series → Type 0
Parsed reference s = Ordered none none s.chunks × Sorted s.labels × (s.reference ≡ reference)

parse_series-Ensures :
    (bytes : Bytes) (reference : ℕ) (symbols : List Text)
    → Ensures (Parsed reference) (parse_series bytes reference symbols)
unfolding parse_series
parse_series-Ensures bytes reference symbols =
    Ensures-bind (Ensures-of (λ _. Unit {0}) (read_uvarint bytes 0) (λ _ _. tt))
      λ (label_count, label_size) _.
        Ensures-bind (read_labels-Ensures symbols bytes label_count label_size [] tt)
          λ (labels, after_labels) l.
            Ensures-bind (Ensures-of (λ _. Unit {0}) (read_uvarint bytes after_labels) (λ _ _. tt))
              λ (chunk_count, count_size) _.
                Ensures-bind (Ensures-of (λ _. Unit {0}) (reserve_chunks chunk_count) (λ _ _. tt))
                  λ _ _.
                    Ensures-bind
                      (read_chunks-Ensures bytes chunk_count (after_labels + count_size) none none)
                      λ (chunks, position) c.
                        Ensures-bind
                          (Ensures-ensure {P = Unit {0}} (position == length bytes) _ (λ _. tt))
                          λ _ _. holds (c.0, l.0, refl)

-- In every series that `parse_series` returns the chunks are well formed and in order of time and
-- reference, the labels are sorted and the reference is the one that was given.
pub parse_series-Ordered :
    (bytes : Bytes) (reference : ℕ) (symbols : List Text) (s : Series)
    → parse_series bytes reference symbols ≡ ok s
    → Ordered none none s.chunks × Sorted s.labels × (s.reference ≡ reference)
parse_series-Ordered bytes reference symbols s =
    Ensures-eq-ok (parse_series-Ensures bytes reference symbols)
