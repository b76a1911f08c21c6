-- ===== src/TsdbIndex/Entry/RoundTrip.antt =====
-- `parse_series` reads back an entry body in the format of Prometheus.
use thanos_datafusion_experi.Common.{
  ℕ, ◌+◌, ◌-◌, ◌^◌, ◌<◌, ◌≡◌, refl, sym, ap, ◌∙◌, false, Option, none, some, List, [], ◌∷◌, ◌++◌,
  append_assoc, arith, ok, length, drop, length-append, drop-append, drop-drop,
}
use thanos_datafusion_experi.Common.Int.{
  ℤ, pos, pos_part, neg_part, ◌≤ℤ◌, ◌+ℤ◌, IsI64, IsU64, i64_try_from, u64_try_from, checked_add_i64,
}
use thanos_datafusion_experi.Common.Text.{Bytes}
use thanos_datafusion_experi.TsdbIndex.Varint.{uvarint, zigzag}
use thanos_datafusion_experi.TsdbIndex.Varint.RoundTrip.{read_uvarint-uvarint, read_varint-zigzag}
use thanos_datafusion_experi.TsdbIndex.Entry.{
  Chunk, read_mint, read_reference, starts_before, not_above, read_chunk, read_chunks,
}
use thanos_datafusion_experi.TsdbIndex.Entry.Order.{WellFormed}

-- `b - a`, for `a ≤ b`.
abbrev pub gap : ℤ → ℤ → ℕ
gap a b = pos_part b + neg_part a - (pos_part a + neg_part b)

-- How the fields of a chunk are written, given the end and the reference of the last one.
abbrev pub put_mint : Option ℤ → ℤ → Bytes
put_mint none mint = uvarint (zigzag mint)
put_mint (some maxt) mint = uvarint (gap maxt mint)

abbrev pub put_reference : Option ℕ → ℕ → Bytes
put_reference none reference = uvarint reference
put_reference (some previous) reference = uvarint (zigzag (pos (reference - previous)))

abbrev pub put_chunk : Option ℤ → Option ℕ → Chunk → Bytes
put_chunk maxt reference c =
    put_mint maxt c.mint ++ (uvarint (gap c.mint c.maxt) ++ put_reference reference c.reference)

abbrev pub put_chunks : Option ℤ → Option ℕ → List Chunk → Bytes
put_chunks maxt reference [] = []
put_chunks maxt reference (c ∷ cs) =
    put_chunk maxt reference c ++ put_chunks (some c.maxt) (some c.reference) cs

-- The format writes differences below 2 ^ 63.
abbrev pub Near : Option ℤ → ℤ → Type 0
Near none t = Unit {0}
Near (some lo) t = (lo ≤ℤ t) × (gap lo t < 2 ^ 63)

abbrev pub NearReference : Option ℕ → ℕ → Type 0
NearReference none r = Unit {0}
NearReference (some lo) r = (lo < r) × (r - lo < 2 ^ 63)

abbrev pub Writable : Option ℤ → Option ℕ → List Chunk → Type 0
Writable maxt reference [] = Unit {0}
Writable maxt reference (c ∷ cs) =
    WellFormed c
    × (gap c.mint c.maxt < 2 ^ 63)
    × Near maxt c.mint
    × NearReference reference c.reference
    × Writable (some c.maxt) (some c.reference) cs

add_gap :
    (a b : ℤ)
    → IsI64 b
    → a ≤ℤ b
    → gap a b < 2 ^ 63
    → (i64_try_from (gap a b) ≡ some (pos (gap a b))) × (checked_add_i64 a (pos (gap a b)) ≡ some b)
unfolding i64_try_from checked_add_i64
add_gap a b h le small = ground arith

-- Reading on behind what has been read.
pub advance :
    (bytes : Bytes) (position : ℕ) (front rest : Bytes)
    → drop position bytes ≡ front ++ rest
    → drop (position + length front) bytes ≡ rest
advance bytes position front rest e =
    sym (drop-drop position (length front) bytes)
    ∙ ap (drop (length front)) e
    ∙ drop-append front rest

read_mint-put :
    (bytes : Bytes) (position : ℕ) (maxt : Option ℤ) (mint : ℤ) (rest : Bytes)
    → IsI64 mint
    → Near maxt mint
    → drop position bytes ≡ put_mint maxt mint ++ rest
    → read_mint bytes position maxt ≡ ok (mint, position + length (put_mint maxt mint))
unfolding read_mint
read_mint-put bytes position none mint rest h n e =
    rw (read_varint-zigzag bytes position mint rest h e)
read_mint-put bytes position (some maxt) mint rest h n e =
    let (p, q) = add_gap maxt mint h n.0 n.1 in
    rw (read_uvarint-uvarint bytes position (gap maxt mint) rest (omega arith) e, p, q)

read_reference-put :
    (bytes : Bytes) (position : ℕ) (previous : Option ℕ) (reference : ℕ) (rest : Bytes)
    → IsU64 reference
    → NearReference previous reference
    → drop position bytes ≡ put_reference previous reference ++ rest
    → read_reference bytes position previous
      ≡ ok (reference, position + length (put_reference previous reference))
unfolding read_reference
read_reference-put bytes position none reference rest h n e =
    rw (read_uvarint-uvarint bytes position reference rest h e)
read_reference-put bytes position (some previous) reference rest h n e =
    rw (read_varint-zigzag bytes position (pos (reference - previous)) rest (omega arith) e, back)
  where
    back : u64_try_from (pos previous +ℤ pos (reference - previous)) ≡ some reference
    back = unfold u64_try_from ◌+ℤ◌ in ground arith

in_time : (maxt : Option ℤ) (mint : ℤ) → Near maxt mint → starts_before maxt mint ≡ false
unfolding starts_before
in_time none mint n = refl
in_time (some p) mint n = ground arith

rising : (previous : Option ℕ) (r : ℕ) → NearReference previous r → not_above previous r ≡ false
unfolding not_above
rising none r n = refl
rising (some p) r n = ground arith

read_chunk-put :
    (bytes : Bytes) (position : ℕ) (maxt : Option ℤ) (previous : Option ℕ) (c : Chunk)
    (rest : Bytes)
    → WellFormed c
    → gap c.mint c.maxt < 2 ^ 63
    → Near maxt c.mint
    → NearReference previous c.reference
    → drop position bytes ≡ put_chunk maxt previous c ++ rest
    → read_chunk bytes position maxt previous
      ≡ ok (c, position + length (put_chunk maxt previous c))
unfolding read_chunk
read_chunk-put bytes position maxt previous c rest w small near nearby e =
    let mint = put_mint maxt c.mint in
    let duration = uvarint (gap c.mint c.maxt) in
    let reference = put_reference previous c.reference in
    let e₀ : drop position bytes ≡ mint ++ (duration ++ (reference ++ rest)) =
      e ∙ simp append_assoc in
    let e₁ = advance bytes position mint _ e₀ in
    let e₂ = advance bytes (position + length mint) duration _ e₁ in
    let (p, q) = add_gap c.mint c.maxt w.1 w.3 small in
    rw
      (
        read_mint-put bytes position maxt c.mint _ w.0 near e₀,
        read_uvarint-uvarint bytes (position + length mint) (gap c.mint c.maxt) _ (omega arith) e₁,
        p,
        q,
        read_reference-put bytes (position + length mint + length duration) previous c.reference
            rest w.2 nearby e₂,
        in_time maxt c.mint near,
        rising previous c.reference nearby,
      )
      (ap (λ (n : ℕ). ok (c, n)) (simp length-append (omega arith)))

pub read_chunks-put :
    (bytes : Bytes) (position : ℕ) (maxt : Option ℤ) (previous : Option ℕ) (cs : List Chunk)
    (rest : Bytes)
    → Writable maxt previous cs
    → drop position bytes ≡ put_chunks maxt previous cs ++ rest
    → read_chunks bytes (length cs) position maxt previous
      ≡ ok (cs, position + length (put_chunks maxt previous cs))
unfolding read_chunks
read_chunks-put bytes position maxt previous [] rest w e = ap (λ (n : ℕ). ok ([], n)) (omega arith)
read_chunks-put bytes position maxt previous (c ∷ cs) rest w e =
    let front = put_chunk maxt previous c in
    let more = put_chunks (some c.maxt) (some c.reference) cs in
    let e₀ : drop position bytes ≡ front ++ (more ++ rest) = e ∙ append_assoc front more rest in
    let e₁ = advance bytes position front _ e₀ in
    rw
      (
        read_chunk-put bytes position maxt previous c _ w.0 w.1 w.2 w.3 e₀,
        read_chunks-put bytes (position + length front) (some c.maxt) (some c.reference) cs rest w.4
            e₁,
        length-append front more,
      )
      (ap (λ (n : ℕ). ok (c ∷ cs, n)) (omega arith))
