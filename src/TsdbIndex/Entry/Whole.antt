-- ===== src/TsdbIndex/Entry/Whole.antt =====
-- `parse_series` reads back a whole entry body: labels by symbol references, then chunks.
use thanos_datafusion_experi.Common.{
  ℕ, ◌+◌, ◌-◌, ◌*◌, ◌^◌, ◌≤◌, ◌≡◌, refl, sym, ap, ◌∙◌, true, false, none, some, List, [], ◌∷◌, ◌++◌,
  append_assoc, append-nil, arith, ok, length, drop, get_elem?, length-append, le→leb, drop-append,
}
use native.Mathlib.Nat.{add-zero, add_assoc}
use thanos_datafusion_experi.Common.Int.{IsU64}
use thanos_datafusion_experi.Common.Text.{
  Bytes, Text, text_eq, text_ltb, text_eq_iff, text_ltb_irrefl, text_ltb_trans,
}
use thanos_datafusion_experi.Common.Maps.{Labels, Above, Sorted, lookup, insert}
use thanos_datafusion_experi.TsdbIndex.Reader.{symbol}
use thanos_datafusion_experi.TsdbIndex.Varint.{uvarint}
use thanos_datafusion_experi.TsdbIndex.Varint.RoundTrip.{read_uvarint-uvarint}
use thanos_datafusion_experi.TsdbIndex.Entry.{
  Chunk, insert_new, read_labels, reserve_chunks, parse_series,
}
use thanos_datafusion_experi.TsdbIndex.Entry.RoundTrip.{
  advance, put_chunks, Writable, read_chunks-put,
}

-- The symbol references of a label, name first.
abbrev pub Refs : Type 0
Refs = List (ℕ × ℕ)

abbrev pub put_refs : Refs → Bytes
put_refs [] = []
put_refs ((name, value) ∷ refs) = uvarint name ++ (uvarint value ++ put_refs refs)

-- `refs` points to the labels in the symbol table.
abbrev pub Denotes : List Text → Refs → Labels → Type 0
Denotes symbols [] [] = Unit {0}
Denotes symbols [] (l ∷ labels) = ⊥
Denotes symbols (r ∷ refs) [] = ⊥
Denotes symbols ((name_ref, value_ref) ∷ refs) ((name, value) ∷ labels) =
    IsU64 name_ref
    × IsU64 value_ref
    × (get_elem? symbols name_ref ≡ some name)
    × (get_elem? symbols value_ref ≡ some value)
    × Denotes symbols refs labels

Above-append :
    (j : Text) (m : Labels) (k v : Text) (rest : Labels)
    → Above j (m ++ (k, v) ∷ rest)
    → text_ltb j k ≡ true
Above-append j [] k v rest a = a.0
Above-append j ((i, w) ∷ m) k v rest a = Above-append j m k v rest a.1

ltb→ne : (j k : Text) → text_ltb j k ≡ true → (text_eq j k ≡ false) × (text_ltb k j ≡ false)
ltb→ne j k h =
    ground (arith, text_eq_iff j k, text_ltb_irrefl j, text_ltb_irrefl k, text_ltb_trans j k j)

-- A key beyond all others is new, and goes to the end.
insert_last :
    (m : Labels) (k v : Text) (rest : Labels)
    → Sorted (m ++ (k, v) ∷ rest)
    → (lookup k m ≡ none) × (insert k v m ≡ m ++ (k, v) ∷ [])
unfolding lookup insert
insert_last [] k v rest s = (refl, refl)
insert_last ((j, w) ∷ m) k v rest s =
    let (p, q) = insert_last m k v rest s.1 in
    let (ne, after) = ltb→ne j k (Above-append j m k v rest s.0) in
    (rw (ne, lookup) p, rw (ne, after, insert) (ap (λ t. (j, w) ∷ t) q))

read_labels-put :
    (symbols : List Text) (bytes : Bytes) (position : ℕ) (refs : Refs) (labels before : Labels)
    (rest : Bytes)
    → Denotes symbols refs labels
    → Sorted (before ++ labels)
    → drop position bytes ≡ put_refs refs ++ rest
    → read_labels symbols bytes (length refs) position before
      ≡ ok (before ++ labels, position + length (put_refs refs))
unfolding read_labels
read_labels-put symbols bytes position [] [] before rest d s e = rw (append-nil, add-zero)
read_labels-put symbols bytes position [] (l ∷ labels) before rest d s e = absurd d
read_labels-put symbols bytes position (r ∷ refs) [] before rest d s e = absurd d
read_labels-put symbols bytes position ((nr, vr) ∷ refs) ((name, value) ∷ labels) before rest d s
      e =
    let e₀ : drop position bytes ≡ uvarint nr ++ (uvarint vr ++ (put_refs refs ++ rest)) =
      e ∙ simp append_assoc in
    let e₁ = advance bytes position (uvarint nr) _ e₀ in
    let e₂ = advance bytes (position + length (uvarint nr)) (uvarint vr) _ e₁ in
    let (new, last) = insert_last before name value labels s in
    let s' : Sorted ((before ++ (name, value) ∷ []) ++ labels) = rw append_assoc s in
    rw
      (
        read_uvarint-uvarint bytes position nr _ d.0 e₀,
        read_uvarint-uvarint bytes (position + length (uvarint nr)) vr _ d.1 e₁,
        symbol,
        d.2,
        d.3,
        insert_new,
        new,
        last,
        read_labels-put symbols bytes (position + length (uvarint nr) + length (uvarint vr)) refs
            labels (before ++ (name, value) ∷ []) rest d.4 s' e₂,
      )
      (rw (append_assoc, length-append, length-append, add_assoc, add_assoc))

-- The body of an entry.
abbrev pub put_series : Refs → List Chunk → Bytes
put_series refs chunks =
    uvarint (length refs)
    ++ (put_refs refs ++ (uvarint (length chunks) ++ put_chunks none none chunks))

-- `parse_series` returns the reference, the labels and the chunks of every entry body that the
-- format can write: label names that rise and stand in the symbol table, chunks in order whose
-- differences fit 63 bits, and at most as many chunks as memory can address.
pub parse_series-put_series :
    (reference : ℕ) (symbols : List Text) (refs : Refs) (labels : Labels) (chunks : List Chunk)
    → Denotes symbols refs labels
    → Sorted labels
    → Writable none none chunks
    → IsU64 (length refs)
    → length chunks * 24 ≤ 2 ^ 63 - 1
    → parse_series (put_series refs chunks) reference symbols
      ≡ ok (record { reference = reference; labels = labels; chunks = chunks })
unfolding parse_series reserve_chunks
parse_series-put_series reference symbols refs labels chunks d s w small fits =
    let body = put_series refs chunks in
    let n₀ = uvarint (length refs) in
    let n₁ = uvarint (length chunks) in
    let e₁ : drop (length n₀) body ≡ put_refs refs ++ (n₁ ++ put_chunks none none chunks) =
      drop-append n₀ _ in
    let e₂ = advance body (length n₀) (put_refs refs) _ e₁ in
    let e₃ = advance body (length n₀ + length (put_refs refs)) n₁ _ e₂ ∙ sym (append-nil _) in
    let full : length n₀ + length (put_refs refs) + length n₁ + length (put_chunks none none chunks)
        ≡ length body =
      simp length-append (omega arith) in
    rw
      (
        read_uvarint-uvarint body 0 (length refs) _ small refl,
        read_labels-put symbols body (length n₀) refs labels [] _ d s e₁,
        read_uvarint-uvarint body (length n₀ + length (put_refs refs)) (length chunks) _
            (omega arith) e₂,
        le→leb _ _ fits,
        read_chunks-put body (length n₀ + length (put_refs refs) + length n₁) none none chunks [] w
            e₃,
      )
      (ground (arith, full))
