-- ===== src/Tests/SortRuns.antt =====
-- Runs of the summary of block_index.rs, with an insertion sort for `sort_by`.
use Prim.Native.Nat.{Ordering}
use thanos_datafusion_experi.Common.{◌≡◌, ◌≢◌, refl, sym, ap, ◌∙◌, inl, inr, List, [], ◌∷◌, map}
use thanos_datafusion_experi.Common.Int.{pos}
use thanos_datafusion_experi.Common.Text.{codes, text_eq, text_ltb}
use thanos_datafusion_experi.Common.Compare.{
  IsTotalOrder, text_cmp, int_cmp, reverse, then_with, not_gt,
}
use thanos_datafusion_experi.BlockIndex.Meta.{BlockIndexRow, BuiltBlockIndex}
use thanos_datafusion_experi.BlockIndex.Build.{SortBy, row_cmp, summarize}
use thanos_datafusion_experi.BlockIndex.Build.Sorted.{Sorts, RowLe, summarize_rows}
use thanos_datafusion_experi.Tests.BuildRuns.{built, main_row}
use mathlib.Core.List.{Mem, Perm, Pairwise, forall_mem-cons, not-mem-nil}
use mathlib.Core.HLevel.{¬_prop}
use mathlib.Core.List.Perm

-- A row goes behind those that are smaller.
insert_row :
    (BlockIndexRow → BlockIndexRow → Ordering)
    → BlockIndexRow
    → List BlockIndexRow
    → List BlockIndexRow
insert_row cmp row [] = row ∷ []
insert_row cmp row (r ∷ rows) =
    let rest = insert_row cmp row rows in
    elim (cmp r row) [ Ordering.lt ↦ r ∷ rest | _ ↦ row ∷ r ∷ rows ]

sort_rows : SortBy
unfolding insert_row
sort_rows cmp [] = []
sort_rows cmp (row ∷ rows) = insert_row cmp row (sort_rows cmp rows)

module _ (cmp : BlockIndexRow → BlockIndexRow → Ordering) (total : IsTotalOrder cmp) where
  abbrev NotAbove : BlockIndexRow → BlockIndexRow → Type 0
  NotAbove a b = cmp a b ≢ Ordering.gt

  insert_row-perm :
      (row : BlockIndexRow) (rows : List BlockIndexRow)
      → Perm (insert_row cmp row rows) (row ∷ rows)
  unfolding insert_row
  insert_row-perm row [] = Perm.refl (row ∷ [])
  insert_row-perm row (r ∷ rows) = split (insert_row-perm row rows) (cmp r row)
    where
      split :
          Perm (insert_row cmp row rows) (row ∷ rows)
          → (o : Ordering)
          → Perm
              (elim o [ Ordering.lt ↦ r ∷ insert_row cmp row rows | _ ↦ row ∷ r ∷ rows ])
              (row ∷ r ∷ rows)
      split p Ordering.lt = Perm.trans (Perm.cons r p) (Perm.swap row r rows)
      split p Ordering.eq = Perm.refl (row ∷ r ∷ rows)
      split p Ordering.gt = Perm.refl (row ∷ r ∷ rows)

  sort_rows-perm : (rows : List BlockIndexRow) → Perm (sort_rows cmp rows) rows
  unfolding sort_rows
  sort_rows-perm [] = Perm.refl []
  sort_rows-perm (row ∷ rows) =
      Perm.trans (insert_row-perm row (sort_rows cmp rows)) (Perm.cons row (sort_rows-perm rows))

  NotAbove-trans : (a b c : BlockIndexRow) → NotAbove a b → NotAbove b c → NotAbove a c
  NotAbove-trans a b c h h' above = elim (not_gt (cmp a b) Ordering.eq (kept (cmp a b) h)) [
    | inl p ↦ elim (not_gt (cmp b c) Ordering.eq (kept (cmp b c) h')) [
      | inl q ↦ cc (total.trans a b c p q, above)
      | inr (q, _) ↦
          let same : cmp a c ≡ cmp a b =
            total.flip c a ∙ ap reverse (sym (total.alike b c a q)) ∙ sym (total.flip b a) in
          cc (same, p, above)
    ]
    | inr (p, _) ↦ h' (sym (total.alike a b c p) ∙ above)
  ]
    where
      kept : (o : Ordering) → o ≢ Ordering.gt → then_with o Ordering.eq ≢ Ordering.gt
      kept Ordering.lt h e = h e
      kept Ordering.eq h e = h e
      kept Ordering.gt h e = h refl

  below_all :
      (row r : BlockIndexRow) (rows : List BlockIndexRow)
      → NotAbove row r
      → ((b : BlockIndexRow) → Mem b rows → NotAbove r b)
      → (b : BlockIndexRow) → Mem b (r ∷ rows)
      → NotAbove row b
  below_all row r rows h below =
      (forall_mem-cons (λ b. ¬_prop)).1 (h, λ b m. NotAbove-trans row r b h (below b m))

  not_lt : (a b : BlockIndexRow) (o : Ordering) → cmp a b ≡ o → o ≢ Ordering.lt → NotAbove b a
  not_lt a b o e h above = h (sym e ∙ total.flip b a ∙ ap reverse above)

  insert_row-Pairwise :
      (row : BlockIndexRow) (rows : List BlockIndexRow)
      → Pairwise NotAbove rows
      → Pairwise NotAbove (insert_row cmp row rows)
  unfolding insert_row
  insert_row-Pairwise row [] h = Pairwise.cons (λ b m. absurd (not-mem-nil m)) Pairwise.nil
  insert_row-Pairwise row (r ∷ rows) (Pairwise.cons below rest) =
      split (insert_row-Pairwise row rows rest) (cmp r row) refl
    where
      front : cmp r row ≢ Ordering.lt → Pairwise NotAbove (row ∷ r ∷ rows)
      front h =
          Pairwise.cons (below_all row r rows (not_lt r row (cmp r row) refl h) below)
            (Pairwise.cons below rest)

      behind :
          Pairwise NotAbove (insert_row cmp row rows)
          → cmp r row ≡ Ordering.lt
          → Pairwise NotAbove (r ∷ insert_row cmp row rows)
      behind rest' e =
          Pairwise.cons
            (λ b m.
              (forall_mem-cons {p = NotAbove r} (λ b. ¬_prop)).1 ((λ above. cc (e, above)), below) b
                ((Perm.mem_iff (insert_row-perm row rows)).0 m))
            rest'

      split :
          Pairwise NotAbove (insert_row cmp row rows)
          → (o : Ordering) → cmp r row ≡ o
          → Pairwise NotAbove
              (elim o [ Ordering.lt ↦ r ∷ insert_row cmp row rows | _ ↦ row ∷ r ∷ rows ])
      split p Ordering.lt e = behind p e
      split p Ordering.eq e = front (λ h. cc (e, h))
      split p Ordering.gt e = front (λ h. cc (e, h))

  sort_rows-Pairwise : (rows : List BlockIndexRow) → Pairwise NotAbove (sort_rows cmp rows)
  unfolding sort_rows
  sort_rows-Pairwise [] = Pairwise.nil
  sort_rows-Pairwise (row ∷ rows) =
      insert_row-Pairwise row (sort_rows cmp rows) (sort_rows-Pairwise rows)

sort_rows-Sorts : Sorts sort_rows
sort_rows-Sorts = record {
  permutes = λ cmp rows total. sort_rows-perm cmp total rows;
  sorts = λ cmp rows total. sort_rows-Pairwise cmp total rows;
}

-- A block of the same repository that starts later.
abbrev later_row : BlockIndexRow
later_row = record main_row { min_time = pos 9; block_ulid = codes "01A" }

abbrev later_built : BuiltBlockIndex
later_built = record built { row = later_row }

rows_run : (summarize sort_rows (later_built ∷ built ∷ [])).0 ≡ main_row ∷ later_row ∷ []
unfolding summarize sort_rows insert_row row_cmp text_cmp int_cmp text_eq text_ltb
rows_run = refl

rows_example :
    Pairwise RowLe (summarize sort_rows (later_built ∷ built ∷ [])).0
    × Perm
        (summarize sort_rows (later_built ∷ built ∷ [])).0
        (map (λ b. b.row) (later_built ∷ built ∷ []))
rows_example = summarize_rows sort_rows sort_rows-Sorts (later_built ∷ built ∷ [])
