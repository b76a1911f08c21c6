-- ===== src/BlockIndex/Build/Sorted.antt =====
-- The rows of the block index that a build ends with, and their order.
use Prim.Native.Nat.{Ordering}
use thanos_datafusion_experi.Common.{◌≡◌, ◌≢◌, true, List, map, ◌⊎◌, inl, inr}
use thanos_datafusion_experi.Common.Int.{ltb_ℤ}
use thanos_datafusion_experi.Common.Text.{Text, text_ltb}
use thanos_datafusion_experi.Common.Compare.{
  text_cmp, int_cmp, pair_cmp, then_with, not_gt, text_cmp-eq, text_cmp-lt, int_cmp-eq, int_cmp-lt,
  IsTotalOrder, text_cmp-IsTotalOrder, int_cmp-IsTotalOrder, pair_cmp-IsTotalOrder,
  by_part-IsTotalOrder,
}
use thanos_datafusion_experi.BlockIndex.Meta.{BlockIndexRow, BuiltBlockIndex}
use mathlib.Core.List.{Perm, Pairwise}
use mathlib.Core.List.Pairwise
use thanos_datafusion_experi.BlockIndex.Build.{row_key, row_cmp, SortBy, summarize}

-- What std documents of `sort_by`: where the comparison is a total order, the result has the same
-- rows, and none of them is greater than one that stands behind it.
pub record Sorts (sort_by : SortBy) : Type 0 where
  pub permutes :
      (cmp : BlockIndexRow → BlockIndexRow → Ordering) (rows : List BlockIndexRow)
      → IsTotalOrder cmp
      → Perm (sort_by cmp rows) rows
  pub sorts :
      (cmp : BlockIndexRow → BlockIndexRow → Ordering) (rows : List BlockIndexRow)
      → IsTotalOrder cmp
      → Pairwise (λ a b. cmp a b ≢ Ordering.gt) (sort_by cmp rows)

row_cmp-IsTotalOrder : IsTotalOrder row_cmp
unfolding row_cmp
row_cmp-IsTotalOrder =
    by_part-IsTotalOrder row_key (pair_cmp text_cmp (pair_cmp int_cmp text_cmp)) (
      pair_cmp-IsTotalOrder text_cmp (pair_cmp int_cmp text_cmp) text_cmp-IsTotalOrder
        (pair_cmp-IsTotalOrder int_cmp text_cmp int_cmp-IsTotalOrder text_cmp-IsTotalOrder))

-- The order of the rows: by repository, then by the start of the block, then by the block.
abbrev pub RowLe : BlockIndexRow → BlockIndexRow → Type 0
RowLe a b =
    (text_ltb a.repository_name b.repository_name ≡ true)
    ⊎ (a.repository_name ≡ b.repository_name)
      × ((ltb_ℤ a.min_time b.min_time ≡ true)
          ⊎ (a.min_time ≡ b.min_time)
            × ((text_ltb a.block_ulid b.block_ulid ≡ true) ⊎ (a.block_ulid ≡ b.block_ulid)))

ulid_le : (s t : Text) → text_cmp s t ≢ Ordering.gt → (text_ltb s t ≡ true) ⊎ (s ≡ t)
ulid_le s t h = elim (not_gt (text_cmp s t) Ordering.eq (λ e. h (still (text_cmp s t) e))) [
  | inl x ↦ inl (text_cmp-lt s t x)
  | inr (x, h') ↦ inr (text_cmp-eq s t x)
]
  where
    still : (x : Ordering) → then_with x Ordering.eq ≡ Ordering.gt → x ≡ Ordering.gt
    still Ordering.lt e = e
    still Ordering.eq e = absurd (cc e)
    still Ordering.gt e = e

row_cmp-RowLe : (a b : BlockIndexRow) → row_cmp a b ≢ Ordering.gt → RowLe a b
unfolding row_cmp
row_cmp-RowLe a b h = elim (not_gt (text_cmp a.repository_name b.repository_name) _ h) [
  | inl x ↦ inl (text_cmp-lt a.repository_name b.repository_name x)
  | inr (x, h') ↦ inr (
    text_cmp-eq a.repository_name b.repository_name x,
    elim (not_gt (int_cmp a.min_time b.min_time) _ h') [
      | inl y ↦ inl (int_cmp-lt a.min_time b.min_time y)
      | inr (y, h'') ↦
          inr (int_cmp-eq a.min_time b.min_time y, ulid_le a.block_ulid b.block_ulid h'')
    ],
  )
]

-- Where `sort_by` does what std documents of it, for any comparison that is a total order, the
-- block index has one row for each block that was built, and of two rows the earlier one has the
-- smaller repository name, or the same and the earlier minimum time, or both the same and a block
-- ULID that is not greater.
pub summarize_rows :
    (sort_by : SortBy)
    → Sorts sort_by
    → (built : List BuiltBlockIndex)
    → Pairwise RowLe (summarize sort_by built).0
      × Perm (summarize sort_by built).0 (map (λ b. b.row) built)
unfolding summarize
summarize_rows sort_by std built =
    let rows = map (λ b. b.row) built in
    (
      Pairwise.imp row_cmp-RowLe (std.sorts row_cmp rows row_cmp-IsTotalOrder),
      std.permutes row_cmp rows row_cmp-IsTotalOrder,
    )
