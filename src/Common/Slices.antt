-- ===== src/Common/Slices.antt =====
-- Ranges of lists: where they stand, and how they join.
use Prim.Native.Nat.{ℕ, zero, suc, ◌+◌, ◌-◌, ◌≤◌, ◌<◌}
use mathlib.Core.Path.{◌≡◌, refl, sym, ap, ◌∙◌}
use mathlib.Core.List.{List, [], ◌∷◌, ◌++◌}
use mathlib.Core.Option.{some}
use native.Mathlib.Omega.{arith}
use thanos_datafusion_experi.Common.Tests.{le→leb}
use thanos_datafusion_experi.Common.Lists.{
  length, take, drop, slice, get_range, length-take, length-drop, drop-append, take-append,
  drop-drop,
}

module _ {ℓ} {A : Type ℓ} where
  pub get_range_at :
      (xs : List A) (a b : ℕ) (ys zs : List A)
      → drop a xs ≡ ys ++ zs
      → b ≡ a + length ys
      → b ≤ length xs
      → get_range xs a b ≡ some ys
  get_range_at xs a b ys zs d e h =
      let size : b - a ≡ length ys = omega arith in
      rw (le→leb a b (omega arith), le→leb b (length xs) h, size, d, take-append ys zs)

  pub slice_start :
      (xs ys : List A) (k : ℕ) → slice (xs ++ ys) (length xs) (length xs + k) ≡ take k ys
  slice_start xs ys k =
      let e : length xs + k - length xs ≡ k = omega arith in rw (drop-append xs ys, e)

  pub slice_middle :
      (xs ys zs : List A) → slice (xs ++ (ys ++ zs)) (length xs) (length xs + length ys) ≡ ys
  slice_middle xs ys zs = slice_start xs (ys ++ zs) (length ys) ∙ take-append ys zs

  pub take_over :
      (n : ℕ) (xs ys : List A) → length xs < n → take n (xs ++ ys) ≡ xs ++ take (n - length xs) ys
  take_over zero xs ys h = absurd (omega arith)
  take_over (suc n) [] ys h = let e : suc n - 0 ≡ suc n = omega arith in rw e refl
  take_over (suc n) (x ∷ xs) ys h =
      let e : suc n - suc (length xs) ≡ n - length xs = omega arith in
      rw (take_over n xs ys (omega arith), e)

  pub take_none : (k : ℕ) → take {A = A} k [] ≡ []
  take_none zero = refl
  take_none (suc k) = refl

  pub drop-take : (a n : ℕ) (xs : List A) → drop a (take n xs) ≡ take (n - a) (drop a xs)
  drop-take zero n xs = let e : n - 0 ≡ n = omega arith in rw e refl
  drop-take (suc a) zero xs = let e : 0 - suc a ≡ 0 = omega arith in rw e refl
  drop-take (suc a) (suc n) [] = sym (take_none (suc n - suc a))
  drop-take (suc a) (suc n) (x ∷ xs) =
      let e : suc n - suc a ≡ n - a = omega arith in rw e (drop-take a n xs)

  pub take-take : (m n : ℕ) (xs : List A) → m ≤ n → take m (take n xs) ≡ take m xs
  take-take zero n xs h = refl
  take-take (suc m) zero xs h = absurd (omega arith)
  take-take (suc m) (suc n) [] h = refl
  take-take (suc m) (suc n) (x ∷ xs) h = rw (take-take m n xs (omega arith)) refl

  pub take-append-take : (m n : ℕ) (xs : List A) → take m xs ++ take n (drop m xs) ≡ take (m + n) xs
  take-append-take zero n xs = let e : 0 + n ≡ n = omega arith in rw e refl
  take-append-take (suc m) zero [] = let e : suc m + 0 ≡ suc m = omega arith in rw e refl
  take-append-take (suc m) (suc n) [] =
      let e : suc m + suc n ≡ suc (m + suc n) = omega arith in rw e refl
  take-append-take (suc m) n (x ∷ xs) =
      let e : suc m + n ≡ suc (m + n) = omega arith in rw (e, take-append-take m n xs) refl

  pub slice-slice :
      (xs : List A) (o e a b : ℕ) → o + b ≤ e → slice (slice xs o e) a b ≡ slice xs (o + a) (o + b)
  slice-slice xs o e a b h =
      let n : o + b - (o + a) ≡ b - a = omega arith in
      rw (drop-take a (e - o) (drop o xs), drop-drop o a xs, n)
        (take-take (b - a) (e - o - a) _ (omega arith))

  pub slice-append :
      (xs : List A) (a b c : ℕ) → a ≤ b → b ≤ c → slice xs a b ++ slice xs b c ≡ slice xs a c
  slice-append xs a b c h k =
      let n : b - a + (c - b) ≡ c - a = omega arith in
      let at_b : a + (b - a) ≡ b = omega arith in
      ap (λ ys. take (b - a) (drop a xs) ++ take (c - b) ys)
        (ap (λ (i : ℕ). drop i xs) (sym at_b) ∙ sym (drop-drop a (b - a) xs))
      ∙ take-append-take (b - a) (c - b) (drop a xs)
      ∙ ap (λ (i : ℕ). take i (drop a xs)) n

  pub length-slice : (xs : List A) (a b : ℕ) → b ≤ length xs → length (slice xs a b) ≡ b - a
  length-slice xs a b h = omega (arith, length-take (b - a) (drop a xs), length-drop a xs)
