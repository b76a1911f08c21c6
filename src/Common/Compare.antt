-- ===== src/Common/Compare.antt =====
-- Three-way comparison, as `Ord::cmp` of texts, of integers and of pairs gives it.
use Prim.Native.Nat.{Ordering}
use mathlib.Core.Path.{◌≡◌, refl, sym, ap, ◌∙◌}
use mathlib.Core.Bool.{true}
use mathlib.Core.Logic.{◌≢◌, ◌⊎◌, inl, inr}
use native.Mathlib.Omega.{arith}
use thanos_datafusion_experi.Common.Tests.{if◌then◌else◌}
use thanos_datafusion_experi.Common.Int.{ℤ, ltb_ℤ, eqb_ℤ}
use thanos_datafusion_experi.Common.Text.{
  Text, text_eq, text_ltb, text_eq_iff, text_ltb_irrefl, text_ltb_trans, text_ltb_total,
}

abbrev pub reverse : Ordering → Ordering
reverse Ordering.lt = Ordering.gt
reverse Ordering.eq = Ordering.eq
reverse Ordering.gt = Ordering.lt

abbrev pub then_with : Ordering → Ordering → Ordering
then_with Ordering.eq later = later
then_with Ordering.lt later = Ordering.lt
then_with Ordering.gt later = Ordering.gt

unfoldable pub text_cmp : Text → Text → Ordering
unfolding text_eq text_ltb
text_cmp s t =
    if text_ltb s t then Ordering.lt else if text_eq s t then Ordering.eq else Ordering.gt

pub not_gt :
    (x y : Ordering)
    → then_with x y ≢ Ordering.gt
    → (x ≡ Ordering.lt) ⊎ (x ≡ Ordering.eq) × (y ≢ Ordering.gt)
not_gt Ordering.lt y h = inl refl
not_gt Ordering.eq y h = inr (refl, h)
not_gt Ordering.gt y h = absurd (h refl)

unfoldable pub int_cmp : ℤ → ℤ → Ordering
int_cmp a b = if ltb_ℤ a b then Ordering.lt else if eqb_ℤ a b then Ordering.eq else Ordering.gt

-- Pairs, by the first part and then by the second.
abbrev pub pair_cmp :
    {A : Type 0} {B : Type 0} → (A → A → Ordering) → (B → B → Ordering) → A × B → A × B → Ordering
pair_cmp first second (a, b) (a', b') = then_with (first a a') (second b b')

-- What Rust asks of a comparison: that it is a total order.
pub record IsTotalOrder {A : Type 0} (cmp : A → A → Ordering) : Type 0 where
  pub flip : (a b : A) → cmp b a ≡ reverse (cmp a b)
  pub alike : (a b c : A) → cmp a b ≡ Ordering.eq → cmp a c ≡ cmp b c
  pub trans : (a b c : A) → cmp a b ≡ Ordering.lt → cmp b c ≡ Ordering.lt → cmp a c ≡ Ordering.lt

pub text_cmp-eq : (s t : Text) → text_cmp s t ≡ Ordering.eq → s ≡ t
unfolding text_cmp
text_cmp-eq s t e = (text_eq_iff s t).0 (ground arith)

pub text_cmp-lt : (s t : Text) → text_cmp s t ≡ Ordering.lt → text_ltb s t ≡ true
unfolding text_cmp
text_cmp-lt s t e = ground arith

pub text_cmp-IsTotalOrder : IsTotalOrder text_cmp
unfolding text_cmp
text_cmp-IsTotalOrder = record {
  flip = λ s t. ground (
    arith,
    text_eq_iff s t,
    text_eq_iff t s,
    text_ltb_irrefl s,
    text_ltb_trans s t s,
    text_ltb_total s t,
    text_ltb_total t s,
  );
  alike = λ s t u e. ap (λ x. text_cmp x u) (text_cmp-eq s t e);
  trans = λ s t u p q.
      let below = text_ltb_trans s t u (text_cmp-lt s t p) (text_cmp-lt t u q) in rw below refl;
}

pub int_cmp-eq : (a b : ℤ) → int_cmp a b ≡ Ordering.eq → a ≡ b
unfolding int_cmp
int_cmp-eq a b e = ground arith

pub int_cmp-lt : (a b : ℤ) → int_cmp a b ≡ Ordering.lt → ltb_ℤ a b ≡ true
unfolding int_cmp
int_cmp-lt a b e = ground arith

pub int_cmp-IsTotalOrder : IsTotalOrder int_cmp
unfolding int_cmp
int_cmp-IsTotalOrder = record {
  flip = λ a b. ground arith;
  alike = λ a b c e. ground arith;
  trans = λ a b c p q. ground arith;
}

-- Comparing by a part of the values.
pub by_part-IsTotalOrder :
    {A : Type 0} {B : Type 0} (part : A → B) (cmp : B → B → Ordering)
    → IsTotalOrder cmp
    → IsTotalOrder (λ (a b : A). cmp (part a) (part b))
by_part-IsTotalOrder part cmp o = record {
  flip = λ a b. o.flip (part a) (part b);
  alike = λ a b c. o.alike (part a) (part b) (part c);
  trans = λ a b c. o.trans (part a) (part b) (part c);
}

module _ {A : Type 0} {B : Type 0} (f : A → A → Ordering) (g : B → B → Ordering)
    (first : IsTotalOrder f) (second : IsTotalOrder g) where
  -- The second of two values is alike, seen from below.
  alike_right : (a b c : A) → f b c ≡ Ordering.eq → f a c ≡ f a b
  alike_right a b c e =
      first.flip c a ∙ ap reverse (sym (first.alike b c a e)) ∙ sym (first.flip b a)

  pair_flip : (p q : A × B) → pair_cmp f g q p ≡ reverse (pair_cmp f g p q)
  pair_flip (a, b) (a', b') = rw (first.flip a a', second.flip b b') (turned (f a a') (g b b'))
    where
      turned : (x y : Ordering) → then_with (reverse x) (reverse y) ≡ reverse (then_with x y)
      turned Ordering.lt y = refl
      turned Ordering.eq y = refl
      turned Ordering.gt y = refl

  both_eq : (x y : Ordering) → then_with x y ≡ Ordering.eq → (x ≡ Ordering.eq) × (y ≡ Ordering.eq)
  both_eq Ordering.lt y e = absurd (cc e)
  both_eq Ordering.eq y e = (refl, e)
  both_eq Ordering.gt y e = absurd (cc e)

  below :
      (x y : Ordering)
      → then_with x y ≡ Ordering.lt
      → (x ≡ Ordering.lt) ⊎ (x ≡ Ordering.eq) × (y ≡ Ordering.lt)
  below Ordering.lt y e = inl refl
  below Ordering.eq y e = inr (refl, e)
  below Ordering.gt y e = absurd (cc e)

  pair_alike :
      (p q r : A × B) → pair_cmp f g p q ≡ Ordering.eq → pair_cmp f g p r ≡ pair_cmp f g q r
  pair_alike (a, b) (a', b') (c, d) e =
      let (x, y) = both_eq (f a a') (g b b') e in
      rw (first.alike a a' c x, second.alike b b' d y) refl

  pair_trans :
      (p q r : A × B)
      → pair_cmp f g p q ≡ Ordering.lt
      → pair_cmp f g q r ≡ Ordering.lt
      → pair_cmp f g p r ≡ Ordering.lt
  pair_trans (a, b) (a', b') (c, d) p q = elim (below (f a a') (g b b') p) [
    | inl x ↦ elim (below (f a' c) (g b' d) q) [
      | inl y ↦ rw (first.trans a a' c x y) refl
      | inr (y, later) ↦ rw (alike_right a a' c y, x) refl
    ]
    | inr (x, here) ↦ elim (below (f a' c) (g b' d) q) [
      | inl y ↦ rw (first.alike a a' c x, y) refl
      | inr (y, later) ↦ rw (first.alike a a' c x, y, second.trans b b' d here later) refl
    ]
  ]

  pub pair_cmp-IsTotalOrder : IsTotalOrder (pair_cmp f g)
  pair_cmp-IsTotalOrder = record { flip = pair_flip; alike = pair_alike; trans = pair_trans }
