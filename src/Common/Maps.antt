-- ===== src/Common/Maps.antt =====
-- `BTreeMap<String, V>` as an association list in key order, and `BTreeSet<String>`.
use mathlib.Core.Path.{◌≡◌, refl}
use mathlib.Core.Bool.{true}
use mathlib.Core.Option.{Option, none, some}
use mathlib.Core.List.{List, [], ◌∷◌, map}
use native.Mathlib.Omega.{arith}
use Prim.Native.Nat.{◌+◌}
use thanos_datafusion_experi.Common.Lists.{length}
use thanos_datafusion_experi.Common.Tests.{if◌then◌else◌}
use thanos_datafusion_experi.Common.Text.{
  Text, text_eq, text_ltb, text_eq_iff, text_ltb_trans, text_ltb_total,
}

abbrev pub TextMap {ℓ} : Type ℓ → Type ℓ
TextMap V = List (Text × V)

abbrev pub Labels : Type 0
Labels = TextMap Text

module _ {ℓ} {V : Type ℓ} where
  -- `map.get(k).cloned()`
  unfoldable pub lookup : Text → TextMap V → Option V
  lookup k [] = none
  lookup k ((j, v) ∷ m) = if text_eq j k then some v else lookup k m

  -- `map.insert(k, v)`
  unfoldable pub insert : Text → V → TextMap V → TextMap V
  insert k v [] = (k, v) ∷ []
  insert k v ((j, w) ∷ m) =
      if text_eq j k
      then (k, v) ∷ m
      else if text_ltb k j
      then (k, v) ∷ (j, w) ∷ m
      else (j, w) ∷ insert k v m

  pub lookup-insert :
      (k j : Text) (v : V) (m : TextMap V)
      → lookup j (insert k v m) ≡ (if text_eq k j then some v else lookup j m)
  unfolding lookup insert
  lookup-insert k j v [] = refl
  lookup-insert k j v ((i, w) ∷ m) =
      ground (arith, text_eq_iff k j, text_eq_iff i k, text_eq_iff i j, lookup-insert k j v m)

  -- Every key of the map lies above `k`.
  abbrev pub Above : Text → TextMap V → Type 0
  Above k [] = Unit {0}
  Above k ((j, w) ∷ m) = (text_ltb k j ≡ true) × Above k m

  -- Keys rise, so none is there twice.
  abbrev pub Sorted : TextMap V → Type 0
  Sorted [] = Unit {0}
  Sorted ((j, w) ∷ m) = Above j m × Sorted m

  Above-trans : (i j : Text) (m : TextMap V) → text_ltb i j ≡ true → Above j m → Above i m
  Above-trans i j [] h a = tt
  Above-trans i j ((k, w) ∷ m) h a = (text_ltb_trans i j k h a.0, Above-trans i j m h a.1)

  Above-insert :
      (i k : Text) (v : V) (m : TextMap V)
      → text_ltb i k ≡ true
      → Above i m
      → Above i (insert k v m)
  unfolding insert
  Above-insert i k v [] h a = (h, tt)
  Above-insert i k v ((j, w) ∷ m) h a = ground (arith, Above-insert i k v m h a.1)

  pub Sorted-insert : (k : Text) (v : V) (m : TextMap V) → Sorted m → Sorted (insert k v m)
  unfolding insert
  Sorted-insert k v [] s = (tt, tt)
  Sorted-insert k v ((j, w) ∷ m) s = ground (
    arith,
    text_eq_iff j k,
    text_ltb_total j k,
    text_ltb_total k j,
    Above-trans k j m,
    Above-insert j k v m,
    Sorted-insert k v m s.1,
  )

module _ {ℓ} {V : Type ℓ} where
  -- A key that is new adds one entry.
  pub length-insert :
      (k : Text) (v : V) (m : TextMap V) → lookup k m ≡ none → length (insert k v m) ≡ length m + 1
  unfolding lookup insert
  length-insert k v [] e = omega arith
  length-insert k v ((j, w) ∷ m) e = ground (arith, length-insert k v m)

abbrev pub keys {ℓ} : {V : Type ℓ} → TextMap V → List Text
keys m = map (λ e. e.0) m
