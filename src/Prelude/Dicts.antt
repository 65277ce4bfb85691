-- ===== src/Prelude/Dicts.antt =====
-- Dictionaries as lists of pairs in insertion order.
use mathlib.Core.Path.{◌≡◌}
use mathlib.Core.Bool.{false}
use mathlib.Core.Logic.{inl, inr}
use mathlib.Core.Option.{Option, none, some}
use mathlib.Core.List.{List, [], ◌∷◌, map}
use native.Mathlib.Omega.{arith}
use decision_memory.Prelude.Tests.{
  if◌then◌else◌, Bool-cases, ◌==◌, nat_eq, pair_eq, list_eq, ==_refl, Eq,
}

abbrev pub keys {ℓ κ} : {K : Type ℓ} {V : Type κ} → List (K × V) → List K
keys = map (λ p. p.0)

abbrev pub values {ℓ κ} : {K : Type ℓ} {V : Type κ} → List (K × V) → List V
values = map (λ p. p.1)

module _ {ℓ κ} {K : Type ℓ} {V : Type κ} ⦃e : Eq K⦄ where
  -- `d.get(key)`, and `d[key]` where a missing key is `none`.
  abbrev pub get : List (K × V) → K → Option V
  get [] key = none
  get ((k, v) ∷ d) key = if k == key then some v else get d key

  -- `d[key] = value`: a key keeps its place.
  abbrev pub put : List (K × V) → K → V → List (K × V)
  put [] key value = (key, value) ∷ []
  put ((k, v) ∷ d) key value = if k == key then (k, value) ∷ d else (k, v) ∷ put d key value

  pub get-put_same :
      (d : List (K × V)) (key : K) (value : V) → get (put d key value) key ≡ some value
  get-put_same [] key value = ground (arith, ==_refl key)
  get-put_same ((k, v) ∷ d) key value = ground (arith, get-put_same d key value)

  pub get-put_other :
      (d : List (K × V)) (key other : K) (value : V)
      → (key == other) ≡ false
      → get (put d key value) other ≡ get d other
  get-put_other [] key other value h = ground arith
  get-put_other ((k, v) ∷ d) key other value h = elim (Bool-cases (k == key)) [
    | inl same ↦ let e : k ≡ key = (e.beq_iff k key).0 same in ground arith
    | inr differs ↦ ground (arith, get-put_other d key other value h)
  ]
