-- ===== src/Prelude/Assoc.antt =====
-- A hash map as an association list. An entry is found by the first pair with its key; `insert`
-- keeps the place of a key that is there.
use mathlib.Core.Path.{ap}
use t1_waf.Prelude.Texts.{Eq}
use t1_waf.Prelude.Tests.{if◌then◌else◌}
use t1_waf.Prelude.Lists.{length}
use Prim.Native.Nat.{suc, ◌≤◌}
use mathlib.Core.Path.{◌≡◌, refl}
use mathlib.Core.Logic.{◌≢◌}
use mathlib.Core.Bool.{Bool, true, false}
use mathlib.Core.Option.{Option, none, some}
use mathlib.Core.List.{List, [], ◌∷◌}
use native.Mathlib.Omega.{arith}

abbrev pub is_some {ℓ} : {A : Type ℓ} → Option A → Bool
is_some none = false
is_some (some _) = true

abbrev pub or_else {ℓ} : {A : Type ℓ} → Option A → A → A
or_else none d = d
or_else (some a) d = a

module _ {ℓ κ} {K : Type ℓ} {V : Type κ} ⦃e : Eq K⦄ where
  unfoldable pub lookup : K → List (K × V) → Option V
  lookup k [] = none
  lookup k ((j, v) ∷ m) = if e.beq j k then some v else lookup k m

  unfoldable pub insert : K → V → List (K × V) → List (K × V)
  insert k v [] = (k, v) ∷ []
  insert k v ((j, w) ∷ m) = if e.beq j k then (j, v) ∷ m else (j, w) ∷ insert k v m

  unfoldable pub remove : K → List (K × V) → List (K × V)
  remove k [] = []
  remove k ((j, w) ∷ m) = if e.beq j k then remove k m else (j, w) ∷ remove k m

  abbrev pub contains_key : K → List (K × V) → Bool
  contains_key k m = is_some (lookup k m)

  pub lookup-insert :
      (k j : K) (v : V) (m : List (K × V))
      → lookup j (insert k v m) ≡ (if e.beq k j then some v else lookup j m)
  unfolding lookup insert
  lookup-insert k j v [] = refl
  lookup-insert k j v ((i, w) ∷ m) =
      ground (arith, e.beq_iff k j, e.beq_iff i k, e.beq_iff i j, lookup-insert k j v m)

  pub lookup-insert_self : (k : K) (v : V) (m : List (K × V)) → lookup k (insert k v m) ≡ some v
  lookup-insert_self k v m = ground (arith, lookup-insert k k v m, e.beq_iff k k)

  pub lookup-insert_ne :
      (k j : K) (v : V) (m : List (K × V)) → k ≢ j → lookup j (insert k v m) ≡ lookup j m
  lookup-insert_ne k j v m h = ground (arith, lookup-insert k j v m, e.beq_iff k j)

  -- A key that is there is overwritten in its place; a new one takes one more entry.
  pub length-insert :
      (k : K) (v : V) (m : List (K × V))
      → length (insert k v m) ≡ (if contains_key k m then length m else suc (length m))
  unfolding insert lookup
  length-insert k v [] = refl
  length-insert k v ((i, w) ∷ m) = ground (arith, length-insert k v m)

-- `retain`: the entries that pass the test.
module _ {ℓ κ} {K : Type ℓ} {V : Type κ} (p : K → V → Bool) where
  unfoldable pub retain : List (K × V) → List (K × V)
  retain [] = []
  retain ((k, v) ∷ m) = if p k v then (k, v) ∷ retain m else retain m

  pub length-retain-le : (m : List (K × V)) → length (retain m) ≤ length m
  unfolding retain
  length-retain-le [] = omega arith
  length-retain-le ((k, v) ∷ m) = ground (arith, length-retain-le m)

-- No key stands twice.
module _ {ℓ κ} {K : Type ℓ} {V : Type κ} ⦃e : Eq K⦄ where
  abbrev pub Distinct : List (K × V) → Type κ
  Distinct [] = Unit
  Distinct ((k, v) ∷ m) = (lookup k m ≡ none) × Distinct m

  pub insert-Distinct : (k : K) (v : V) (m : List (K × V)) → Distinct m → Distinct (insert k v m)
  unfolding insert lookup
  insert-Distinct k v [] d = (refl, tt)
  insert-Distinct k v ((j, w) ∷ m) d =
      ground (arith, e.beq_iff j k, e.beq_iff k j, lookup-insert k j v m, insert-Distinct k v m d.1)

  module _ (p : K → V → Bool) where
    lookup-retain-none :
        (k : K) (m : List (K × V)) → lookup k m ≡ none → lookup k (retain p m) ≡ none
    unfolding lookup retain
    lookup-retain-none k [] h = refl
    lookup-retain-none k ((j, w) ∷ m) h = ground (arith, lookup-retain-none k m)

    -- What `retain` leaves of a map is what passes the test.
    pub lookup-retain :
        (k : K) (m : List (K × V))
        → Distinct m
        → lookup k (retain p m)
          ≡ elim (lookup k m) [ none ↦ none | some v ↦ if p k v then some v else none ]
    unfolding lookup retain
    lookup-retain k [] d = refl
    lookup-retain k ((j, w) ∷ m) d =
        ground (
          arith,
          e.beq_iff j k,
          lookup-retain k m d.1,
          lookup-retain-none k m,
          ap (λ i. lookup i m),
        )

    pub retain-Distinct : (m : List (K × V)) → Distinct m → Distinct (retain p m)
    unfolding lookup retain
    retain-Distinct [] d = tt
    retain-Distinct ((j, w) ∷ m) d =
        ground (arith, lookup-retain-none j m d.0, retain-Distinct m d.1)
