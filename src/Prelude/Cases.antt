-- ===== src/Prelude/Cases.antt =====
-- A property of a branching term holds if it holds of each branch, under what the branch has found.
use t1_waf.Prelude.Tests.{if◌then◌else◌}
use mathlib.Core.Path.{◌≡◌, refl}
use mathlib.Core.Logic.{◌⊎◌, inl, inr}
use mathlib.Core.Bool.{Bool, true, false}
use mathlib.Core.List.{List, [], ◌∷◌}
use mathlib.Core.Option.{Option, none, some}

pub if-ind {ℓ ℓ'} :
    {A : Type ℓ} (P : A → Type ℓ') (b : Bool) {x y : A}
    → (b ≡ true → P x)
    → (b ≡ false → P y)
    → P (if b then x else y)
if-ind P true f g = f refl
if-ind P false f g = g refl

-- the same for a split on a Boolean
pub bool-ind {ℓ ℓ'} :
    {A : Type ℓ} (P : A → Type ℓ') (b : Bool) {x y : A}
    → (b ≡ true → P x)
    → (b ≡ false → P y)
    → P (elim b [ true ↦ x | false ↦ y ])
bool-ind P true f g = f refl
bool-ind P false f g = g refl

pub option-ind {ℓ ℓ'} :
    {A : Type ℓ} {B : Type ℓ'} (P : B → Type ℓ') (o : Option A) {n : B} {s : A → B}
    → (o ≡ none → P n)
    → ((a : A) → o ≡ some a → P (s a))
    → P (elim o [ none ↦ n | some a ↦ s a ])
option-ind P none f g = f refl
option-ind P (some a) f g = g a refl

pub list-ind {ℓ ℓ'} :
    {A : Type ℓ} {B : Type ℓ'} (P : B → Type ℓ') (xs : List A) {n : B} {c : A → List A → B}
    → (xs ≡ [] → P n)
    → ((y : A) (ys : List A) → xs ≡ y ∷ ys → P (c y ys))
    → P (elim xs [ [] ↦ n | y ∷ ys ↦ c y ys ])
list-ind P [] f g = f refl
list-ind P (y ∷ ys) f g = g y ys refl

pub sum-ind {ℓ ℓ' ℓ''} :
    {A : Type ℓ} {B : Type ℓ'} {C : Type ℓ''} (P : C → Type 0) (x : A ⊎ B) {l : A → C} {r : B → C}
    → ((a : A) → x ≡ inl a → P (l a))
    → ((b : B) → x ≡ inr b → P (r b))
    → P (elim x [ inl a ↦ l a | inr b ↦ r b ])
sum-ind P (inl a) f g = f a refl
sum-ind P (inr b) f g = g b refl

-- the same for two tests of one value
pub option-ind2 {ℓ ℓ' κ} :
    {A : Type ℓ} {B : Type ℓ'} {C : Type κ} (P : B → C → Type κ) (o : Option A) {n : B} {n' : C}
    {f : A → B} {g : A → C}
    → (o ≡ none → P n n')
    → ((x : A) → o ≡ some x → P (f x) (g x))
    → P (elim o [ none ↦ n | some x ↦ f x ]) (elim o [ none ↦ n' | some x ↦ g x ])
option-ind2 P none f g = f refl
option-ind2 P (some x) f g = g x refl

pub list-ind2 {ℓ ℓ' κ} :
    {A : Type ℓ} {B : Type ℓ'} {C : Type κ} (P : B → C → Type κ) (xs : List A) {n : B} {n' : C}
    {f : A → List A → B} {g : A → List A → C}
    → (xs ≡ [] → P n n')
    → ((y : A) (ys : List A) → xs ≡ y ∷ ys → P (f y ys) (g y ys))
    → P (elim xs [ [] ↦ n | y ∷ ys ↦ f y ys ]) (elim xs [ [] ↦ n' | y ∷ ys ↦ g y ys ])
list-ind2 P [] f g = f refl
list-ind2 P (y ∷ ys) f g = g y ys refl

pub if-ind2 {ℓ ℓ' κ} :
    {B : Type ℓ} {C : Type ℓ'} (P : B → C → Type κ) (b : Bool) {x y : B} {x' y' : C}
    → (b ≡ true → P x x')
    → (b ≡ false → P y y')
    → P (if b then x else y) (if b then x' else y')
if-ind2 P true f g = f refl
if-ind2 P false f g = g refl
