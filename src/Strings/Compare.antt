-- ===== src/Strings/Compare.antt =====
-- The comparison of secrets that does not stop early decides equality.
use Prim.Native.Nat.{bit_or}
use t1_waf.Strings.{diff_from, ct_eq}
use t1_waf.Prelude.{
  Text, nat_eq, text_eq, ltb, ◌==◌, if◌then◌else◌, length, ℕ, zero, suc, ◌<◌, ◌≡◌, refl, ap, ◌↔◌,
  Bool, true, ◌&&◌, not, [], ◌∷◌, arith, ℕ_discrete,
}
use Prim.Native.Nat.{bit_xor}

all_below : ℕ → (ℕ → Bool) → Bool
all_below zero p = true
all_below (suc n) p = p n && all_below n p

all_below_lem : (n : ℕ) (p : ℕ → Bool) (x : ℕ) → all_below n p ≡ true → x < n → p x ≡ true
unfolding all_below
all_below_lem zero p x h lt = absurd (omega arith)
all_below_lem (suc n) p x h lt = ground (arith, all_below_lem n p x)

-- over all pairs of bytes: the exclusive or is a byte, and 0 only for equal ones
xor_table :
    all_below 256 (λ x.
      all_below 256
        (λ y. ltb (bit_xor x y) 256 && (if bit_xor x y == 0 then x == y else not (x == y))))
    ≡ true
unfolding all_below
xor_table = refl

or_table :
    all_below 256 (λ x. all_below 256 (λ y.
      ltb (bit_or x y) 256
      && (if bit_or x y == 0 then (x == 0) && (y == 0) else not ((x == 0) && (y == 0)))))
    ≡ true
unfolding all_below
or_table = refl

xor_byte : (x y : ℕ) → x < 256 → y < 256 → (bit_xor x y < 256) × ((bit_xor x y ≡ 0) ↔ (x ≡ y))
xor_byte x y hx hy =
    let row = all_below_lem 256 _ x xor_table hx in
    let cell = all_below_lem 256 _ y row hy in ground (arith, cell)

or_byte :
    (x y : ℕ) → x < 256 → y < 256 → (bit_or x y < 256) × ((bit_or x y ≡ 0) ↔ ((x ≡ 0) × (y ≡ 0)))
or_byte x y hx hy =
    let row = all_below_lem 256 _ x or_table hx in
    let cell = all_below_lem 256 _ y row hy in ground (arith, cell)

abbrev pub Bytes : Text → Type 0
Bytes [] = Unit
Bytes (a ∷ s) = (a < 256) × Bytes s

diff_from-zero :
    (d : ℕ) (a b : Text)
    → d < 256
    → Bytes a
    → Bytes b
    → length a ≡ length b
    → (diff_from d a b ≡ 0) ↔ ((d ≡ 0) × (a ≡ b))
unfolding diff_from
diff_from-zero d [] [] h p q e = ((λ z. (z, refl)), (λ z. z.0))
diff_from-zero d [] (y ∷ b) h p q e = absurd (omega arith)
diff_from-zero d (x ∷ a) [] h p q e = absurd (omega arith)
diff_from-zero d (x ∷ a) (y ∷ b) h p q e =
    let x' = xor_byte x y p.0 q.0 in
    let o' = or_byte d (bit_xor x y) h x'.0 in
    let rest = diff_from-zero (bit_or d (bit_xor x y)) a b o'.0 p.1 q.1 (omega arith) in
    ground (arith, x', o', rest)

-- On bytes the constant-time comparison accepts exactly equal texts.
pub ct_eq_iff : (a b : Text) → Bytes a → Bytes b → (ct_eq a b ≡ true) ↔ (a ≡ b)
unfolding ct_eq
ct_eq_iff a b p q = elim (ℕ_discrete (length a) (length b)) [
  | yes e ↦ ground (arith, diff_from-zero 0 a b (omega arith) p q e)
  | no ne ↦ ((λ h. absurd (ground arith)), (λ e. absurd (ne (ap length e))))
]
