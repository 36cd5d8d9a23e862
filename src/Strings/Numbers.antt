-- ===== src/Strings/Numbers.antt =====
-- Decimal numbers: what `format!` prints, `parse` reads back.
use native.Mathlib.Nat.{pow-suc}
use t1_waf.Prelude.{
  Text, decimal, nat_eq, text_eq, ltb, ◌==◌, lt→ltb, le→ltb_false, Bool-cases, Option-cases,
  u64_mod, ℕ, zero, suc, ◌+◌, ◌/◌, ◌%◌, ◌^◌, ◌<◌, ◌≡◌, refl, ap, ◌∙◌, inl, inr, Bool, true, not,
  some, [], ◌∷◌, ◌++◌, arith, dec_lt, ℕ_discrete,
}
use t1_waf.Prelude.Texts.{decimal_from}
use t1_waf.Strings.{is_digit, all_bytes, digits_value, parse_u64, split_once}

pub all_digits-decimal_from :
    (f n : ℕ) (acc : Text)
    → all_bytes is_digit acc ≡ true
    → all_bytes is_digit (decimal_from f n acc) ≡ true
unfolding decimal_from
all_digits-decimal_from zero n acc h = h
all_digits-decimal_from (suc f) n acc h =
    ground (arith, all_digits-decimal_from f (n / 10) ((48 + n % 10) ∷ acc))

value-decimal_from :
    (f n : ℕ) (acc : Text) → n < 10 ^ f → digits_value 0 (decimal_from f n acc) ≡ digits_value n acc
unfolding decimal_from digits_value
value-decimal_from zero n acc h = ap (λ k. digits_value k acc) (omega arith)
value-decimal_from (suc f) n acc h = elim (dec_lt n 10) [
  | yes p ↦ rw (lt→ltb n 10 p) (ap (λ k. digits_value k acc) (omega arith))
  | no p ↦ rw (le→ltb_false n 10 (omega arith)) (
      value-decimal_from f (n / 10) ((48 + n % 10) ∷ acc) (omega (arith, pow-suc 10 f))
      ∙ ap (λ k. digits_value k acc) (omega arith))
]

abbrev IsCons : Text → Type 0
IsCons [] = ⊥
IsCons (_ ∷ _) = Unit

decimal_from-IsCons : (f n : ℕ) (acc : Text) → IsCons acc → IsCons (decimal_from f n acc)
unfolding decimal_from
decimal_from-IsCons zero n acc h = h
decimal_from-IsCons (suc f) n acc h = elim (Bool-cases (ltb n 10)) [
  | inl e ↦ rw e tt
  | inr e ↦ rw e (decimal_from-IsCons f (n / 10) ((48 + n % 10) ∷ acc) tt)
]

decimal-IsCons : (n : ℕ) → IsCons (decimal n)
unfolding decimal
decimal-IsCons n = elim (Bool-cases (ltb n 10)) [
  | inl e ↦ rw e tt
  | inr e ↦ rw e (decimal_from-IsCons 19 (n / 10) ((48 + n % 10) ∷ []) tt)
]

parse_u64-digits :
    (s : Text)
    → IsCons s
    → all_bytes is_digit s ≡ true
    → digits_value 0 s < u64_mod
    → parse_u64 s ≡ some (digits_value 0 s)
unfolding parse_u64
parse_u64-digits [] c h lt = absurd c
parse_u64-digits (d ∷ s) c h lt = ground arith

pub all_digits-decimal : (n : ℕ) → all_bytes is_digit (decimal n) ≡ true
unfolding decimal
all_digits-decimal n = all_digits-decimal_from 20 n [] refl

-- Every `u64` that is printed is read back as itself.
pub parse_u64-decimal : (n : ℕ) → n < u64_mod → parse_u64 (decimal n) ≡ some n
unfolding decimal digits_value
parse_u64-decimal n h =
    let v : digits_value 0 (decimal n) ≡ n = value-decimal_from 20 n [] (omega arith) in
    parse_u64-digits (decimal n) (decimal-IsCons n) (all_digits-decimal n) (rw v h) ∙ ap some v

-- The text in front of the first separator, when it has none itself.
pub split_once-append :
    (c : ℕ) (s t : Text)
    → all_bytes (λ a. not (a == c)) s ≡ true
    → split_once c (s ++ (c ∷ t)) ≡ some (s, t)
unfolding split_once
split_once-append c [] t h = ground arith
split_once-append c (a ∷ s) t h = ground (arith, split_once-append c s t)

pub all_bytes_mono :
    (p q : ℕ → Bool) (s : Text)
    → ((a : ℕ) → p a ≡ true → q a ≡ true)
    → all_bytes p s ≡ true
    → all_bytes q s ≡ true
all_bytes_mono p q [] f h = refl
all_bytes_mono p q (a ∷ s) f h = ground (arith, f a, all_bytes_mono p q s f)

-- What is split is the text.
pub split_once_sound : (c : ℕ) (s p q : Text) → split_once c s ≡ some (p, q) → s ≡ p ++ (c ∷ q)
unfolding split_once
split_once_sound c [] p q h = cc
split_once_sound c (a ∷ s) p q h = elim (Option-cases (split_once c s)) [
  | inl miss ↦ ground arith
  | inr (t, found) ↦ elim (ℕ_discrete a c) [
    | yes e ↦ ground arith
    | no ne ↦ ground (arith, split_once_sound c s t.0 t.1 found)
  ]
]
