-- ===== src/Admin/Auth.antt =====
-- Nobody calls the dashboard's interface without its token.
use t1_waf.Prelude.{
  Text, text, nat_eq, text_eq, or_else, ==_iff, Bool-cases, Option-cases, length, set, drop, ◌≡◌,
  refl, ap, ◌∙◌, ◌⊎◌, inl, inr, true, false, some, [], ◌∷◌, ◌++◌, arith,
}
use t1_waf.Prelude.Assoc.{lookup}
use t1_waf.Prelude.Texts.{text_beq_iff}
use t1_waf.Strings.{starts_with}
use t1_waf.BotScore.{is_empty}
use t1_waf.Admin.{ParsedReq, auth_ok, strip_prefix}

starts_with_sound : (s p : Text) → starts_with s p ≡ true → s ≡ p ++ drop (length p) s
unfolding starts_with
starts_with_sound s [] h = refl
starts_with_sound [] (b ∷ p) h = absurd (ground arith)
starts_with_sound (a ∷ s) (b ∷ p) h =
    let same : a ≡ b = ground (arith, ==_iff a b) in
    rw same (ap (λ z. b ∷ z) (starts_with_sound s p (ground arith)))

strip_prefix_sound : (s p rest : Text) → strip_prefix s p ≡ some rest → s ≡ p ++ rest
unfolding strip_prefix
strip_prefix_sound s p rest h = elim (Bool-cases (starts_with s p)) [
  | inl starts ↦
      let got : drop (length p) s ≡ rest = ground arith in
      starts_with_sound s p starts ∙ ap (λ z. p ++ z) got
  | inr other ↦ absurd (ground arith)
]

abbrev header_of : ParsedReq → Text
header_of req = or_else (lookup (text "authorization") req.headers) []

-- If there is a token, a call that is let through shows it: in the header after "Bearer " or "bearer ",
-- or in the query.
pub auth_ok_sound :
    (req : ParsedReq) (token : Text)
    → is_empty token ≡ false
    → auth_ok req token ≡ true
    → (or_else (lookup (text "authorization") req.headers) [] ≡ text "Bearer " ++ token)
      ⊎ ((or_else (lookup (text "authorization") req.headers) [] ≡ text "bearer " ++ token)
          ⊎ (lookup (text "token") req.query ≡ some token))
unfolding auth_ok
auth_ok_sound req token set h =
    elim (Option-cases (strip_prefix (header_of req) (text "Bearer "))) [
      | inr (rest, found) ↦
          let same : rest ≡ token = ground (arith, text_beq_iff rest token) in
          inl (
            strip_prefix_sound (header_of req) (text "Bearer ") rest found
            ∙ ap (λ z. text "Bearer " ++ z) same)
      | inl no_upper ↦ elim (Option-cases (strip_prefix (header_of req) (text "bearer "))) [
        | inr (rest, found) ↦
            let same : rest ≡ token = ground (arith, text_beq_iff rest token) in
            inr (
              inl (
                strip_prefix_sound (header_of req) (text "bearer ") rest found
                ∙ ap (λ z. text "bearer " ++ z) same))
        | inl no_lower ↦ elim (Option-cases (lookup (text "token") req.query)) [
          | inl miss ↦ absurd (ground arith)
          | inr (t, found) ↦ inr (inr (found ∙ ap some (ground (arith, text_beq_iff t token))))
        ]
      ]
    ]
