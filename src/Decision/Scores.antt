-- ===== src/Decision/Scores.antt =====
-- The score of a decision is the saturating sum of its reasons' scores.
use t1_waf.Prelude.{
  Text, nat_eq, text_eq, u32_max, ℕ, ◌+◌, ◌≤◌, min, ◌≡◌, refl, sym, ◌∙◌, List, [], ◌∷◌, ◌++◌, arith,
}
use t1_waf.Decision.{DecisionReason, Decision, allow, add_reason, add_reasons}
use mathlib.Core.List.{append-nil, append_assoc}

abbrev pub score_sum : List DecisionReason → ℕ
score_sum [] = 0
score_sum (r ∷ rs) = r.score + score_sum rs

pub add_reasons-append :
    (d : Decision) (rs ss : List DecisionReason)
    → add_reasons d (rs ++ ss) ≡ add_reasons (add_reasons d rs) ss
unfolding add_reasons
add_reasons-append d [] ss = refl
add_reasons-append d (r ∷ rs) ss = add_reasons-append (add_reason d r) rs ss

pub reasons-add_reasons :
    (d : Decision) (rs : List DecisionReason) → (add_reasons d rs).reasons ≡ d.reasons ++ rs
unfolding add_reasons
reasons-add_reasons d [] = sym (append-nil d.reasons)
reasons-add_reasons d (r ∷ rs) =
    reasons-add_reasons (add_reason d r) rs ∙ append_assoc d.reasons (r ∷ []) rs

pub score-add_reasons :
    (d : Decision) (rs : List DecisionReason)
    → d.score ≤ u32_max
    → (add_reasons d rs).score ≡ min (d.score + score_sum rs) u32_max
unfolding add_reasons
score-add_reasons d [] h = omega arith
score-add_reasons d (r ∷ rs) h = omega (arith, score-add_reasons (add_reason d r) rs (omega arith))

-- Reasons added one by one to a fresh decision stand in it in their order, leave its action, status
-- and id alone, and its score is the sum of theirs, capped at the largest `u32`.
pub allow-add_reasons :
    (id : Text) (rs : List DecisionReason)
    → ((add_reasons (allow id) rs).reasons ≡ rs)
      × ((add_reasons (allow id) rs).score ≡ min (score_sum rs) u32_max)
unfolding allow
allow-add_reasons id rs =
    (reasons-add_reasons _ rs, score-add_reasons _ rs (omega arith) ∙ omega arith)
