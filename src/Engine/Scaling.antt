-- ===== src/Engine/Scaling.antt =====
-- How the under-attack levels tighten the limits.
use t1_waf.Prelude.{
  nat_eq, text_eq, ℕ, ◌≤◌, ◌<◌, ◌≡◌, refl, ◌⊎◌, inl, inr, Bool, true, false, arith,
}
use t1_waf.Runtime.{Runtime, UamLevel, off, low, medium, high, extreme, from_u8}
use t1_waf.Engine.{
  UamParams, level_params, effective_level, uam_params, rate_scale, chal_t, block_t,
}

-- the `u8` of a level
unfoldable pub rank : UamLevel → ℕ
rank off = 0
rank low = 1
rank medium = 2
rank high = 3
rank extreme = 4

-- the second parameters are at least as strict as the first
pub record Stricter (p q : UamParams) : Type 0 where
  pub rate : q.rpm_scale_bps ≤ p.rpm_scale_bps
  pub challenges : p.challenge_drop ≤ q.challenge_drop
  pub blocks : p.block_drop ≤ q.block_drop
  pub forced : p.force_challenge ≡ true → q.force_challenge ≡ true
  pub capped : 0 < p.conn_cap_clamp → (0 < q.conn_cap_clamp) × (q.conn_cap_clamp ≤ p.conn_cap_clamp)

-- A higher level is stricter in every parameter: the scale of the rate limit and the two thresholds only
-- fall, a forced challenge stays forced, and a clamp on concurrent requests stays and only tightens.
pub level_params-Stricter :
    (l m : UamLevel) → rank l ≤ rank m → Stricter (level_params l) (level_params m)
unfolding rank level_params
level_params-Stricter off off h = record {
  rate = ground arith;
  challenges = ground arith;
  blocks = ground arith;
  forced = λ f. ground arith;
  capped = λ c. ground arith;
}
level_params-Stricter off low h = record {
  rate = ground arith;
  challenges = ground arith;
  blocks = ground arith;
  forced = λ f. ground arith;
  capped = λ c. ground arith;
}
level_params-Stricter off medium h = record {
  rate = ground arith;
  challenges = ground arith;
  blocks = ground arith;
  forced = λ f. ground arith;
  capped = λ c. ground arith;
}
level_params-Stricter off high h = record {
  rate = ground arith;
  challenges = ground arith;
  blocks = ground arith;
  forced = λ f. ground arith;
  capped = λ c. ground arith;
}
level_params-Stricter off extreme h = record {
  rate = ground arith;
  challenges = ground arith;
  blocks = ground arith;
  forced = λ f. ground arith;
  capped = λ c. ground arith;
}
level_params-Stricter low off h = absurd (ground arith)
level_params-Stricter low low h = record {
  rate = ground arith;
  challenges = ground arith;
  blocks = ground arith;
  forced = λ f. ground arith;
  capped = λ c. ground arith;
}
level_params-Stricter low medium h = record {
  rate = ground arith;
  challenges = ground arith;
  blocks = ground arith;
  forced = λ f. ground arith;
  capped = λ c. ground arith;
}
level_params-Stricter low high h = record {
  rate = ground arith;
  challenges = ground arith;
  blocks = ground arith;
  forced = λ f. ground arith;
  capped = λ c. ground arith;
}
level_params-Stricter low extreme h = record {
  rate = ground arith;
  challenges = ground arith;
  blocks = ground arith;
  forced = λ f. ground arith;
  capped = λ c. ground arith;
}
level_params-Stricter medium off h = absurd (ground arith)
level_params-Stricter medium low h = absurd (ground arith)
level_params-Stricter medium medium h = record {
  rate = ground arith;
  challenges = ground arith;
  blocks = ground arith;
  forced = λ f. ground arith;
  capped = λ c. ground arith;
}
level_params-Stricter medium high h = record {
  rate = ground arith;
  challenges = ground arith;
  blocks = ground arith;
  forced = λ f. ground arith;
  capped = λ c. ground arith;
}
level_params-Stricter medium extreme h = record {
  rate = ground arith;
  challenges = ground arith;
  blocks = ground arith;
  forced = λ f. ground arith;
  capped = λ c. ground arith;
}
level_params-Stricter high off h = absurd (ground arith)
level_params-Stricter high low h = absurd (ground arith)
level_params-Stricter high medium h = absurd (ground arith)
level_params-Stricter high high h = record {
  rate = ground arith;
  challenges = ground arith;
  blocks = ground arith;
  forced = λ f. ground arith;
  capped = λ c. ground arith;
}
level_params-Stricter high extreme h = record {
  rate = ground arith;
  challenges = ground arith;
  blocks = ground arith;
  forced = λ f. ground arith;
  capped = λ c. ground arith;
}
level_params-Stricter extreme off h = absurd (ground arith)
level_params-Stricter extreme low h = absurd (ground arith)
level_params-Stricter extreme medium h = absurd (ground arith)
level_params-Stricter extreme high h = absurd (ground arith)
level_params-Stricter extreme extreme h = record {
  rate = ground arith;
  challenges = ground arith;
  blocks = ground arith;
  forced = λ f. ground arith;
  capped = λ c. ground arith;
}

-- below the full rate, or off with the legacy flag down
scale_cases :
    (l : UamLevel) (b : Bool)
    → ((level_params (effective_level l b)).rpm_scale_bps < 10_000) ⊎ (b ≡ false)
unfolding level_params effective_level
scale_cases off true = inl (ground arith)
scale_cases off false = inr refl
scale_cases low b = inl (ground arith)
scale_cases medium b = inl (ground arith)
scale_cases high b = inl (ground arith)
scale_cases extreme b = inl (ground arith)

equal_drops : (l : UamLevel) → (level_params l).challenge_drop ≡ (level_params l).block_drop
unfolding level_params
equal_drops off = refl
equal_drops low = refl
equal_drops medium = refl
equal_drops high = refl
equal_drops extreme = refl

-- The rate that `POST /api/runtime` sets for the legacy flag is never used: whatever it is, the scale of
-- the rate limit is the same.
pub rate_scale-legacy :
    {Net : Type 0} (r : Runtime Net) (bps : ℕ)
    → rate_scale (record r { rpm_under_attack_bps = bps }) ≡ rate_scale r
unfolding rate_scale uam_params
rate_scale-legacy r bps = ground (arith, scale_cases (from_u8 r.uam_level) r.under_attack)

-- The validated thresholds stay in order at every level: no score is blocked before it is challenged.
pub chal_t-block_t :
    {Net : Type 0} (r : Runtime Net)
    → r.challenge_threshold < r.block_threshold
    → chal_t r ≤ block_t r
unfolding chal_t block_t uam_params
chal_t-block_t r h =
    ground (arith, equal_drops (effective_level (from_u8 r.uam_level) r.under_attack))
