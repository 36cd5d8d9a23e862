-- ===== src/Decision.antt =====
-- `DecisionReason` and `Decision` of crates/waf-core/src/decision.rs, and the score constants of
-- crates/waf-core/src/score.rs.
pub mod Scores
use t1_waf.Prelude.{
  Text, text, decimal, text_beq, nat_eq, text_eq, Eq, is_some, or_else, ltb, leb, ◌==◌,
  if◌then◌else◌, ltb→lt, lt→ltb, leb→le, le→leb, lt→leb_false, le→ltb_false, ==_iff, Bool-cases,
  Option-cases, length, get_elem?, set, length-append, length-set, get_elem?-set_self,
  get_elem?-set_ne, get_or, take, drop, replicate, take-append-drop, length-take, length-drop,
  length-replicate, length-map, u32_max, u64_mod, sat_add, add64, add32, ℕ, zero, suc, ◌+◌, ◌-◌,
  ◌*◌, ◌/◌, ◌%◌, ◌^◌, ◌≤◌, ◌<◌, min, max, ◌≡◌, refl, sym, ap, ◌∙◌, subst, ◌≢◌, ◌↔◌, ◌⊎◌, inl, inr,
  Bool, true, false, ◌&&◌, ◌||◌, not, Option, none, some, List, [], ◌∷◌, ◌++◌, map, arith, dec_lt,
  dec_le, ℕ_discrete,
}
use t1_waf.Action
use t1_waf.Action.{Action}

pub record DecisionReason : Type 0 where
  pub rule_id : Text
  pub category : Text
  pub score : ℕ
  pub detail : Text

pub record Decision : Type 0 where
  pub action : Action
  pub status : ℕ
  pub score : ℕ
  pub reasons : List DecisionReason
  pub request_id : Text

-- `Decision::allow`
unfoldable pub allow : Text → Decision
allow request_id = record {
  action = Action.allow;
  status = 200;
  score = 0;
  reasons = [];
  request_id = request_id;
}

-- `Decision::block`
unfoldable pub block : Text → ℕ → DecisionReason → Decision
block request_id status reason = record {
  action = Action.block;
  status = status;
  score = reason.score;
  reasons = reason ∷ [];
  request_id = request_id;
}

-- `Decision::challenge`
unfoldable pub challenge : Text → ℕ → List DecisionReason → Decision
challenge request_id score reasons = record {
  action = Action.challenge;
  status = 403;
  score = score;
  reasons = reasons;
  request_id = request_id;
}

-- `Decision::tarpit`
unfoldable pub tarpit : Text → ℕ → List DecisionReason → Decision
tarpit request_id score reasons = record {
  action = Action.tarpit;
  status = 200;
  score = score;
  reasons = reasons;
  request_id = request_id;
}

-- `Decision::add_reason`
unfoldable pub add_reason : Decision → DecisionReason → Decision
add_reason d r = record d { score = sat_add d.score r.score; reasons = d.reasons ++ (r ∷ []) }

-- `for r in rs { d.add_reason(r) }`
unfoldable pub add_reasons : Decision → List DecisionReason → Decision
unfolding add_reason
add_reasons d [] = d
add_reasons d (r ∷ rs) = add_reasons (add_reason d r) rs

-- score.rs
abbrev pub score_rl_hit : ℕ
score_rl_hit = 30

abbrev pub score_bad_method : ℕ
score_bad_method = 100

abbrev pub score_oversize_uri : ℕ
score_oversize_uri = 100

abbrev pub score_oversize_head : ℕ
score_oversize_head = 100

abbrev pub score_oversize_body : ℕ
score_oversize_body = 100

abbrev pub score_deny_reputation : ℕ
score_deny_reputation = 100

abbrev pub score_geo_blocked : ℕ
score_geo_blocked = 100

abbrev pub score_geo_suspicious : ℕ
score_geo_suspicious = 15

abbrev pub score_sqli_high : ℕ
score_sqli_high = 80

abbrev pub score_xss_high : ℕ
score_xss_high = 80

abbrev pub score_traversal : ℕ
score_traversal = 70

abbrev pub score_cmdi : ℕ
score_cmdi = 80

abbrev pub score_lfi : ℕ
score_lfi = 70

abbrev pub score_bad_ua : ℕ
score_bad_ua = 60

abbrev pub score_missing_ua : ℕ
score_missing_ua = 10

abbrev pub score_missing_host : ℕ
score_missing_host = 100

abbrev pub score_suspicious_header : ℕ
score_suspicious_header = 25

abbrev pub score_headerless : ℕ
score_headerless = 20
