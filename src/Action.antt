-- ===== src/Action.antt =====
-- `Action` of crates/waf-core/src/decision.rs: what the proxy does with a request.
pub data Action : Type 0 where
  allow challenge block tarpit : Action
