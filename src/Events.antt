-- ===== src/Events.antt =====
-- crates/waf-core/src/events.rs: the ring of recent decisions, and the record that it keeps of one.
pub mod Ring
use t1_waf.Prelude.{
  Text, text, decimal, text_beq, nat_eq, text_eq, Eq, is_some, or_else, ltb, leb, ◌==◌,
  if◌then◌else◌, ltb→lt, lt→ltb, leb→le, le→leb, lt→leb_false, le→ltb_false, ==_iff, Bool-cases,
  Option-cases, length, get_elem?, set, length-append, length-set, get_elem?-set_self,
  get_elem?-set_ne, get_or, take, drop, replicate, take-append-drop, length-take, length-drop,
  length-replicate, length-map, u32_max, u64_mod, sat_add, add64, add32, ℕ, zero, suc, ◌+◌, ◌-◌,
  ◌*◌, ◌/◌, ◌%◌, ◌^◌, ◌≤◌, ◌<◌, min, max, ◌≡◌, refl, sym, ap, ◌∙◌, subst, ◌≢◌, ◌↔◌, ◌⊎◌, inl, inr,
  Bool, true, false, ◌&&◌, ◌||◌, not, Option, none, some, List, [], ◌∷◌, ◌++◌, map, arith, dec_lt,
  dec_le, ℕ_discrete,
}
use t1_waf.Prelude.Assoc.{lookup}
use t1_waf.Strings.{take_chars}
use t1_waf.Action.{Action}
use t1_waf.Decision.{DecisionReason, Decision}
use t1_waf.Request.{IpAddr, RequestCtx}
use mathlib.Core.List.{reverse}

pub record Event : Type 0 where
  pub ts_ms : ℕ
  pub request_id : Text
  pub ip : Text
  pub method : Text
  pub host : Text
  pub path : Text
  pub query : Text
  pub user_agent : Text
  pub country : Option Text
  pub action : Action
  pub status : ℕ
  pub score : ℕ
  pub rule_id : Option Text
  pub category : Option Text
  pub http_version : Text
  pub ja4h : Text
  pub reasons : List DecisionReason
  pub header_order : List Text
  pub headers : List (Text × Text)

pub record EventLog : Type 0 where
  pub inner : List Event
  pub cap : ℕ

abbrev pub default_cap : ℕ
default_cap = 500

-- `EventLog::with_capacity`
unfoldable pub with_capacity : ℕ → EventLog
with_capacity cap = record { inner = []; cap = cap }

-- the names whose values are blanked
unfoldable pub is_sensitive : Text → Bool
is_sensitive name =
    text_beq name (text "cookie")
    || (text_beq name (text "authorization")
        || (text_beq name (text "proxy-authorization")
            || (text_beq name (text "x-api-key") || text_beq name (text "x-auth-token"))))

-- three bullets in UTF-8
abbrev pub bullets : Text
bullets = 226 ∷ 128 ∷ 162 ∷ 226 ∷ 128 ∷ 162 ∷ 226 ∷ 128 ∷ 162 ∷ []

-- `redact_header` of events.rs, `redact` of engine.rs
unfoldable pub redact_header : Text → Text → Text
redact_header name value = if is_sensitive name then bullets else take_chars 256 value

-- the headers in their order of arrival, each with its redacted value
unfoldable pub shown_headers : List Text → List (Text × Text) → List (Text × Text)
shown_headers [] headers = []
shown_headers (n ∷ ns) headers =
    let rest = shown_headers ns headers in
    elim (lookup n headers) [ none ↦ rest | some v ↦ (n, redact_header n v) ∷ rest ]

abbrev pub first_reason : List DecisionReason → Option DecisionReason
first_reason [] = none
first_reason (r ∷ rs) = some r

-- the `Event` that `EventLog::record` builds; `ip_text` is the `to_string` of addresses
unfoldable pub event_of : (IpAddr → Text) → RequestCtx → Decision → ℕ → Event
event_of ip_text ctx d now_ms = record {
  ts_ms = now_ms;
  request_id = d.request_id;
  ip = ip_text ctx.client_ip;
  method = ctx.method;
  host = ctx.host;
  path = ctx.path;
  query = take_chars 192 ctx.query;
  user_agent = take_chars 192 ctx.user_agent;
  country = ctx.country;
  action = d.action;
  status = d.status;
  score = d.score;
  rule_id = elim (first_reason d.reasons) [ none ↦ none | some r ↦ some r.rule_id ];
  category = elim (first_reason d.reasons) [ none ↦ none | some r ↦ some r.category ];
  http_version = ctx.http_version;
  ja4h = ctx.ja4h;
  reasons = d.reasons;
  header_order = ctx.header_order;
  headers = shown_headers ctx.header_order ctx.headers;
}

-- the end of `EventLog::record`: the oldest event goes when the ring is full
unfoldable pub push : EventLog → Event → EventLog
push log ev = record log {
  inner = (if length log.inner == log.cap then drop 1 log.inner else log.inner) ++ (ev ∷ []);
}

-- `EventLog::recent`: newest first
unfoldable pub recent : EventLog → ℕ → List Event
recent log n = take n (reverse log.inner)

unfoldable pub newer : ℕ → List Event → List Event
newer since_ms [] = []
newer since_ms (e ∷ es) =
    let rest = newer since_ms es in if ltb since_ms e.ts_ms then e ∷ rest else rest

-- `EventLog::since`: oldest first
unfoldable pub since : EventLog → ℕ → ℕ → List Event
unfolding newer
since log since_ms max = take max (newer since_ms log.inner)
