-- ===== src/Engine.antt =====
-- The state of `Engine` in crates/waf-core/src/engine.rs, and the parts of `evaluate` that read it
-- and do not change it. A request is evaluated at one instant: every clock that it reads says the same.
pub mod Pipeline
pub mod Scaling
pub mod Audit
pub mod Access
pub mod Outlawed
pub mod Traps
pub mod Steps
pub mod Frame
pub mod Cleared
use t1_waf.Prelude.{
  Text, text, decimal, text_beq, nat_eq, text_eq, Eq, is_some, or_else, ltb, leb, ◌==◌,
  if◌then◌else◌, ltb→lt, lt→ltb, leb→le, le→leb, lt→leb_false, le→ltb_false, ==_iff, Bool-cases,
  Option-cases, length, get_elem?, set, length-append, length-set, get_elem?-set_self,
  get_elem?-set_ne, get_or, take, drop, replicate, take-append-drop, length-take, length-drop,
  length-replicate, length-map, u32_max, u64_mod, sat_add, add64, add32, ℕ, zero, suc, ◌+◌, ◌-◌,
  ◌*◌, ◌/◌, ◌%◌, ◌^◌, ◌≤◌, ◌<◌, min, max, ◌≡◌, refl, sym, ap, ◌∙◌, subst, ◌≢◌, ◌↔◌, ◌⊎◌, inl, inr,
  Bool, true, false, ◌&&◌, ◌||◌, not, Option, none, some, List, [], ◌∷◌, ◌++◌, map, arith, dec_lt,
  dec_le, ℕ_discrete,
}
use t1_waf.Prelude.Assoc.{lookup, contains_key}
use t1_waf.Config.{LimitsCfg, GeoIpCfg}
use t1_waf.Strings.{contains, lowercase, uppercase, eq_ignore_case}
use t1_waf.Request.{IpAddr, RequestCtx}
use t1_waf.Decision.{
  DecisionReason, Decision, block, score_bad_method, score_oversize_uri, score_oversize_head,
  score_oversize_body, score_missing_host, score_missing_ua, score_headerless,
  score_suspicious_header, score_geo_blocked, score_geo_suspicious,
}
use t1_waf.Net.{NetApi}
use t1_waf.Crypto.{Crypto}
use t1_waf.Conns
use t1_waf.Conns.{Conns}
use t1_waf.RateLimit.{RateLimiter}
use t1_waf.Reputation.{Reputations}
use t1_waf.Subnet.{SubnetTracker}
use t1_waf.Challenge.{Challenger}
use t1_waf.Behavior.{F32, BehaviorTracker}
use t1_waf.Signature.{RequestReplay, DistributedUa}
use t1_waf.GoodBot.{KnownBot, Cache}
use t1_waf.Events.{EventLog, event_of, push}
use t1_waf.Storage.{Sink, submit}
use t1_waf.Runtime.{Runtime, UamLevel, off, low, medium, high, extreme, from_u8}
use t1_waf.Rules.{Scanners, Hit}
use t1_waf.BotScore.{reason, push_if, is_empty}

-- What the engine calls and the repository does not define, and two tables of the program: the bots of
-- `KNOWN_BOTS`, and the blocks of datacenter.rs as the `ipnet` crate parses them.
pub record Env : Type 1 where
  pub net : NetApi
  pub crypto : Crypto
  pub float : F32
  pub scanners : Scanners
  pub Regex : Type 0
  -- `Regex::is_match` for the routes of the rate limiter
  pub is_match : Regex → Text → Bool
  -- `AhoCorasick::is_match` on the suspicious user agents
  pub ua_match : List Text → Text → Bool
  -- `IpAddr::to_string`, and the format `{:?}` of strings
  pub ip_text : IpAddr → Text
  pub debug : Text → Text
  pub known_bots : List KnownBot
  pub datacenters : List net.Net

-- The engine, with the parts of its configuration that it reads. `rate_limited` is that counter of the
-- metrics; `lookups` are the reverse lookups that have been started.
pub record Engine (Net : Type 0) (Regex : Type 0) : Type 0 where
  pub limits : LimitsCfg
  pub geoip : GeoIpCfg
  pub auto_ban_duration_secs : ℕ
  pub suspicious_user_agents : List Text
  pub runtime : Runtime Net
  pub rate_limiter : RateLimiter Regex
  pub reputations : Reputations Net
  pub challenger : Challenger
  pub bic_secret : Text
  pub conns : Conns
  pub behavior : BehaviorTracker
  pub subnets : SubnetTracker
  pub honeypots : List Text
  pub replay : RequestReplay
  pub dist_ua : DistributedUa
  pub goodbot : Cache
  pub lookups : List (IpAddr × KnownBot)
  pub rate_limited : ℕ
  pub events : EventLog
  pub storage_sink : Option Sink

-- `UamParams`
pub record UamParams : Type 0 where
  pub force_challenge : Bool
  pub rpm_scale_bps : ℕ
  pub challenge_drop : ℕ
  pub block_drop : ℕ
  pub conn_cap_clamp : ℕ

-- the table of `uam_params`
unfoldable pub level_params : UamLevel → UamParams
level_params off = record {
  force_challenge = false;
  rpm_scale_bps = 10_000;
  challenge_drop = 0;
  block_drop = 0;
  conn_cap_clamp = 0;
}
level_params low = record {
  force_challenge = false;
  rpm_scale_bps = 7_500;
  challenge_drop = 5;
  block_drop = 5;
  conn_cap_clamp = 0;
}
level_params medium = record {
  force_challenge = true;
  rpm_scale_bps = 5_000;
  challenge_drop = 10;
  block_drop = 10;
  conn_cap_clamp = 0;
}
level_params high = record {
  force_challenge = true;
  rpm_scale_bps = 2_500;
  challenge_drop = 15;
  block_drop = 15;
  conn_cap_clamp = 50;
}
level_params extreme = record {
  force_challenge = true;
  rpm_scale_bps = 1_000;
  challenge_drop = 20;
  block_drop = 20;
  conn_cap_clamp = 25;
}

-- the legacy flag stands for the medium level if the level is off
unfoldable pub effective_level : UamLevel → Bool → UamLevel
effective_level off under_attack = if under_attack then medium else off
effective_level low under_attack = low
effective_level medium under_attack = medium
effective_level high under_attack = high
effective_level extreme under_attack = extreme

-- the format `{:?}` of the levels
unfoldable pub level_name : UamLevel → Text
level_name off = text "Off"
level_name low = text "Low"
level_name medium = text "Medium"
level_name high = text "High"
level_name extreme = text "Extreme"

module _ {Net : Type 0} where
  -- `uam_params`
  unfoldable pub uam_params : Runtime Net → UamParams
  uam_params r = level_params (effective_level (from_u8 r.uam_level) r.under_attack)

  -- `scale_bps` of step 5 of `evaluate`
  unfoldable pub rate_scale : Runtime Net → ℕ
  rate_scale r =
      if ltb (uam_params r).rpm_scale_bps 10_000
      then (uam_params r).rpm_scale_bps
      else if r.under_attack
      then r.rpm_under_attack_bps
      else 10_000

  -- the ceiling of step 3 of `evaluate`; 0 is no ceiling
  unfoldable pub conn_cap : Runtime Net → ℕ
  conn_cap r =
      if ltb 0 (uam_params r).conn_cap_clamp
      then min r.max_concurrent_per_ip (uam_params r).conn_cap_clamp
      else r.max_concurrent_per_ip

  -- the thresholds of step 8 of `evaluate`
  unfoldable pub block_t : Runtime Net → ℕ
  block_t r = r.block_threshold - (uam_params r).block_drop

  unfoldable pub chal_t : Runtime Net → ℕ
  chal_t r = r.challenge_threshold - (uam_params r).challenge_drop

unfoldable pub any_ignore_case : Text → List Text → Bool
any_ignore_case s [] = false
any_ignore_case s (t ∷ ts) = eq_ignore_case t s || any_ignore_case s ts

-- `headers.values().find(|v| v.len() > max)`
unfoldable pub find_longer : ℕ → List (Text × Text) → Option Text
find_longer max [] = none
find_longer max ((k, v) ∷ hs) = if ltb max (length v) then some v else find_longer max hs

-- the last test of `hard_limits`
unfoldable pub body_limit : LimitsCfg → RequestCtx → Option Decision
body_limit l ctx = elim ctx.content_length [
  | none ↦ none
  | some cl ↦
      if ltb l.max_body_bytes cl
      then some (
          block ctx.request_id 413 (
            reason (text "BODY-TOO-LARGE") (text "limit") score_oversize_body (
              text "len="
              ++ (decimal cl ++ (text "B max=" ++ (decimal l.max_body_bytes ++ text "B"))))))
      else none
]

-- `hard_limits`
unfoldable pub hard_limits : LimitsCfg → RequestCtx → Option Decision
hard_limits l ctx =
    if not (any_ignore_case ctx.method l.allowed_methods)
    then some (
        block ctx.request_id 405
          (reason (text "METHOD-DENIED") (text "method") score_bad_method ctx.method))
    else if ltb l.max_uri_bytes (length ctx.uri)
    then some (
        block ctx.request_id 414 (
          reason (text "URI-TOO-LONG") (text "limit") score_oversize_uri (
            text "uri="
            ++ (decimal (length ctx.uri)
                ++ (text "B max=" ++ (decimal l.max_uri_bytes ++ text "B"))))))
    else if ltb l.max_headers (length ctx.headers)
    then some (
        block ctx.request_id 431 (
          reason (text "TOO-MANY-HEADERS") (text "limit") score_oversize_head
            (text "count=" ++ decimal (length ctx.headers))))
    else elim (find_longer l.max_header_value_bytes ctx.headers) [
      | some v ↦ some (
          block ctx.request_id 431 (
            reason (text "HEADER-TOO-LONG") (text "limit") score_oversize_head
              (text "len=" ++ (decimal (length v) ++ text "B"))))
      | none ↦ body_limit l ctx
    ]

abbrev pub is_chunked : Option Text → Bool
is_chunked none = false
is_chunked (some v) = contains (lowercase v) (text "chunked")

-- `header_reasons`
unfoldable pub header_reasons : RequestCtx → List DecisionReason
header_reasons ctx =
    push_if (is_empty ctx.host)
      (reason (text "HDR-NO-HOST") (text "headers") score_missing_host (text "Host header missing"))
    ++ (push_if (is_empty ctx.user_agent)
          (reason (text "HDR-NO-UA") (text "headers") score_missing_ua (text "User-Agent missing"))
        ++ (push_if (ltb (length ctx.headers) 3) (
              reason (text "HDR-MINIMAL") (text "headers") score_headerless
                (text "only " ++ (decimal (length ctx.headers) ++ text " headers present")))
            ++ push_if
                (contains_key (text "content-length") ctx.headers
                  && is_chunked (lookup (text "transfer-encoding") ctx.headers))
                (reason (text "HDR-CL-TE") (text "smuggling") score_suspicious_header
                  (text "Content-Length + Transfer-Encoding: chunked"))))

-- `geoip_reason`; the list of the runtime comes first
unfoldable pub geoip_reason : List Text → GeoIpCfg → Option Text → Option DecisionReason
geoip_reason blocked cfg none = none
geoip_reason blocked cfg (some country) =
    let cc = uppercase country in
    if any_ignore_case cc blocked || any_ignore_case cc cfg.block_countries
    then some (reason (text "GEO-BLOCKED") (text "geoip") score_geo_blocked (text "country=" ++ cc))
    else if any_ignore_case cc cfg.suspicious_countries
    then some
        (reason (text "GEO-SUSPICIOUS") (text "geoip") score_geo_suspicious (text "country=" ++ cc))
    else none

module _ (env : Env) where
  open env use {net, Regex, ip_text, debug}

  -- `at_capacity`
  unfoldable pub at_capacity : Engine net.Net Regex → Bool
  at_capacity e =
      if e.runtime.global_inflight_cap == 0
      then false
      else leb e.runtime.global_inflight_cap (Conns.total e.conns)

  -- `hit_to_reason`
  unfoldable pub hit_to_reason : Hit → ℕ → DecisionReason
  hit_to_reason h score =
      reason h.rule_id h.category score
        (text "field=" ++ (h.matched_field ++ (text " excerpt=" ++ debug h.matched_excerpt)))

  -- `finalize`: the event goes to the ring, and to the store if there is one
  unfoldable pub finalize :
      Engine net.Net Regex → RequestCtx → Decision → ℕ → Engine net.Net Regex × Decision
  finalize e ctx d now_ms =
      let ev = event_of ip_text ctx d now_ms in
      (
        record e {
          events = push e.events ev;
          storage_sink = elim e.storage_sink [ none ↦ none | some s ↦ some (submit s ev) ];
        },
        d,
      )
