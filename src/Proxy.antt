-- ===== src/Proxy.antt =====
-- crates/waf-proxy/src/proxy.rs: what the proxy does around the engine. The HTTP session, the bodies of
-- pages and the upstream are Pingora's and not modelled; a request arrives as its `RequestCtx`.
pub mod Client
pub mod Pages
pub mod Balance
pub mod Endpoints
pub mod Inbound
use t1_waf.Prelude.{
  Text, text, decimal, text_beq, nat_eq, text_eq, Eq, is_some, or_else, ltb, leb, ◌==◌,
  if◌then◌else◌, ltb→lt, lt→ltb, leb→le, le→leb, lt→leb_false, le→ltb_false, ==_iff, Bool-cases,
  Option-cases, length, get_elem?, set, length-append, length-set, get_elem?-set_self,
  get_elem?-set_ne, get_or, take, drop, replicate, take-append-drop, length-take, length-drop,
  length-replicate, length-map, u32_max, u64_mod, sat_add, add64, add32, ℕ, zero, suc, ◌+◌, ◌-◌,
  ◌*◌, ◌/◌, ◌%◌, ◌^◌, ◌≤◌, ◌<◌, min, max, ◌≡◌, refl, sym, ap, ◌∙◌, subst, ◌≢◌, ◌↔◌, ◌⊎◌, inl, inr,
  Bool, true, false, ◌&&◌, ◌||◌, not, Option, none, some, List, [], ◌∷◌, ◌++◌, map, arith, dec_lt,
  dec_le, ℕ_discrete,
}
use t1_waf.Prelude.Assoc.{lookup, insert}
use t1_waf.Strings.{split, split_once, trim, trim_by, eq_ignore_case}
use t1_waf.Request.{IpAddr, RequestCtx}
use t1_waf.Action.{Action}
use t1_waf.Decision.{Decision}
use t1_waf.Conns
use t1_waf.BotScore.{is_empty}
use t1_waf.Subnet.{inc_inflight, dec_inflight}
use t1_waf.Bic.{bic_cookie_name, verify_cookie}
use t1_waf.Events.{first_reason}
use t1_waf.Metrics.{Metrics, record_action}
use t1_waf.Engine.{Env, Engine, at_capacity}
use t1_waf.Engine.Pipeline.{Core, evaluate}

-- the loop of `parse_cookie_header` of crates/waf-core/src/request.rs
unfoldable pub parse_parts : List Text → List (Text × Text) → List (Text × Text)
parse_parts [] out = out
parse_parts (p ∷ ps) out = elim (split_once b'=' (trim p)) [
  | none ↦ parse_parts ps out
  | some (k, v) ↦ parse_parts ps (insert (trim k) (trim_by (λ c. c == 34) (trim v)) out)
]

-- `parse_cookie_header`; a part that is blank has no equals sign
unfoldable pub parse_cookie_header : Text → List (Text × Text)
parse_cookie_header header = parse_parts (split b';' header) []

-- `resolve_client_ip`, with the address of the socket, the hops that are trusted, the header and the
-- parser of addresses
unfoldable pub resolve_client_ip : (Text → Option IpAddr) → IpAddr → ℕ → Option Text → IpAddr
resolve_client_ip parse_ip socket_ip hops none = socket_ip
resolve_client_ip parse_ip socket_ip hops (some xff) =
    let parts = map trim (split b',' xff) in
    if hops == 0 then socket_ip else elim (get_elem? parts (length parts - hops)) [
      | none ↦ socket_ip
      | some s ↦ or_else (parse_ip s) socket_ip
    ]

-- how `request_filter` ends: at the door, at an endpoint of the proxy itself, or with a decision
pub data Outcome : Type 0 where
  overloaded : Outcome
  verify_clearance verify_bic verify_captcha health : Outcome
  decided : Decision → Outcome

-- `WafCtx::tracked_ip`, and how the request ended
pub record Handled : Type 0 where
  pub tracked_ip : Option IpAddr
  pub outcome : Outcome

-- the reserved endpoints
unfoldable pub endpoint_of : RequestCtx → Option Outcome
endpoint_of ctx =
    let post = eq_ignore_case ctx.method (text "POST") in
    if text_beq ctx.path (text "/__2t1/verify") && post
    then some verify_clearance
    else if text_beq ctx.path (text "/__2t1/bic-verify") && post
    then some verify_bic
    else if text_beq ctx.path (text "/__2t1/turnstile-verify") && post
    then some verify_captcha
    else if text_beq ctx.path (text "/__2t1/healthz")
    then some health
    else none

-- the page that `serve_challenge` sends
pub data Page : Type 0 where
  bic_page captcha_page pow_page : Page

module _ (env : Env) where
  open env use {net, crypto, ip_text}

  pub record Proxy : Type 0 where
    pub engine : Core env
    pub metrics : Metrics

  -- the counters of requests in flight, up and down
  unfoldable pub enter : Core env → IpAddr → Core env
  enter e ip = record e { conns = (Conns.inc e.conns ip).0; subnets = inc_inflight e.subnets ip }

  unfoldable pub leave : Core env → IpAddr → Core env
  leave e ip = record e { conns = Conns.dec e.conns ip; subnets = dec_inflight e.subnets ip }

  -- the end of `request_filter`: the decision, counted
  unfoldable pub decide : Proxy → RequestCtx → ℕ → Proxy × Handled
  decide p ctx now_ms =
      let (e, d) = evaluate env p.engine ctx now_ms in
      (
        record {
          engine = e;
          metrics =
              record_action p.metrics d.action (ip_text ctx.client_ip) ctx.path ctx.country
                (elim (first_reason d.reasons) [ none ↦ none | some r ↦ some r.rule_id ])
                (now_ms / 1000);
        },
        record { tracked_ip = some ctx.client_ip; outcome = decided d },
      )

  -- `request_filter`
  unfoldable pub request_filter : Proxy → RequestCtx → ℕ → Proxy × Handled
  request_filter p ctx now_ms =
      if at_capacity env p.engine
      then (
        record p {
          metrics = record p.metrics { upstream_errors = add64 p.metrics.upstream_errors 1 };
        },
        record { tracked_ip = none; outcome = overloaded },
      )
      else (let p' : Proxy = record p { engine = enter p.engine ctx.client_ip } in
          elim (endpoint_of ctx) [
            | some o ↦ (p', record { tracked_ip = some ctx.client_ip; outcome = o })
            | none ↦ decide p' ctx now_ms
          ])

  -- `logging`; `failed` says that the request ended in an error
  unfoldable pub logging : Proxy → Handled → Bool → Proxy
  logging p h failed = record {
    engine = elim h.tracked_ip [ none ↦ p.engine | some ip ↦ leave p.engine ip ];
    metrics =
        if failed
        then record p.metrics { upstream_errors = add64 p.metrics.upstream_errors 1 }
        else p.metrics;
  }

  -- the choice of `serve_challenge`: the cookie is checked against the address of the socket
  unfoldable pub serve_challenge : Core env → List (Text × Text) → IpAddr → ℕ → Page
  serve_challenge e cookies socket_ip now =
      let present : Bool = elim (lookup bic_cookie_name cookies) [
        | none ↦ false
        | some c ↦ verify_cookie crypto e.bic_secret c socket_ip now
      ] in
      let mode = e.runtime.challenge_mode in
      if e.runtime.defenses.bic && not present
      then bic_page
      else if ((mode == 1) || (mode == 2)) && not (is_empty e.runtime.turnstile_site_key)
      then captcha_page
      else pow_page
