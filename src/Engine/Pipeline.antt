-- ===== src/Engine/Pipeline.antt =====
-- `evaluate` of crates/waf-core/src/engine.rs, step by step: each definition is what the function does
-- from a step on, given what the steps before it have found.
use t1_waf.Prelude.{
  Text, text, decimal, nat_eq, text_eq, ltb, leb, if◌then◌else◌, add64, ℕ, ◌/◌, Bool, true, false,
  ◌&&◌, not, Option, none, some, List, [], ◌∷◌, ◌++◌,
}
use t1_waf.Net.{any_contains}
use t1_waf.Request.{RequestCtx, cookie}
use t1_waf.Decision
use t1_waf.Decision.{
  DecisionReason, Decision, add_reasons, score_rl_hit, score_deny_reputation, score_bad_ua,
  score_sqli_high, score_xss_high, score_traversal, score_cmdi, score_lfi,
}
use t1_waf.Conns
use t1_waf.RateLimit.{check_scaled, Scope, route, global}
use t1_waf.Reputation
use t1_waf.Reputation.{Reputation, force_ban, record_offence}
use t1_waf.Subnet
use t1_waf.Challenge.{verify_clearance}
use t1_waf.Bic.{bic_cookie_name, verify_cookie}
use t1_waf.Behavior
use t1_waf.Signature.{observe_replay, observe_ua}
use t1_waf.GoodBot
use t1_waf.GoodBot.{Verdict, spoof_reason, KnownBot}
use t1_waf.Honeypots
use t1_waf.BotScore
use t1_waf.BotScore.{reason, push_if, is_empty}
use t1_waf.Ddos
use t1_waf.Rules.{
  Hit, surface_of, excerpt, sqli_scan, xss_scan, traversal_scan, cmdi_scan, lfi_scan,
}
use t1_waf.Runtime.{from_u8}
use t1_waf.Engine.{
  Env, Engine, uam_params, rate_scale, conn_cap, block_t, chal_t, hard_limits, header_reasons,
  geoip_reason, hit_to_reason, finalize, level_name,
}

abbrev pub w_datacenter : ℕ
w_datacenter = 25

-- the format of `Limited::scope`
abbrev pub scope_text : Scope → Text
scope_text route = text "route"
scope_text global = text "global"

abbrev pub to_list : Option DecisionReason → List DecisionReason
to_list none = []
to_list (some r) = r ∷ []

-- `decision.reasons.first().cloned().unwrap_or(ANOMALY)`
unfoldable pub primary_of : Decision → DecisionReason
primary_of d = elim d.reasons [
  | [] ↦ reason (text "ANOMALY") (text "anomaly") d.score (text "score over threshold")
  | r ∷ rs ↦ r
]

-- what the classification of crawlers tells the later steps
abbrev pub is_pending : Verdict → Bool
is_pending GoodBot.not_a_bot = false
is_pending (GoodBot.good_bot_verified n) = false
is_pending GoodBot.good_bot_pending = true
is_pending (GoodBot.good_bot_spoofed n) = false

abbrev pub spoof_of : Verdict → Option DecisionReason
spoof_of GoodBot.not_a_bot = none
spoof_of (GoodBot.good_bot_verified n) = none
spoof_of GoodBot.good_bot_pending = none
spoof_of (GoodBot.good_bot_spoofed n) = some (spoof_reason n)

abbrev pub is_verified : Verdict → Bool
is_verified GoodBot.not_a_bot = false
is_verified (GoodBot.good_bot_verified n) = true
is_verified GoodBot.good_bot_pending = false
is_verified (GoodBot.good_bot_spoofed n) = false

module _ (env : Env) where
  open env use {
    net, crypto, float, scanners, Regex, is_match, ua_match, ip_text, known_bots, datacenters,
  }

  abbrev pub Core : Type 0
  Core = Engine net.Net Regex

  -- `cleared`: the request carries a clearance cookie that verifies
  unfoldable pub is_cleared : Core → RequestCtx → ℕ → Bool
  is_cleared e ctx now_ms = elim (cookie ctx e.challenger.cookie_name) [
    | none ↦ false
    | some v ↦ verify_clearance crypto e.challenger v (now_ms / 1000)
  ]

  -- `has_bic`
  unfoldable pub has_bic : Core → RequestCtx → ℕ → Bool
  has_bic e ctx now_ms = e.runtime.defenses.bic && elim (cookie ctx bic_cookie_name) [
    | none ↦ false
    | some v ↦ verify_cookie crypto e.bic_secret v ctx.client_ip (now_ms / 1000)
  ]

  -- the scans of step 7, each with its switch
  unfoldable pub rule_reasons : Core → RequestCtx → List DecisionReason
  rule_reasons e ctx =
      let s = surface_of scanners ctx in
      let rules = e.runtime.rules in
      let found = λ (on : Bool) (hit : Option Hit) (score : ℕ). to_list (
        if on
        then elim hit [ none ↦ none | some h ↦ some (hit_to_reason env h score) ]
        else none) in
      found rules.sqli (sqli_scan scanners s) score_sqli_high
      ++ (found rules.xss (xss_scan scanners s) score_xss_high
          ++ (found rules.traversal (traversal_scan scanners s) score_traversal
              ++ (found rules.cmdi (cmdi_scan scanners s) score_cmdi
                  ++ found rules.lfi (lfi_scan scanners s) score_lfi)))

  -- the trackers of step 7: the engine after each, with the reasons that it gave
  unfoldable pub behavior_step : Core → RequestCtx → ℕ → Core × List DecisionReason
  behavior_step e ctx now_ms =
      if e.runtime.defenses.behavior
      then (let (b, rs) =
            Behavior.observe float e.behavior ctx.client_ip ctx.path ctx.method ctx.user_agent
              now_ms in
          (record e { behavior = b }, rs))
      else (e, [])

  unfoldable pub subnet_step : Core → RequestCtx → ℕ → Core × List DecisionReason
  subnet_step e ctx now_ms =
      if e.runtime.defenses.subnet
      then (let (s, rs) =
            Subnet.observe e.subnets ctx.client_ip e.runtime.subnet_rpm e.runtime.subnet_conn
              (now_ms / 1000) in
          (record e { subnets = s }, rs))
      else (e, [])

  unfoldable pub replay_step : Core → RequestCtx → ℕ → Core × List DecisionReason
  replay_step e ctx now_ms =
      if e.runtime.defenses.replay
      then (let (r, found) =
            observe_replay e.replay ctx.client_ip ctx.method ctx.path ctx.user_agent
              (now_ms / 1000) in
          (record e { replay = r }, to_list found))
      else (e, [])

  unfoldable pub dist_ua_step : Core → RequestCtx → ℕ → Core × List DecisionReason
  dist_ua_step e ctx now_ms =
      if e.runtime.defenses.dist_ua && not (is_empty ctx.user_agent)
      then (let (d, found) = observe_ua e.dist_ua ctx.client_ip ctx.user_agent (now_ms / 1000) in
          (record e { dist_ua = d }, to_list found))
      else (e, [])

  -- step 7: every signal, in the order in which `evaluate` adds the reasons
  unfoldable pub signals : Core → RequestCtx → ℕ → Verdict → Core × List DecisionReason
  signals e ctx now_ms verdict =
      let (e1, behavior) = behavior_step e ctx now_ms in
      let (e2, subnet) = subnet_step e1 ctx now_ms in
      let (e3, replay) = replay_step e2 ctx now_ms in
      let (e4, dist_ua) = dist_ua_step e3 ctx now_ms in
      (
        e4,
        to_list (spoof_of verdict)
            ++ (to_list (geoip_reason e.runtime.blocked_countries e.geoip ctx.country)
                ++ (header_reasons ctx
                    ++ ((if not (is_pending verdict)
                            && (not (has_bic e ctx now_ms) && e.runtime.defenses.bot_score)
                          then BotScore.score ctx
                          else [])
                        ++ (behavior
                            ++ ((if e.runtime.defenses.ddos then Ddos.score ctx else [])
                                ++ (push_if
                                      (e.runtime.datacenter_block
                                        && any_contains net datacenters ctx.client_ip)
                                      (reason (text "DC-RANGE") (text "asn") w_datacenter
                                        (text "source ip within hosting/cloud CIDR"))
                                    ++ (subnet
                                        ++ (replay
                                            ++ (dist_ua
                                                ++ (push_if
                                                      (e.runtime.rules.bot_ua
                                                        && (not (is_empty ctx.user_agent)
                                                            && ua_match e.suspicious_user_agents
                                                            ctx.user_agent))
                                                      (reason (text "UA-SUSPICIOUS") (text "ua")
                                                        score_bad_ua (excerpt ctx.user_agent))
                                                    ++ rule_reasons e ctx)))))))))),
      )

  -- step 8 on the decision that has collected the reasons
  unfoldable pub threshold : Core → RequestCtx → ℕ → Decision → Core × Decision
  threshold e ctx now_ms d =
      let r = e.runtime in
      if leb (block_t r) d.score
      then (let e' : Core = record e {
        reputations = (record_offence net e.reputations ctx.client_ip (now_ms / 1000)).0;
      } in
          if ltb 0 r.tarpit_score && leb r.tarpit_score d.score
          then finalize env e' ctx (Decision.tarpit ctx.request_id d.score d.reasons) now_ms
          else finalize env e' ctx (Decision.block ctx.request_id 403 (primary_of d)) now_ms)
      else if leb (chal_t r) d.score
      then finalize env e ctx (Decision.challenge ctx.request_id d.score d.reasons) now_ms
      else finalize env e ctx (Decision.allow ctx.request_id) now_ms

  -- from the return of cleared clients on
  unfoldable pub after_limits : Core → RequestCtx → ℕ → Verdict → Core × Decision
  after_limits e ctx now_ms verdict =
      if is_cleared e ctx now_ms
      then finalize env e ctx (Decision.allow ctx.request_id) now_ms
      else if (uam_params e.runtime).force_challenge
      then finalize env e ctx
          (Decision.challenge ctx.request_id 100 (
            reason (text "UAM-FORCE") (text "anti_ddos") 100 (
              text "uam="
              ++ (level_name (from_u8 e.runtime.uam_level) ++ text " forcing challenge"))
            ∷ []))
          now_ms
      else (let (e', rs) = signals e ctx now_ms verdict in
          threshold e' ctx now_ms (add_reasons (Decision.allow ctx.request_id) rs))

  -- step 5, the rate limit
  unfoldable pub rate_limit : Core → RequestCtx → ℕ → Verdict → Core × Decision
  rate_limit e ctx now_ms verdict =
      if e.runtime.rules.rate_limit
      then (let (rl, limit) =
            check_scaled is_match e.rate_limiter (ip_text ctx.client_ip) ctx.path
              (rate_scale e.runtime) (now_ms / 1000) in
          elim limit [
            | none ↦ after_limits (record e { rate_limiter = rl }) ctx now_ms verdict
            | some l ↦
                finalize env (record e { rate_limiter = rl; rate_limited = add64 e.rate_limited 1 })
                  ctx
                  (Decision.block ctx.request_id 429 (
                    reason (text "RL-01") (text "rate_limit") score_rl_hit (
                      text "scope="
                      ++ (scope_text l.scope
                          ++ (text " retry_after="
                              ++ (decimal l.retry_after ++ (text "s path=" ++ l.path)))))))
                  now_ms
          ])
      else after_limits e ctx now_ms verdict

  -- steps 3 and 4, the concurrent requests and the absolute limits
  unfoldable pub conn_limits : Core → RequestCtx → ℕ → Verdict → Core × Decision
  conn_limits e ctx now_ms verdict =
      let cap = conn_cap e.runtime in
      let in_flight = Conns.current e.conns ctx.client_ip in
      if ltb 0 cap && ltb cap in_flight
      then finalize env e ctx
          (Decision.block ctx.request_id 429 (
            reason (text "CONN-CAP") (text "ddos") score_deny_reputation
              (decimal in_flight ++ (text " concurrent > cap " ++ decimal cap))))
          now_ms
      else elim (hard_limits e.limits ctx) [
        | some d ↦ finalize env e ctx d now_ms
        | none ↦ rate_limit e ctx now_ms verdict
      ]

  -- step 2.5, the traps
  unfoldable pub trap : Core → RequestCtx → ℕ → Verdict → Core × Decision
  trap e ctx now_ms verdict =
      elim (if e.runtime.defenses.honeypots then Honeypots.check e.honeypots ctx.path else none) [
        | some r ↦
            finalize env
              (record e {
                reputations =
                    (force_ban net e.reputations ctx.client_ip e.auto_ban_duration_secs
                      (now_ms / 1000)).0;
              })
              ctx (Decision.block ctx.request_id 403 r) now_ms
        | none ↦ conn_limits e ctx now_ms verdict
      ]

  -- step 2.4, the crawlers
  unfoldable pub crawler : Core → RequestCtx → ℕ → Core × Decision
  crawler e ctx now_ms =
      if e.runtime.defenses.goodbot
      then (let (c, verdict, spawned) =
            GoodBot.classify known_bots e.goodbot ctx.client_ip ctx.user_agent (now_ms / 1000) in
          let e' : Core = record e {
            goodbot = c;
            lookups = elim spawned [
              | none ↦ e.lookups
              | some b ↦ e.lookups ++ ((ctx.client_ip, b) ∷ [])
            ];
          } in
          if is_verified verdict
          then finalize env e' ctx (Decision.allow ctx.request_id) now_ms
          else trap e' ctx now_ms verdict)
      else trap e ctx now_ms GoodBot.not_a_bot

  -- `evaluate`
  unfoldable pub evaluate : Core → RequestCtx → ℕ → Core × Decision
  evaluate e ctx now_ms =
      if any_contains net e.runtime.allow ctx.client_ip
      then finalize env e ctx (Decision.allow ctx.request_id) now_ms
      else elim (Reputation.classify net e.reputations ctx.client_ip (now_ms / 1000)) [
        | Reputation.allow ↦ finalize env e ctx (Decision.allow ctx.request_id) now_ms
        | Reputation.deny ↦
            finalize env e ctx
              (Decision.block ctx.request_id 403 (
                reason (text "REP-DENY") (text "reputation") score_deny_reputation
                  (text "ip on deny list or auto-banned")))
              now_ms
        | Reputation.unknown ↦
            if any_contains net e.runtime.deny ctx.client_ip
            then finalize env e ctx
                (Decision.block ctx.request_id 403 (
                  reason (text "REP-DENY-RT") (text "reputation") score_deny_reputation
                    (text "ip on runtime deny list")))
                now_ms
            else crawler e ctx now_ms
      ]
