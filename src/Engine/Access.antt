-- ===== src/Engine/Access.antt =====
-- Who passes, and who is turned away.
use t1_waf.Engine.Pipeline.{crawler}
use t1_waf.Engine.Pipeline.{evaluate}
use t1_waf.Prelude.{
  nat_eq, text_eq, ltb, leb, if◌then◌else◌, Option-cases, length, ℕ, ◌/◌, ◌<◌, ◌≡◌, refl, sym, ap,
  ◌∙◌, subst, inl, inr, true, false, ◌&&◌, ◌||◌, not, Option, none, some, arith,
}
use t1_waf.Prelude.Cases.{if-ind, option-ind}
use t1_waf.Request.{RequestCtx}
use t1_waf.Net.{any_contains}
use t1_waf.RateLimit.{check_scaled}
use t1_waf.Reputation
use t1_waf.Reputation.{Reputation}
use t1_waf.Decision.{Decision, DecisionReason, add_reasons, allow, block, challenge, tarpit}
use t1_waf.Decision
use t1_waf.Action
use t1_waf.Honeypots
use t1_waf.GoodBot
use t1_waf.GoodBot.{Verdict}
use t1_waf.Engine.Audit.{Reputation-cases}
use t1_waf.Config.{LimitsCfg}
use t1_waf.Engine.{
  Env, finalize, hard_limits, body_limit, any_ignore_case, find_longer, conn_cap, block_t, chal_t,
  uam_params, rate_scale,
}
use t1_waf.Engine.Pipeline.{
  trap, conn_limits, rate_limit, after_limits, threshold, signals, Core, is_cleared, is_verified,
}
use t1_waf.Conns
use t1_waf.Engine.Steps.{signals-Framed}

-- A request that breaks an absolute limit is blocked.
pub hard_limits-block :
    (l : LimitsCfg) (ctx : RequestCtx) (d : Decision)
    → hard_limits l ctx ≡ some d
    → d.action ≡ Action.block
unfolding hard_limits body_limit block
hard_limits-block l ctx d =
    let Blocks = λ (o : Option Decision). o ≡ some d → d.action ≡ Action.block in
    if-ind Blocks (not (any_ignore_case ctx.method l.allowed_methods)) (λ denied h. ground arith)
      (λ allowed.
        if-ind Blocks (ltb l.max_uri_bytes (length ctx.uri)) (λ long h. ground arith)
          (λ short.
            if-ind Blocks (ltb l.max_headers (length ctx.headers)) (λ many h. ground arith)
              (λ few. elim (Option-cases (find_longer l.max_header_value_bytes ctx.headers)) [
                | inl fits ↦ rw fits (
                    option-ind Blocks ctx.content_length (λ unknown h. absurd (ground arith))
                      (λ cl known.
                        if-ind Blocks (ltb l.max_body_bytes cl) (λ big h. ground arith)
                          (λ small h. absurd (ground arith))))
                | inr (v, wide) ↦ rw wide (λ h. ground arith)
              ])))

module _ (env : Env) where
  open env use {net, ip_text, is_match, known_bots}

  -- the score that the signals give
  abbrev pub signal_score : Core env → RequestCtx → ℕ → Verdict → ℕ
  signal_score e ctx t v =
      (add_reasons (Decision.allow ctx.request_id) (signals env e ctx t v).1).score

  -- the verdict on crawlers that the later steps go by
  abbrev pub verdict_seen : Core env → RequestCtx → ℕ → Verdict
  verdict_seen e ctx t =
      if e.runtime.defenses.goodbot
      then (GoodBot.classify known_bots e.goodbot ctx.client_ip ctx.user_agent (t / 1000)).1
      else GoodBot.not_a_bot

  -- the engines agree in everything that the clearance and the signals read
  pub record Same (e' e : Core env) : Type 0 where
    pub runtime : e'.runtime ≡ e.runtime
    pub challenger : e'.challenger ≡ e.challenger
    pub behavior : e'.behavior ≡ e.behavior
    pub subnets : e'.subnets ≡ e.subnets
    pub replay : e'.replay ≡ e.replay
    pub dist_ua : e'.dist_ua ≡ e.dist_ua
    pub geoip : e'.geoip ≡ e.geoip
    pub suspicious : e'.suspicious_user_agents ≡ e.suspicious_user_agents
    pub bic_secret : e'.bic_secret ≡ e.bic_secret

  -- Why a request can pass: its address is on a list or is a verified crawler's, or the request carries
  -- a clearance that verifies, or no challenge is forced and its score is below both thresholds. The
  -- score is taken in the engine as the steps before the signals leave it.
  pub data Pass (e : Core env) (ctx : RequestCtx) (t : ℕ) : Type 0 where
    listed : any_contains net e.runtime.allow ctx.client_ip ≡ true → Pass e ctx t
    reputed :
        Reputation.classify net e.reputations ctx.client_ip (t / 1000) ≡ Reputation.allow
        → Pass e ctx t
    genuine : is_verified (verdict_seen e ctx t) ≡ true → Pass e ctx t
    cleared : is_cleared env e ctx t ≡ true → Pass e ctx t
    harmless :
        (e' : Core env)
        → Same e' e
        → (uam_params e.runtime).force_challenge ≡ false
        → signal_score e' ctx t (verdict_seen e ctx t) < chal_t e.runtime
        → signal_score e' ctx t (verdict_seen e ctx t) < block_t e.runtime
        → Pass e ctx t

  abbrev pub Passes : Core env → RequestCtx → ℕ → Core env × Decision → Type 0
  Passes e ctx t out = out.1.action ≡ Action.allow → Pass e ctx t

  threshold-low :
      (e : Core env) (ctx : RequestCtx) (t : ℕ) (d : Decision)
      → (threshold env e ctx t d).1.action ≡ Action.allow
      → (d.score < chal_t e.runtime) × (d.score < block_t e.runtime)
  unfolding threshold finalize allow block challenge tarpit
  threshold-low e ctx t d =
      let Low = λ (out : Core env × Decision).
        out.1.action ≡ Action.allow
        → (d.score < chal_t e.runtime) × (d.score < block_t e.runtime) in
      if-ind Low (leb (block_t e.runtime) d.score)
        (λ over.
          if-ind Low (ltb 0 e.runtime.tarpit_score && leb e.runtime.tarpit_score d.score)
            (λ held h. absurd (ground arith)) (λ plain h. absurd (ground arith)))
        (λ under.
          if-ind Low (leb (chal_t e.runtime) d.score) (λ asked h. absurd (ground arith))
            (λ below h. (ground arith, ground arith)))

  is_cleared-Same :
      (e' e : Core env) (ctx : RequestCtx) (t : ℕ)
      → Same e' e
      → is_cleared env e' ctx t ≡ is_cleared env e ctx t
  unfolding is_cleared
  is_cleared-Same e' e ctx t same = rw same.challenger refl

  after_limits-Passes :
      (e e' : Core env) (ctx : RequestCtx) (t : ℕ)
      → Same e' e
      → Passes e ctx t (after_limits env e' ctx t (verdict_seen e ctx t))
  unfolding after_limits finalize challenge
  after_limits-Passes e e' ctx t same =
      if-ind (Passes e ctx t) (is_cleared env e' ctx t)
        (λ c h. cleared (sym (is_cleared-Same e' e ctx t same) ∙ c))
        (λ fresh.
          if-ind (Passes e ctx t) (uam_params e'.runtime).force_challenge
            (λ forced h. absurd (ground arith))
            (λ free h.
              let at : (signals env e' ctx t (verdict_seen e ctx t)).0.runtime ≡ e.runtime =
                (signals-Framed env e' ctx t (verdict_seen e ctx t)).same_runtime ∙ same.runtime in
              let low = threshold-low _ ctx t _ h in
              harmless e' same (ap (λ r. (uam_params r).force_challenge) (sym same.runtime) ∙ free)
                (subst (λ r. signal_score e' ctx t (verdict_seen e ctx t) < chal_t r) at low.0)
                (subst (λ r. signal_score e' ctx t (verdict_seen e ctx t) < block_t r) at low.1)))

  rate_limit-Passes :
      (e e' : Core env) (ctx : RequestCtx) (t : ℕ)
      → Same e' e
      → Passes e ctx t (rate_limit env e' ctx t (verdict_seen e ctx t))
  unfolding rate_limit finalize block
  rate_limit-Passes e e' ctx t same =
      if-ind (Passes e ctx t) e'.runtime.rules.rate_limit
        (λ on.
          elim (Option-cases
            (check_scaled is_match e'.rate_limiter (ip_text ctx.client_ip) ctx.path
              (rate_scale e'.runtime) (t / 1000)).1) [
                | inl under ↦ rw under (
                    after_limits-Passes e _ ctx t (record {
                      runtime = same.runtime;
                      challenger = same.challenger;
                      behavior = same.behavior;
                      subnets = same.subnets;
                      replay = same.replay;
                      dist_ua = same.dist_ua;
                      geoip = same.geoip;
                      suspicious = same.suspicious;
                      bic_secret = same.bic_secret;
                    }))
                | inr (l, over) ↦ rw over (λ h. absurd (ground arith))
              ])
        (λ idle. after_limits-Passes e e' ctx t same)

  conn_limits-Passes :
      (e e' : Core env) (ctx : RequestCtx) (t : ℕ)
      → Same e' e
      → Passes e ctx t (conn_limits env e' ctx t (verdict_seen e ctx t))
  unfolding conn_limits finalize block
  conn_limits-Passes e e' ctx t same =
      if-ind (Passes e ctx t)
        (ltb 0 (conn_cap e'.runtime)
          && ltb (conn_cap e'.runtime) (Conns.current e'.conns ctx.client_ip))
        (λ over h. absurd (ground arith))
        (λ under. elim (Option-cases (hard_limits e'.limits ctx)) [
          | inl fits ↦ rw fits (rate_limit-Passes e e' ctx t same)
          | inr (d, broken) ↦
              rw broken (λ h. absurd (ground (arith, hard_limits-block e'.limits ctx d broken)))
        ])

  trap-Passes :
      (e e' : Core env) (ctx : RequestCtx) (t : ℕ)
      → Same e' e
      → Passes e ctx t (trap env e' ctx t (verdict_seen e ctx t))
  unfolding trap finalize block
  trap-Passes e e' ctx t same =
      option-ind (Passes e ctx t)
        (if e'.runtime.defenses.honeypots then Honeypots.check e'.honeypots ctx.path else none)
        (λ missed. conn_limits-Passes e e' ctx t same) (λ r caught h. absurd (ground arith))

  seen-on :
      (e : Core env) (ctx : RequestCtx) (t : ℕ)
      → e.runtime.defenses.goodbot ≡ true
      → verdict_seen e ctx t
        ≡ (GoodBot.classify known_bots e.goodbot ctx.client_ip ctx.user_agent (t / 1000)).1
  seen-on e ctx t on = rw on refl

  seen-off :
      (e : Core env) (ctx : RequestCtx) (t : ℕ)
      → e.runtime.defenses.goodbot ≡ false
      → verdict_seen e ctx t ≡ GoodBot.not_a_bot
  seen-off e ctx t idle = rw idle refl

  Same-refl : (e : Core env) → Same e e
  Same-refl e = record {
    runtime = refl;
    challenger = refl;
    behavior = refl;
    subnets = refl;
    replay = refl;
    dist_ua = refl;
    geoip = refl;
    suspicious = refl;
    bic_secret = refl;
  }

  -- the step of the traps, given the verdict in another form
  trap-Passes_at :
      (e e' : Core env) (ctx : RequestCtx) (t : ℕ) (v : Verdict)
      → verdict_seen e ctx t ≡ v
      → Same e' e
      → Passes e ctx t (trap env e' ctx t v)
  trap-Passes_at e e' ctx t v seen same =
      subst (λ w. Passes e ctx t (trap env e' ctx t w)) seen (trap-Passes e e' ctx t same)

  crawler-Passes : (e : Core env) (ctx : RequestCtx) (t : ℕ) → Passes e ctx t (crawler env e ctx t)
  unfolding crawler
  crawler-Passes e ctx t =
      if-ind (Passes e ctx t) e.runtime.defenses.goodbot
        (λ on.
          if-ind (Passes e ctx t)
            (is_verified
              (GoodBot.classify known_bots e.goodbot ctx.client_ip ctx.user_agent (t / 1000)).1)
            (λ proved h. genuine (ap is_verified (seen-on e ctx t on) ∙ proved))
            (λ other. trap-Passes_at e _ ctx t _ (seen-on e ctx t on) (record {
              runtime = refl;
              challenger = refl;
              behavior = refl;
              subnets = refl;
              replay = refl;
              dist_ua = refl;
              geoip = refl;
              suspicious = refl;
              bic_secret = refl;
            })))
        (λ idle. trap-Passes_at e e ctx t _ (seen-off e ctx t idle) (Same-refl e))

  -- A request that `evaluate` lets through has one of the reasons of `Pass`: in particular, under a
  -- forced challenge none passes that is not listed, not a verified crawler's and not cleared.
  pub evaluate-Pass :
      (e : Core env) (ctx : RequestCtx) (t : ℕ)
      → (evaluate env e ctx t).1.action ≡ Action.allow
      → Pass e ctx t
  unfolding evaluate finalize block
  evaluate-Pass e ctx t =
      if-ind (Passes e ctx t) (any_contains net e.runtime.allow ctx.client_ip)
        (λ on_list h. listed on_list)
        (λ unlisted.
          elim (Reputation-cases (Reputation.classify net e.reputations ctx.client_ip (t / 1000))) [
            | inl (inl good) ↦ λ h. reputed good
            | inl (inr bad) ↦ rw bad (λ h. absurd (ground arith))
            | inr unknown ↦ rw unknown (
                if-ind (Passes e ctx t) (any_contains net e.runtime.deny ctx.client_ip)
                  (λ denied h. absurd (ground arith)) (λ other. crawler-Passes e ctx t))
          ])

  -- An address that no allow list holds, and that a deny list holds or a ban covers at that second, gets a
  -- block with the status 403, whatever cookies and headers its request has.
  pub evaluate-banned :
      (e : Core env) (ctx : RequestCtx) (t : ℕ)
      → any_contains net e.runtime.allow ctx.client_ip ≡ false
      → any_contains net e.reputations.allow ctx.client_ip ≡ false
      → (any_contains net e.reputations.deny ctx.client_ip
          || (Reputation.is_banned net e.reputations ctx.client_ip (t / 1000)
              || any_contains net e.runtime.deny ctx.client_ip))
        ≡ true
      → ((evaluate env e ctx t).1.action ≡ Action.block) × ((evaluate env e ctx t).1.status ≡ 403)
  unfolding evaluate finalize block Reputation.classify
  evaluate-banned e ctx t unlisted unknown refused = ground arith
