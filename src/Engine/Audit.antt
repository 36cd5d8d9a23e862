-- ===== src/Engine/Audit.antt =====
-- Every evaluation leaves one event.
use t1_waf.Prelude.Cases.{if-ind, option-ind}
use t1_waf.Prelude.{
  nat_eq, text_eq, ltb, leb, if◌then◌else◌, Bool-cases, Option-cases, ℕ, ◌/◌, ◌≡◌, refl, ap, ◌∙◌,
  ◌⊎◌, inl, inr, ◌&&◌, not, none,
}
use t1_waf.BotScore.{is_empty}
use t1_waf.Request.{RequestCtx}
use t1_waf.Net.{any_contains}
use t1_waf.RateLimit.{check_scaled}
use t1_waf.Reputation
use t1_waf.Reputation.{Reputation}
use t1_waf.Decision.{Decision}
use t1_waf.Honeypots
use t1_waf.GoodBot
use t1_waf.GoodBot.{Verdict}
use t1_waf.Events.{EventLog, event_of, push}
use t1_waf.Engine.{Env, finalize, hard_limits, conn_cap, block_t, chal_t, uam_params, rate_scale}
use t1_waf.Engine.Pipeline.{
  evaluate, crawler, trap, conn_limits, rate_limit, after_limits, threshold, signals, behavior_step,
  subnet_step, replay_step, dist_ua_step, Core, is_cleared, is_verified,
}
use t1_waf.Conns

pub Reputation-cases :
    (r : Reputation) → ((r ≡ Reputation.allow) ⊎ (r ≡ Reputation.deny)) ⊎ (r ≡ Reputation.unknown)
Reputation-cases Reputation.allow = inl (inl refl)
Reputation-cases Reputation.deny = inl (inr refl)
Reputation-cases Reputation.unknown = inr refl

module _ (env : Env) where
  open env use {net, ip_text, is_match, known_bots}

  -- the ring has grown by the one event of the decision
  abbrev pub Recorded : EventLog → RequestCtx → ℕ → Core env × Decision → Type 0
  Recorded log ctx t out = out.0.events ≡ push log (event_of ip_text ctx out.1 t)

  finalize-Recorded :
      (log : EventLog) (e : Core env) (ctx : RequestCtx) (d : Decision) (t : ℕ)
      → e.events ≡ log
      → Recorded log ctx t (finalize env e ctx d t)
  unfolding finalize
  finalize-Recorded log e ctx d t h = ap (λ l. push l (event_of ip_text ctx d t)) h

  -- the trackers do not touch the ring
  behavior_step-events :
      (e : Core env) (ctx : RequestCtx) (t : ℕ) → (behavior_step env e ctx t).0.events ≡ e.events
  unfolding behavior_step
  behavior_step-events e ctx t = elim (Bool-cases e.runtime.defenses.behavior) [
    | inl on ↦ rw on refl
    | inr idle ↦ rw idle refl
  ]

  subnet_step-events :
      (e : Core env) (ctx : RequestCtx) (t : ℕ) → (subnet_step env e ctx t).0.events ≡ e.events
  unfolding subnet_step
  subnet_step-events e ctx t = elim (Bool-cases e.runtime.defenses.subnet) [
    | inl on ↦ rw on refl
    | inr idle ↦ rw idle refl
  ]

  replay_step-events :
      (e : Core env) (ctx : RequestCtx) (t : ℕ) → (replay_step env e ctx t).0.events ≡ e.events
  unfolding replay_step
  replay_step-events e ctx t = elim (Bool-cases e.runtime.defenses.replay) [
    | inl on ↦ rw on refl
    | inr idle ↦ rw idle refl
  ]

  dist_ua_step-events :
      (e : Core env) (ctx : RequestCtx) (t : ℕ) → (dist_ua_step env e ctx t).0.events ≡ e.events
  unfolding dist_ua_step
  dist_ua_step-events e ctx t =
      elim (Bool-cases (e.runtime.defenses.dist_ua && not (is_empty ctx.user_agent))) [
        | inl on ↦ rw on refl
        | inr idle ↦ rw idle refl
      ]

  signals-events :
      (e : Core env) (ctx : RequestCtx) (t : ℕ) (v : Verdict)
      → (signals env e ctx t v).0.events ≡ e.events
  unfolding signals
  signals-events e ctx t v =
      let e1 = (behavior_step env e ctx t).0 in
      let e2 = (subnet_step env e1 ctx t).0 in
      let e3 = (replay_step env e2 ctx t).0 in
      dist_ua_step-events e3 ctx t
      ∙ (replay_step-events e2 ctx t ∙ (subnet_step-events e1 ctx t ∙ behavior_step-events e ctx t))

  threshold-Recorded :
      (log : EventLog) (e : Core env) (ctx : RequestCtx) (t : ℕ) (d : Decision)
      → e.events ≡ log
      → Recorded log ctx t (threshold env e ctx t d)
  unfolding threshold
  threshold-Recorded log e ctx t d h = elim (Bool-cases (leb (block_t e.runtime) d.score)) [
    | inl blocked ↦
        elim (Bool-cases (ltb 0 e.runtime.tarpit_score && leb e.runtime.tarpit_score d.score)) [
          | inl held ↦ rw (blocked, held) (finalize-Recorded log _ ctx _ t h)
          | inr plain ↦ rw (blocked, plain) (finalize-Recorded log _ ctx _ t h)
        ]
    | inr below ↦ elim (Bool-cases (leb (chal_t e.runtime) d.score)) [
      | inl challenged ↦ rw (below, challenged) (finalize-Recorded log e ctx _ t h)
      | inr passed ↦ rw (below, passed) (finalize-Recorded log e ctx _ t h)
    ]
  ]

  after_limits-Recorded :
      (log : EventLog) (e : Core env) (ctx : RequestCtx) (t : ℕ) (v : Verdict)
      → e.events ≡ log
      → Recorded log ctx t (after_limits env e ctx t v)
  unfolding after_limits
  after_limits-Recorded log e ctx t v h = elim (Bool-cases (is_cleared env e ctx t)) [
    | inl cleared ↦ rw cleared (finalize-Recorded log e ctx _ t h)
    | inr fresh ↦ elim (Bool-cases (uam_params e.runtime).force_challenge) [
      | inl forced ↦ rw (fresh, forced) (finalize-Recorded log e ctx _ t h)
      | inr scored ↦
          rw (fresh, scored) (threshold-Recorded log _ ctx t _ (signals-events e ctx t v ∙ h))
    ]
  ]

  rate_limit-Recorded :
      (log : EventLog) (e : Core env) (ctx : RequestCtx) (t : ℕ) (v : Verdict)
      → e.events ≡ log
      → Recorded log ctx t (rate_limit env e ctx t v)
  unfolding rate_limit
  rate_limit-Recorded log e ctx t v h =
      if-ind (Recorded log ctx t) e.runtime.rules.rate_limit
        (λ on.
          elim (Option-cases
            (check_scaled is_match e.rate_limiter (ip_text ctx.client_ip) ctx.path
              (rate_scale e.runtime) (t / 1000)).1) [
                | inl under ↦ rw under (after_limits-Recorded log _ ctx t v h)
                | inr (l, over) ↦ rw over (finalize-Recorded log _ ctx _ t h)
              ])
        (λ idle. after_limits-Recorded log e ctx t v h)

  conn_limits-Recorded :
      (log : EventLog) (e : Core env) (ctx : RequestCtx) (t : ℕ) (v : Verdict)
      → e.events ≡ log
      → Recorded log ctx t (conn_limits env e ctx t v)
  unfolding conn_limits
  conn_limits-Recorded log e ctx t v h =
      elim (Bool-cases (
        ltb 0 (conn_cap e.runtime)
        && ltb (conn_cap e.runtime) (Conns.current e.conns ctx.client_ip))) [
          | inl over ↦ rw over (finalize-Recorded log e ctx _ t h)
          | inr under ↦ elim (Option-cases (hard_limits e.limits ctx)) [
            | inl fits ↦ rw (under, fits) (rate_limit-Recorded log e ctx t v h)
            | inr (d, broken) ↦ rw (under, broken) (finalize-Recorded log e ctx d t h)
          ]
        ]

  trap-Recorded :
      (log : EventLog) (e : Core env) (ctx : RequestCtx) (t : ℕ) (v : Verdict)
      → e.events ≡ log
      → Recorded log ctx t (trap env e ctx t v)
  unfolding trap
  trap-Recorded log e ctx t v h =
      option-ind (Recorded log ctx t)
        (if e.runtime.defenses.honeypots then Honeypots.check e.honeypots ctx.path else none)
        (λ missed. conn_limits-Recorded log e ctx t v h)
        (λ r caught. finalize-Recorded log _ ctx _ t h)

  crawler-Recorded :
      (log : EventLog) (e : Core env) (ctx : RequestCtx) (t : ℕ)
      → e.events ≡ log
      → Recorded log ctx t (crawler env e ctx t)
  unfolding crawler
  crawler-Recorded log e ctx t h =
      if-ind (Recorded log ctx t) e.runtime.defenses.goodbot
        (λ on.
          if-ind (Recorded log ctx t)
            (is_verified
              (GoodBot.classify known_bots e.goodbot ctx.client_ip ctx.user_agent (t / 1000)).1)
            (λ genuine. finalize-Recorded log _ ctx _ t h) (λ other. trap-Recorded log _ ctx t _ h))
        (λ idle. trap-Recorded log e ctx t _ h)

  -- Whatever `evaluate` decides, the ring of events has grown by exactly one event, the one that is built
  -- from the request and from the decision that is returned.
  pub evaluate-Recorded :
      (e : Core env) (ctx : RequestCtx) (t : ℕ)
      → (evaluate env e ctx t).0.events
        ≡ push e.events (event_of ip_text ctx (evaluate env e ctx t).1 t)
  unfolding evaluate
  evaluate-Recorded e ctx t = elim (Bool-cases (any_contains net e.runtime.allow ctx.client_ip)) [
    | inl listed ↦ rw listed (finalize-Recorded e.events e ctx _ t refl)
    | inr unlisted ↦
        elim (Reputation-cases (Reputation.classify net e.reputations ctx.client_ip (t / 1000))) [
          | inl (inl good) ↦ rw (unlisted, good) (finalize-Recorded e.events e ctx _ t refl)
          | inl (inr bad) ↦ rw (unlisted, bad) (finalize-Recorded e.events e ctx _ t refl)
          | inr unknown ↦ elim (Bool-cases (any_contains net e.runtime.deny ctx.client_ip)) [
            | inl denied ↦
                rw (unlisted, unknown, denied) (finalize-Recorded e.events e ctx _ t refl)
            | inr open_to ↦ rw (unlisted, unknown, open_to) (crawler-Recorded e.events e ctx t refl)
          ]
        ]
  ]
