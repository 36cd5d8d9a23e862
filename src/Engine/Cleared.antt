-- ===== src/Engine/Cleared.antt =====
-- A client that shows a valid clearance cookie is not asked again.
use t1_waf.Prelude.{
  nat_eq, text_eq, ltb, if◌then◌else◌, ℕ, ◌/◌, ◌≡◌, refl, ap, ◌⊎◌, inl, inr, Bool, true, false,
  ◌&&◌, none, arith,
}
use t1_waf.Prelude.Cases.{if-ind, option-ind}
use t1_waf.Action.{Action}
use t1_waf.Request.{RequestCtx}
use t1_waf.Decision
use t1_waf.Decision.{Decision}
use t1_waf.Net.{any_contains}
use t1_waf.Conns
use t1_waf.Honeypots
use t1_waf.Reputation
use t1_waf.GoodBot
use t1_waf.GoodBot.{Verdict}
use t1_waf.RateLimit.{check_scaled}
use t1_waf.Engine.{Env, finalize, conn_cap, hard_limits, rate_scale}
use t1_waf.Engine.Access.{hard_limits-block}
use t1_waf.Engine.Frame.{reputation-ind}
use t1_waf.Engine.Pipeline.{
  Core, evaluate, crawler, trap, conn_limits, rate_limit, after_limits, is_cleared, is_verified,
}

-- a decision that asks for no challenge and is not held in the tarpit
abbrev settles : Action → Bool
settles Action.allow = true
settles Action.block = true
settles Action.challenge = false
settles Action.tarpit = false

settled_cases : (a : Action) → settles a ≡ true → (a ≡ Action.allow) ⊎ (a ≡ Action.block)
settled_cases Action.allow h = inl refl
settled_cases Action.block h = inr refl
settled_cases Action.challenge h = absurd (ground arith)
settled_cases Action.tarpit h = absurd (ground arith)

module _ (env : Env) where
  open env use {net}

  abbrev Unasked : Core env × Decision → Type 0
  Unasked out = settles out.1.action ≡ true

  finalize-Unasked :
      (e : Core env) (ctx : RequestCtx) (d : Decision) (t : ℕ)
      → settles d.action ≡ true
      → Unasked (finalize env e ctx d t)
  unfolding finalize
  finalize-Unasked e ctx d t h = h

  after_limits-Unasked :
      (e : Core env) (ctx : RequestCtx) (t : ℕ) (v : Verdict)
      → is_cleared env e ctx t ≡ true
      → Unasked (after_limits env e ctx t v)
  unfolding after_limits Decision.allow
  after_limits-Unasked e ctx t v cleared = rw cleared (finalize-Unasked e ctx _ t refl)

  rate_limit-Unasked :
      (e : Core env) (ctx : RequestCtx) (t : ℕ) (v : Verdict)
      → is_cleared env e ctx t ≡ true
      → Unasked (rate_limit env e ctx t v)
  unfolding rate_limit is_cleared Decision.block
  rate_limit-Unasked e ctx t v cleared =
      if-ind Unasked e.runtime.rules.rate_limit
        (λ _.
          option-ind Unasked
            (check_scaled env.is_match e.rate_limiter (env.ip_text ctx.client_ip) ctx.path
              (rate_scale e.runtime) (t / 1000)).1
            (λ _. after_limits-Unasked _ ctx t v cleared) (λ l _. finalize-Unasked _ ctx _ t refl))
        (λ _. after_limits-Unasked e ctx t v cleared)

  conn_limits-Unasked :
      (e : Core env) (ctx : RequestCtx) (t : ℕ) (v : Verdict)
      → is_cleared env e ctx t ≡ true
      → Unasked (conn_limits env e ctx t v)
  unfolding conn_limits Decision.block
  conn_limits-Unasked e ctx t v cleared =
      if-ind Unasked
        (ltb 0 (conn_cap e.runtime)
          && ltb (conn_cap e.runtime) (Conns.current e.conns ctx.client_ip))
        (λ _. finalize-Unasked e ctx _ t refl)
        (λ _.
          option-ind Unasked (hard_limits e.limits ctx) (λ _. rate_limit-Unasked e ctx t v cleared)
            (λ d broken.
              finalize-Unasked e ctx d t (ap settles (hard_limits-block e.limits ctx d broken))))

  trap-Unasked :
      (e : Core env) (ctx : RequestCtx) (t : ℕ) (v : Verdict)
      → is_cleared env e ctx t ≡ true
      → Unasked (trap env e ctx t v)
  unfolding trap Decision.block
  trap-Unasked e ctx t v cleared =
      option-ind Unasked
        (if e.runtime.defenses.honeypots then Honeypots.check e.honeypots ctx.path else none)
        (λ _. conn_limits-Unasked e ctx t v cleared) (λ r _. finalize-Unasked _ ctx _ t refl)

  crawler-Unasked :
      (e : Core env) (ctx : RequestCtx) (t : ℕ)
      → is_cleared env e ctx t ≡ true
      → Unasked (crawler env e ctx t)
  unfolding crawler is_cleared Decision.allow
  crawler-Unasked e ctx t cleared =
      let verdict =
        (GoodBot.classify env.known_bots e.goodbot ctx.client_ip ctx.user_agent (t / 1000)).1 in
      if-ind Unasked e.runtime.defenses.goodbot
        (λ _.
          if-ind Unasked (is_verified verdict) (λ _. finalize-Unasked _ ctx _ t refl)
            (λ _. trap-Unasked _ ctx t verdict cleared))
        (λ _. trap-Unasked e ctx t _ cleared)

  -- A request with a clearance cookie that verifies is let through or blocked: it is neither challenged
  -- again, under a forced challenge or for its score, nor held in the tarpit.
  pub evaluate-cleared :
      (e : Core env) (ctx : RequestCtx) (t : ℕ)
      → is_cleared env e ctx t ≡ true
      → ((evaluate env e ctx t).1.action ≡ Action.allow)
        ⊎ ((evaluate env e ctx t).1.action ≡ Action.block)
  unfolding evaluate Decision.block Decision.allow
  evaluate-cleared e ctx t cleared =
      let U = Unasked in
      settled_cases _ (
        if-ind U (any_contains net e.runtime.allow ctx.client_ip)
          (λ _. finalize-Unasked e ctx _ t refl)
          (λ _.
            reputation-ind U (Reputation.classify net e.reputations ctx.client_ip (t / 1000))
              (finalize-Unasked e ctx _ t refl) (finalize-Unasked e ctx _ t refl)
              (if-ind U (any_contains net e.runtime.deny ctx.client_ip)
                (λ _. finalize-Unasked e ctx _ t refl) (λ _. crawler-Unasked e ctx t cleared))))
