-- ===== src/Engine/Frame.antt =====
-- What `evaluate` leaves alone: the settings, the numbers of requests in flight, and the traps.
use t1_waf.Prelude.{nat_eq, text_eq, ltb, leb, if◌then◌else◌, ℕ, ◌/◌, refl, ◌&&◌, none}
use t1_waf.Prelude.Cases.{if-ind, option-ind}
use t1_waf.Reputation.{record_offence}
use t1_waf.Reputation.Spares.{Spares-here, Spares-trans, Spares-record_offence, Spares-force_ban}
use t1_waf.Request.{IpAddr, RequestCtx}
use t1_waf.Decision.{Decision}
use t1_waf.Net.{any_contains}
use t1_waf.Honeypots
use t1_waf.Conns
use t1_waf.Reputation
use t1_waf.Reputation.{Reputation}
use t1_waf.GoodBot
use t1_waf.GoodBot.{Verdict}
use t1_waf.RateLimit.{check_scaled}
use t1_waf.Engine.{Env, finalize, block_t, chal_t, uam_params, conn_cap, hard_limits, rate_scale}
use t1_waf.Subnet.Flights.{Kept-here}
use t1_waf.Engine.Steps.{Framed, framed_trans, here, signals-Framed}
use t1_waf.Engine.Pipeline.{
  Core, evaluate, crawler, trap, conn_limits, rate_limit, after_limits, threshold, signals,
  is_cleared, is_verified,
}

pub reputation-ind :
    {A : Type 0} (P : A → Type 0) (r : Reputation) {x y z : A}
    → P x
    → P y
    → P z
    → P (elim r [ Reputation.allow ↦ x | Reputation.deny ↦ y | Reputation.unknown ↦ z ])
reputation-ind P Reputation.allow f g h = f
reputation-ind P Reputation.deny f g h = g
reputation-ind P Reputation.unknown f g h = h

module _ (env : Env) where
  open env use {net}

  abbrev Leaves : IpAddr → Core env → Core env × Decision → Type 0
  Leaves who e out = Framed env who e out.0

  finalize-Framed :
      (a e : Core env) (ctx : RequestCtx) (d : Decision) (t : ℕ)
      → Framed env ctx.client_ip a e
      → Leaves ctx.client_ip a (finalize env e ctx d t)
  unfolding finalize
  finalize-Framed a e ctx d t h = record {
    same_runtime = h.same_runtime;
    same_conns = h.same_conns;
    same_flights = h.same_flights;
    same_bans = h.same_bans;
  }

  threshold-Framed :
      (a e : Core env) (ctx : RequestCtx) (t : ℕ) (d : Decision)
      → Framed env ctx.client_ip a e
      → Leaves ctx.client_ip a (threshold env e ctx t d)
  unfolding threshold
  threshold-Framed a e ctx t d h =
      let End = λ (e' : Core env) (f : Framed env ctx.client_ip a e') (d' : Decision).
        finalize-Framed a e' ctx d' t f in
      let after : Framed env ctx.client_ip a (record e {
        reputations = (record_offence net e.reputations ctx.client_ip (t / 1000)).0;
      }) =
        record {
          same_runtime = h.same_runtime;
          same_conns = h.same_conns;
          same_flights = h.same_flights;
          same_bans =
              Spares-trans ctx.client_ip a.reputations e.reputations _ h.same_bans
                (Spares-record_offence net e.reputations ctx.client_ip (t / 1000));
        } in
      if-ind (Leaves ctx.client_ip a) (leb (block_t e.runtime) d.score)
        (λ _.
          if-ind (Leaves ctx.client_ip a)
            (ltb 0 e.runtime.tarpit_score && leb e.runtime.tarpit_score d.score)
            (λ _. End _ after _) (λ _. End _ after _))
        (λ _.
          if-ind (Leaves ctx.client_ip a) (leb (chal_t e.runtime) d.score) (λ _. End e h _)
            (λ _. End e h _))

  after_limits-Framed :
      (a e : Core env) (ctx : RequestCtx) (t : ℕ) (v : Verdict)
      → Framed env ctx.client_ip a e
      → Leaves ctx.client_ip a (after_limits env e ctx t v)
  unfolding after_limits
  after_limits-Framed a e ctx t v h =
      if-ind (Leaves ctx.client_ip a) (is_cleared env e ctx t) (λ _. finalize-Framed a e ctx _ t h)
        (λ _.
          if-ind (Leaves ctx.client_ip a) (uam_params e.runtime).force_challenge
            (λ _. finalize-Framed a e ctx _ t h)
            (λ _. threshold-Framed a _ ctx t _ (
              framed_trans env ctx.client_ip a e (signals env e ctx t v).0 h
                (signals-Framed env e ctx t v))))

  rate_limit-Framed :
      (a e : Core env) (ctx : RequestCtx) (t : ℕ) (v : Verdict)
      → Framed env ctx.client_ip a e
      → Leaves ctx.client_ip a (rate_limit env e ctx t v)
  unfolding rate_limit
  rate_limit-Framed a e ctx t v h =
      if-ind (Leaves ctx.client_ip a) e.runtime.rules.rate_limit
        (λ _.
          option-ind (Leaves ctx.client_ip a)
            (check_scaled env.is_match e.rate_limiter (env.ip_text ctx.client_ip) ctx.path
              (rate_scale e.runtime) (t / 1000)).1
            (λ _. after_limits-Framed a _ ctx t v (record {
              same_runtime = h.same_runtime;
              same_conns = h.same_conns;
              same_flights = h.same_flights;
              same_bans = h.same_bans;
            }))
            (λ l _. finalize-Framed a _ ctx _ t (record {
              same_runtime = h.same_runtime;
              same_conns = h.same_conns;
              same_flights = h.same_flights;
              same_bans = h.same_bans;
            })))
        (λ _. after_limits-Framed a e ctx t v h)

  conn_limits-Framed :
      (a e : Core env) (ctx : RequestCtx) (t : ℕ) (v : Verdict)
      → Framed env ctx.client_ip a e
      → Leaves ctx.client_ip a (conn_limits env e ctx t v)
  unfolding conn_limits
  conn_limits-Framed a e ctx t v h =
      if-ind (Leaves ctx.client_ip a)
        (ltb 0 (conn_cap e.runtime)
          && ltb (conn_cap e.runtime) (Conns.current e.conns ctx.client_ip))
        (λ _. finalize-Framed a e ctx _ t h)
        (λ _.
          option-ind (Leaves ctx.client_ip a) (hard_limits e.limits ctx)
            (λ _. rate_limit-Framed a e ctx t v h) (λ d _. finalize-Framed a e ctx d t h))

  trap-Framed :
      (a e : Core env) (ctx : RequestCtx) (t : ℕ) (v : Verdict)
      → Framed env ctx.client_ip a e
      → Leaves ctx.client_ip a (trap env e ctx t v)
  unfolding trap
  trap-Framed a e ctx t v h =
      option-ind (Leaves ctx.client_ip a)
        (if e.runtime.defenses.honeypots then Honeypots.check e.honeypots ctx.path else none)
        (λ _. conn_limits-Framed a e ctx t v h)
        (λ r _. finalize-Framed a _ ctx _ t (record {
          same_runtime = h.same_runtime;
          same_conns = h.same_conns;
          same_flights = h.same_flights;
          same_bans = Spares-trans ctx.client_ip a.reputations e.reputations _ h.same_bans (
              Spares-force_ban net e.reputations ctx.client_ip e.auto_ban_duration_secs (t / 1000));
        }))

  crawler-Framed :
      (e : Core env) (ctx : RequestCtx) (t : ℕ) → Leaves ctx.client_ip e (crawler env e ctx t)
  unfolding crawler
  crawler-Framed e ctx t =
      let verdict =
        (GoodBot.classify env.known_bots e.goodbot ctx.client_ip ctx.user_agent (t / 1000)).1 in
      if-ind (Leaves ctx.client_ip e) e.runtime.defenses.goodbot
        (λ _.
          if-ind (Leaves ctx.client_ip e) (is_verified verdict)
            (λ _. finalize-Framed e _ ctx _ t (record {
              same_runtime = refl;
              same_conns = refl;
              same_flights = Kept-here e.subnets;
              same_bans = Spares-here ctx.client_ip e.reputations;
            }))
            (λ _. trap-Framed e _ ctx t verdict (record {
              same_runtime = refl;
              same_conns = refl;
              same_flights = Kept-here e.subnets;
              same_bans = Spares-here ctx.client_ip e.reputations;
            })))
        (λ _. trap-Framed e e ctx t _ (here env ctx.client_ip e))

  -- A request that is evaluated leaves the settings, the numbers of requests in flight and the
  -- bans of all other addresses as they were.
  pub evaluate-Framed :
      (e : Core env) (ctx : RequestCtx) (t : ℕ)
      → Framed env ctx.client_ip e (evaluate env e ctx t).0
  unfolding evaluate
  evaluate-Framed e ctx t =
      let L = Leaves ctx.client_ip e in
      if-ind L (any_contains net e.runtime.allow ctx.client_ip)
        (λ _. finalize-Framed e e ctx _ t (here env ctx.client_ip e))
        (λ _.
          reputation-ind L (Reputation.classify net e.reputations ctx.client_ip (t / 1000))
            (finalize-Framed e e ctx _ t (here env ctx.client_ip e))
            (finalize-Framed e e ctx _ t (here env ctx.client_ip e))
            (if-ind L (any_contains net e.runtime.deny ctx.client_ip)
              (λ _. finalize-Framed e e ctx _ t (here env ctx.client_ip e))
              (λ _. crawler-Framed e ctx t)))
