-- ===== src/Engine/Steps.antt =====
-- What the signals of `evaluate` leave alone: the settings and the numbers of requests in flight.
use t1_waf.Prelude.{nat_eq, text_eq, ℕ, ◌/◌, ◌≡◌, refl, ◌∙◌, ◌&&◌, not}
use t1_waf.Prelude.Cases.{if-ind}
use t1_waf.Reputation.Spares.{Spares, Spares-here, Spares-trans}
use t1_waf.Request.{IpAddr, RequestCtx}
use t1_waf.GoodBot.{Verdict}
use t1_waf.BotScore.{is_empty}
use t1_waf.Engine.{Env}
use t1_waf.Subnet.Flights.{Kept, Kept-here, Kept-trans, observe-Kept}
use t1_waf.Engine.Pipeline.{Core, signals, behavior_step, subnet_step, replay_step, dist_ua_step}

module _ (env : Env) where
  -- The settings and the numbers of requests in flight are those of `e`, and so are the lists and, but for one
  -- address, the bans.
  pub record Framed (who : IpAddr) (e : Core env) (e' : Core env) : Type 0 where
    pub same_runtime : e'.runtime ≡ e.runtime
    pub same_conns : e'.conns ≡ e.conns
    pub same_flights : Kept e.subnets e'.subnets
    pub same_bans : Spares who e.reputations e'.reputations

  pub framed_trans :
      (who : IpAddr) (a b c : Core env) → Framed who a b → Framed who b c → Framed who a c
  framed_trans who a b c f g = record {
    same_runtime = g.same_runtime ∙ f.same_runtime;
    same_conns = g.same_conns ∙ f.same_conns;
    same_flights = Kept-trans a.subnets b.subnets c.subnets f.same_flights g.same_flights;
    same_bans = Spares-trans who a.reputations b.reputations c.reputations f.same_bans g.same_bans;
  }

  abbrev Steps : {B : Type 0} → IpAddr → Core env → Core env × B → Type 0
  Steps who e out = Framed who e out.0

  pub here : (who : IpAddr) (e : Core env) → Framed who e e
  here who e = record {
    same_runtime = refl;
    same_conns = refl;
    same_flights = Kept-here e.subnets;
    same_bans = Spares-here who e.reputations;
  }

  behavior_step-Framed :
      (e : Core env) (ctx : RequestCtx) (t : ℕ)
      → Framed ctx.client_ip e (behavior_step env e ctx t).0
  unfolding behavior_step
  behavior_step-Framed e ctx t =
      if-ind (Steps ctx.client_ip e) e.runtime.defenses.behavior
        (λ _. record {
          same_runtime = refl;
          same_conns = refl;
          same_flights = Kept-here e.subnets;
          same_bans = Spares-here ctx.client_ip e.reputations;
        })
        (λ _. here ctx.client_ip e)

  subnet_step-Framed :
      (e : Core env) (ctx : RequestCtx) (t : ℕ) → Framed ctx.client_ip e (subnet_step env e ctx t).0
  unfolding subnet_step
  subnet_step-Framed e ctx t =
      if-ind (Steps ctx.client_ip e) e.runtime.defenses.subnet
        (λ _. record {
          same_runtime = refl;
          same_conns = refl;
          same_flights =
              observe-Kept e.subnets ctx.client_ip e.runtime.subnet_rpm e.runtime.subnet_conn
                (t / 1000);
          same_bans = Spares-here ctx.client_ip e.reputations;
        })
        (λ _. here ctx.client_ip e)

  replay_step-Framed :
      (e : Core env) (ctx : RequestCtx) (t : ℕ) → Framed ctx.client_ip e (replay_step env e ctx t).0
  unfolding replay_step
  replay_step-Framed e ctx t =
      if-ind (Steps ctx.client_ip e) e.runtime.defenses.replay
        (λ _. record {
          same_runtime = refl;
          same_conns = refl;
          same_flights = Kept-here e.subnets;
          same_bans = Spares-here ctx.client_ip e.reputations;
        })
        (λ _. here ctx.client_ip e)

  dist_ua_step-Framed :
      (e : Core env) (ctx : RequestCtx) (t : ℕ)
      → Framed ctx.client_ip e (dist_ua_step env e ctx t).0
  unfolding dist_ua_step
  dist_ua_step-Framed e ctx t =
      if-ind (Steps ctx.client_ip e) (e.runtime.defenses.dist_ua && not (is_empty ctx.user_agent))
        (λ _. record {
          same_runtime = refl;
          same_conns = refl;
          same_flights = Kept-here e.subnets;
          same_bans = Spares-here ctx.client_ip e.reputations;
        })
        (λ _. here ctx.client_ip e)

  pub signals-Framed :
      (e : Core env) (ctx : RequestCtx) (t : ℕ) (v : Verdict)
      → Framed ctx.client_ip e (signals env e ctx t v).0
  unfolding signals
  signals-Framed e ctx t v =
      let e1 = (behavior_step env e ctx t).0 in
      let e2 = (subnet_step env e1 ctx t).0 in
      let e3 = (replay_step env e2 ctx t).0 in
      let e4 = (dist_ua_step env e3 ctx t).0 in
      framed_trans ctx.client_ip e e1 e4 (behavior_step-Framed e ctx t) (
        framed_trans ctx.client_ip e1 e2 e4 (subnet_step-Framed e1 ctx t) (
          framed_trans ctx.client_ip e2 e3 e4 (replay_step-Framed e2 ctx t)
            (dist_ua_step-Framed e3 ctx t)))
