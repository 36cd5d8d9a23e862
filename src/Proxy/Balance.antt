-- ===== src/Proxy/Balance.antt =====
-- A request and its end: what `request_filter` and `logging` leave behind.
use t1_waf.Prelude.{
  nat_eq, text_eq, ltb, Bool-cases, Option-cases, length, ℕ, ◌+◌, ◌≡◌, refl, ap, ◌∙◌, inl, inr,
  Bool, arith,
}
use t1_waf.Prelude.Assoc.{lookup, insert, lookup-insert, Distinct}
use t1_waf.Subnet.Flights.{flight, flight-inc-dec}
use t1_waf.Prelude.Cases.{if-ind, option-ind}
use t1_waf.Request.{IpAddr, RequestCtx, ip_eq, ip_beq_iff}
use t1_waf.Conns
use t1_waf.Conns.{Conns}
use t1_waf.Conns.Balance.{current-inc, current-dec}
use t1_waf.Engine.{Env, at_capacity}
use t1_waf.Engine.Pipeline.{Core}
use t1_waf.Engine.Steps.{Framed, here}
use t1_waf.Engine.Frame.{evaluate-Framed}
use t1_waf.Proxy.{Proxy, Handled, enter, leave, decide, request_filter, logging, endpoint_of}

current-inc-dec :
    (m : Conns) (j ip : IpAddr)
    → Conns.current (Conns.dec (Conns.inc m j).0 j) ip ≡ Conns.current m ip
unfolding Conns.inc Conns.dec Conns.current
current-inc-dec m j ip = elim (Option-cases (lookup j m)) [
  | inr (v, hit) ↦
      let same : (Conns.inc m j).0 ≡ insert j (v + 1) m = ground (arith, hit) in
      ap (λ z. Conns.current (Conns.dec z j) ip) same
      ∙ (current-dec (insert j (v + 1) m) j ip
          ∙ ground (arith, ip_beq_iff j ip, hit, lookup-insert j ip (v + 1) m))
  | inl miss ↦ elim (Bool-cases (ltb Conns.max_tracked (length m))) [
    | inl full ↦
        let same : (Conns.inc m j).0 ≡ m = ground (arith, miss, full) in
        ap (λ z. Conns.current (Conns.dec z j) ip) same
        ∙ (current-dec m j ip ∙ ground (arith, ip_beq_iff j ip, miss))
    | inr room ↦
        current-dec (Conns.inc m j).0 j ip
        ∙ ground (arith, ip_beq_iff j ip, current-inc m j ip (ground (arith, room)))
  ]
]

module _ (env : Env) where
  -- the settings are those of before, and so is the number in flight of every address and of its subnet
  pub record Balanced (p p' : Proxy env) : Type 0 where
    pub settings : p'.engine.runtime ≡ p.engine.runtime
    pub in_flight :
        (ip : IpAddr) → Conns.current p'.engine.conns ip ≡ Conns.current p.engine.conns ip
    pub in_subnet : (k : ℕ) → flight p'.engine.subnets k ≡ flight p.engine.subnets k

  -- the end of a request that was entered and after which the table is as it was then
  leave-Balanced :
      (p : Proxy env) (e : Core env) (ip : IpAddr) (p' : Proxy env)
      → Distinct p.engine.subnets.in_flight
      → Framed env ip (enter env p.engine ip) e
      → p'.engine ≡ leave env e ip
      → Balanced p p'
  unfolding enter leave
  leave-Balanced p e ip p' d f left = record {
    settings = ap (λ g. g.runtime) left ∙ f.same_runtime;
    in_flight = λ j.
        ap (λ (g : Core env). Conns.current g.conns j) left
        ∙ (ap (λ m. Conns.current (Conns.dec m ip) j) f.same_conns
            ∙ current-inc-dec p.engine.conns ip j);
    in_subnet = λ k.
        ap (λ (g : Core env). flight g.subnets k) left
        ∙ flight-inc-dec p.engine.subnets e.subnets ip k d f.same_flights;
  }

  decide-Balanced :
      (p : Proxy env) (ctx : RequestCtx) (now_ms : ℕ) (failed : Bool)
      → Distinct p.engine.subnets.in_flight
      → let out = decide env (record p { engine = enter env p.engine ctx.client_ip }) ctx now_ms in
        Balanced p (logging env out.0 out.1 failed)
  unfolding decide logging
  decide-Balanced p ctx now_ms failed d =
      leave-Balanced p _ ctx.client_ip _ d
        (evaluate-Framed env (enter env p.engine ctx.client_ip) ctx now_ms) refl

  -- Once a request has ended, every address and every subnet has as many requests in flight as before it
  -- came, and the settings are as they were, whether the request was turned away at the door, answered by
  -- the proxy itself, decided upon or failed, however full the table of connections is, and also when the
  -- table of the subnets is cleaned up in between. No subnet has two entries in the table.
  pub logging-request_filter :
      (p : Proxy env) (ctx : RequestCtx) (now_ms : ℕ) (failed : Bool)
      → Distinct p.engine.subnets.in_flight
      → let out = request_filter env p ctx now_ms in Balanced p (logging env out.0 out.1 failed)
  unfolding request_filter logging
  logging-request_filter p ctx now_ms failed d =
      let Ends = λ (out : Proxy env × Handled). Balanced p (logging env out.0 out.1 failed) in
      if-ind Ends (at_capacity env p.engine)
        (λ _. record { settings = refl; in_flight = λ ip. refl; in_subnet = λ k. refl })
        (λ _.
          option-ind Ends (endpoint_of ctx) (λ _. decide-Balanced p ctx now_ms failed d)
            (λ o _.
              leave-Balanced p _ ctx.client_ip _ d
                (here env ctx.client_ip (enter env p.engine ctx.client_ip)) refl))

  -- and half way: the filter leaves the settings alone, and so does the end of a request
  pub runtime-request_filter :
      (p : Proxy env) (ctx : RequestCtx) (now_ms : ℕ)
      → (request_filter env p ctx now_ms).0.engine.runtime ≡ p.engine.runtime
  unfolding request_filter decide enter
  runtime-request_filter p ctx now_ms =
      let Same = λ (out : Proxy env × Handled). out.0.engine.runtime ≡ p.engine.runtime in
      if-ind Same (at_capacity env p.engine) (λ _. refl)
        (λ _.
          option-ind Same (endpoint_of ctx)
            (λ _. (evaluate-Framed env (enter env p.engine ctx.client_ip) ctx now_ms).same_runtime)
            (λ o _. refl))

  pub runtime-logging :
      (p : Proxy env) (h : Handled) (failed : Bool)
      → (logging env p h failed).engine.runtime ≡ p.engine.runtime
  unfolding logging leave
  runtime-logging p h failed =
      option-ind (λ (e : Core env). e.runtime ≡ p.engine.runtime) h.tracked_ip (λ _. refl)
        (λ ip _. refl)
