-- ===== src/Tests/Engines.antt =====
-- The engine's theorems at sample requests.
use t1_waf.Reputation.{is_banned, refused, gc}
use t1_waf.Honeypots.{is_trap}
use t1_waf.Engine.{Engine, rate_scale, chal_t, block_t, level_params}
use t1_waf.Engine.Scaling.{rate_scale-legacy}
use t1_waf.Runtime.{apply_persisted, persisted}
use t1_waf.Runtime.Restart.{IsValid, apply_persisted-persisted}
use t1_waf.AutoUam.{tick, Gradual, tick-Gradual}
use t1_waf.Net.{parse_net}
use t1_waf.Tests.Samples.{single_nets, home, probe, sample_runtime, sample_reputations, dotted}
use t1_waf.Engine.Outlawed.{at_once, request, sweep}
use t1_waf.Request.{v4}
use t1_waf.Engine.Traps.{evaluate-trapped}
use t1_waf.Engine.Access.{evaluate-banned}
use t1_waf.Action
use t1_waf.Engine.Pipeline.{behavior_step, has_bic, rule_reasons}
use t1_waf.Decision.{add_reasons, allow}
use t1_waf.Engine.{chal_t, finalize, geoip_reason, header_reasons}
use t1_waf.Runtime.{from_u8}
use t1_waf.Conns.{current}
use t1_waf.Engine.{any_ignore_case, block_t, body_limit, find_longer, hard_limits}
use t1_waf.Strings.{eq_ignore_case}
use t1_waf.Engine.Pipeline.{
  after_limits, dist_ua_step, is_cleared, rate_limit, replay_step, signals, subnet_step, threshold,
}
use t1_waf.Request.{cookie}
use t1_waf.Prelude.Assoc.{lookup}
use t1_waf.Engine.Pipeline.{conn_limits, crawler, trap}
use t1_waf.Honeypots.{check, is_trap}
use t1_waf.Strings.{ends_with}
use t1_waf.Engine.{conn_cap, effective_level, level_params, uam_params}
use t1_waf.Prelude.{
  Text, text, text_beq, nat_eq, text_eq, ◌/◌, ◌≡◌, refl, true, false, ◌||◌, some, [], ◌∷◌, arith,
}
use t1_waf.Net.{any_contains}
use t1_waf.Action
use t1_waf.Reputation
use t1_waf.Events.{event_of, push}
use t1_waf.Engine.Pipeline.{evaluate}
use t1_waf.Engine.Access.{Pass, evaluate-Pass, evaluate-banned}
use t1_waf.Engine.Audit.{evaluate-Recorded}
use t1_waf.Engine.Traps.{evaluate-trapped}
use t1_waf.Tests.Samples.{
  sample_env, sample_engine, sample_runtime, sample_reputations, plain, probe, home, dotted,
}

evaluate-Recorded_example :
    (evaluate sample_env sample_engine plain 5000).0.events
    ≡ push sample_engine.events
        (event_of dotted plain (evaluate sample_env sample_engine plain 5000).1 5000)
evaluate-Recorded_example = evaluate-Recorded sample_env sample_engine plain 5000

evaluate-Pass_example : Pass sample_env sample_engine plain 5000
unfolding evaluate any_contains Reputation.classify Reputation.is_banned lookup crawler trap check
    is_trap ends_with text text_beq conn_limits conn_cap uam_params level_params effective_level
    from_u8 current hard_limits any_ignore_case eq_ignore_case find_longer body_limit rate_limit
    after_limits is_cleared cookie threshold block_t signals dist_ua_step replay_step subnet_step
    behavior_step add_reasons geoip_reason header_reasons has_bic rule_reasons allow chal_t finalize
evaluate-Pass_example = evaluate-Pass sample_env sample_engine plain 5000 refl

abbrev denied_engine : Engine Text Text
denied_engine = record sample_engine {
  reputations = record sample_reputations { deny = dotted home ∷ [] };
}

denies_home :
    (any_contains single_nets denied_engine.reputations.deny plain.client_ip
      || (is_banned single_nets denied_engine.reputations plain.client_ip (5000 / 1000)
          || any_contains single_nets denied_engine.runtime.deny plain.client_ip))
    ≡ true
unfolding any_contains text_beq
denies_home = refl

allows_none : any_contains single_nets [] home ≡ false
unfolding any_contains
allows_none = refl

evaluate-banned_example :
    ((evaluate sample_env denied_engine plain 5000).1.action ≡ Action.block)
    × ((evaluate sample_env denied_engine plain 5000).1.status ≡ 403)
evaluate-banned_example =
    evaluate-banned sample_env denied_engine plain 5000 allows_none allows_none denies_home

unknown_home :
    Reputation.classify single_nets sample_reputations home (5000 / 1000) ≡ Reputation.unknown
unfolding Reputation.classify any_contains is_banned lookup
unknown_home = refl

probes_trap : is_trap sample_engine.honeypots probe.path ≡ true
unfolding is_trap ends_with text text_beq
probes_trap = refl

has_room : refused single_nets sample_reputations home ≡ false
unfolding refused any_contains lookup
has_room = refl

-- the engine after the probe, the request of another address and a sweep
abbrev after_probe : Engine Text Text
after_probe = (evaluate sample_env sample_engine probe 5000).0

abbrev later_on : Engine Text Text
later_on = (evaluate sample_env after_probe (record plain { client_ip = v4 10 9 9 9 }) 9000).0

abbrev swept : Engine Text Text
swept = record later_on { reputations = gc single_nets later_on.reputations 3000 }

evaluate-trapped_example :
    ((evaluate sample_env swept plain 3_604_000).1.action ≡ Action.block)
    × ((evaluate sample_env swept plain 3_604_000).1.status ≡ 403)
evaluate-trapped_example =
    evaluate-trapped sample_env sample_engine probe plain 5000 3_604_000 allows_none unknown_home
      allows_none refl refl probes_trap has_room refl (omega arith)
      (sweep {e' = later_on} 3000 (omega arith) (
        request {e' = after_probe} (record plain { client_ip = v4 10 9 9 9 }) 9000 (omega arith)
          at_once))
      (omega arith)

rate_scale-legacy_example :
    rate_scale (record sample_runtime { rpm_under_attack_bps = 1 }) ≡ rate_scale sample_runtime
rate_scale-legacy_example = rate_scale-legacy sample_runtime 1

prints_back : (n : Text) → parse_net single_nets n ≡ some n
unfolding parse_net
prints_back n = refl

sample-IsValid : IsValid sample_runtime
sample-IsValid = record { level = omega arith; mode = omega arith; capitals = refl; token = refl }

apply_persisted-persisted_example :
    apply_persisted single_nets
      (persisted single_nets sample_runtime)
      (record sample_runtime { uam_level = 4; turnstile_secret = [] })
    ≡ sample_runtime
apply_persisted-persisted_example =
    apply_persisted-persisted single_nets sample_runtime
      (record sample_runtime { uam_level = 4; turnstile_secret = [] }) prints_back sample-IsValid
      refl

tick-Gradual_example :
    Gradual
      (record { prev_blocks = 0; last_change = 0 })
      (tick (record { prev_blocks = 0; last_change = 0 }) sample_runtime 1000 100).0
      sample_runtime
      (tick (record { prev_blocks = 0; last_change = 0 }) sample_runtime 1000 100).1
      100
tick-Gradual_example =
    tick-Gradual (record { prev_blocks = 0; last_change = 0 }) sample_runtime 1000 100 (omega arith)
