-- ===== src/Tests/Limits.antt =====
-- The theorems on counters, bans and connections at sample states.
use t1_waf.Net.{any_contains}
use t1_waf.Prelude.{
  Text, nat_eq, ltb, if◌then◌else◌, ◌+◌, ◌≡◌, refl, Bool, true, false, ◌&&◌, none, some, List, [],
  ◌∷◌, arith,
}
use t1_waf.Prelude.Texts.{text_eq}
use t1_waf.Prelude.Assoc.{lookup, Distinct}
use t1_waf.Request.{IpAddr, ip_eq}
use t1_waf.Window.{fresh, hit, hits}
use t1_waf.Window.Log.{in_window, expected}
use t1_waf.Window.Refine.{Holds, hit-in_window, hits-expected, fresh-Holds}
use t1_waf.RateLimit
use t1_waf.RateLimit.{
  check_scaled, scale_rpm, floor_scale, limited, global_key, exceeds, max_counters, check_routes,
}
use t1_waf.RateLimit.Checks.{check_scaled-in_window, counter_of}
use t1_waf.Reputation.{HitState, is_banned, record_offence, dump_state, load_state}
use t1_waf.Reputation.Bans.{is_banned-record_offence, offences-threshold, offences}
use t1_waf.Reputation.Restart.{ban, ban-restart}
use t1_waf.Conns.{current}
use t1_waf.Conns.Balance.{start, stop, run, run-in_flight, in_flight}
use t1_waf.Subnet.{observe, subnet_reasons, SubnetTracker}
use t1_waf.Subnet.Rate.{observe-in_window}
use t1_waf.Tests.Samples.{sample_limiter, sample_reputations, single_nets, home}

abbrev no_match : Text → Text → Bool
no_match r s = false

hit-in_window_example :
    Holds (25 ∷ []) (hit fresh 25).0 × ((hit fresh 25).1 ≡ in_window 25 (25 ∷ []))
hit-in_window_example = hit-in_window 25 fresh-Holds (omega arith) (omega arith)

hits-expected_example : hits fresh (25 ∷ 31 ∷ 95 ∷ []) ≡ expected [] (25 ∷ 31 ∷ 95 ∷ [])
hits-expected_example =
    hits-expected (25 ∷ 31 ∷ 95 ∷ []) fresh-Holds (omega arith, (omega arith, (omega arith, tt)))
      (omega arith)

no_counter : counter_of (global_key (1 ∷ [])) [] ≡ fresh
unfolding lookup
no_counter = refl

check_scaled-in_window_example :
    ((check_scaled no_match sample_limiter (1 ∷ []) [] 10_000 25).1 ≡ (
      if ltb (scale_rpm 60 (floor_scale 10_000) + 10) (in_window 25 (25 ∷ []))
      then some (limited RateLimit.global [])
      else none))
    × Holds (25 ∷ []) (
        counter_of
          (global_key (1 ∷ []))
          (check_scaled no_match sample_limiter (1 ∷ []) [] 10_000 25).0.counters)
unfolding check_routes lookup
check_scaled-in_window_example =
    check_scaled-in_window no_match sample_limiter (1 ∷ []) [] 10_000 25 refl (omega arith) refl
      fresh-Holds (omega arith) (omega arith)

is_banned-record_offence_example :
    is_banned single_nets (record_offence single_nets sample_reputations home 100).0 home 200 ≡ (
      if (record_offence single_nets sample_reputations home 100).1 && ip_eq.beq home home
      then ltb 200 (100 + 3600)
      else is_banned single_nets sample_reputations home 200)
is_banned-record_offence_example =
    is_banned-record_offence single_nets sample_reputations home home 100 200 (omega arith)

offences-threshold_example :
    offences single_nets sample_reputations home (100 ∷ 110 ∷ 120 ∷ []) ≡ false ∷ false ∷ true ∷ []
unfolding any_contains lookup
offences-threshold_example =
    offences-threshold single_nets sample_reputations home 100 (110 ∷ 120 ∷ []) refl refl
      (omega arith) (omega arith) (omega arith, omega arith, (omega arith, omega arith, tt)) refl
      (omega arith)

abbrev one_ban : List (IpAddr × HitState)
one_ban = (home, record { hits = 3; first_hit = 10; ban_until = 500 }) ∷ []

one_ban-Distinct : Distinct one_ban
unfolding lookup
one_ban-Distinct = (refl, tt)

ban-restart_example :
    ban (load_state (dump_state one_ban 100) [] 120) home 130 ≡ ban one_ban home 130
ban-restart_example =
    ban-restart one_ban home 100 120 130 one_ban-Distinct (omega arith) (omega arith)

run-in_flight_example :
    current (run [] (start home ∷ start home ∷ stop home ∷ [])) home
    ≡ in_flight home 0 (start home ∷ start home ∷ stop home ∷ [])
run-in_flight_example = run-in_flight (start home ∷ start home ∷ stop home ∷ []) home (omega arith)

abbrev no_subnets : SubnetTracker
no_subnets = record { counters = []; in_flight = []; last_gc = 0 }

observe-in_window_example :
    (observe no_subnets home 2400 800 25).1 ≡ subnet_reasons (in_window 25 (25 ∷ [])) 2400 0 800
unfolding lookup
observe-in_window_example =
    observe-in_window no_subnets home 2400 800 25 tt tt fresh-Holds (omega arith) (omega arith)
