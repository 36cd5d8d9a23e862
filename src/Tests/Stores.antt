-- ===== src/Tests/Stores.antt =====
-- The theorems on what the program remembers, at sample histories.
use t1_waf.Strings.{contains, ends_with, lowercase}
use t1_waf.Prelude.Assoc.{insert, lookup}
use t1_waf.Request.{ip_beq}
use t1_waf.Signature.{member}
use t1_waf.Prelude.{
  nat_eq, text_eq, is_some, take, ℕ, ◌+◌, ◌≤◌, min, ◌≡◌, refl, ◌↔◌, true, some, [], ◌∷◌, arith,
}
use t1_waf.Decision
use t1_waf.Decision.{DecisionReason, add_reasons}
use t1_waf.Events.{Event, event_of, with_capacity, recent}
use t1_waf.Events.Ring.{pushes, recent-pushes}
use mathlib.Core.List.{reverse}
use t1_waf.Signature.{repeat, replay_threshold, ReplayState}
use t1_waf.Signature.Replay.{repeats, repeat-reported, nil, cons}
use t1_waf.Behavior.{update, unseen}
use t1_waf.Behavior.Bounds.{IsBounded, update-IsBounded, unseen-IsBounded}
use t1_waf.GoodBot
use t1_waf.GoodBot.{KnownBot, Cache, Dns, classify, complete, verify_blocking, good_bot_verified}
use t1_waf.GoodBot.Run.{Reach, Lookup, Listed, here, asking}
use t1_waf.GoodBot.Verified.{Proved, classify-Proved}
use t1_waf.Tests.Samples.{dotted, plain, home}

abbrev event_at : ℕ → Event
event_at t = event_of dotted plain (Decision.allow []) t

recent-pushes_example :
    recent (pushes (with_capacity 2) (event_at 1 ∷ event_at 2 ∷ event_at 3 ∷ [])) 5
    ≡ take (min 5 2) (reverse (event_at 1 ∷ event_at 2 ∷ event_at 3 ∷ []))
recent-pushes_example = recent-pushes 1 5 (event_at 1 ∷ event_at 2 ∷ event_at 3 ∷ [])

abbrev first_time : ReplayState
first_time = record { last_hash = 7; count = 1; first_secs = 100 }

repeat-reported_example :
    (is_some (repeat (repeats first_time 7 (101 ∷ 102 ∷ [])) 7 103).1 ≡ true)
    ↔ (replay_threshold ≤ 2 + 2)
repeat-reported_example =
    repeat-reported first_time 7 (101 ∷ 102 ∷ []) 103 refl refl (omega arith)
      (cons (omega arith) (cons (omega arith) nil)) (omega arith)

update-IsBounded_example : IsBounded (update unseen (b'/' ∷ []) (b'G' ∷ []) (b'u' ∷ []) 5000)
update-IsBounded_example =
    update-IsBounded unseen (b'/' ∷ []) (b'G' ∷ []) (b'u' ∷ []) 5000 unseen-IsBounded

abbrev sample_bot : KnownBot
sample_bot = record { prefix = b'b' ∷ []; suffixes = (b'.' ∷ []) ∷ []; name = b'B' ∷ [] }

-- every address is named "x." and the name resolves to home
abbrev names : Dns
names = record {
  lookup_addr = λ ip. some (b'x' ∷ b'.' ∷ []);
  lookup_host = λ name. some (home ∷ []);
}

-- what the first request of the crawler leaves, and then the end of the lookup that it asks for
abbrev asked_cache : Cache
asked_cache = (classify (sample_bot ∷ []) [] home (b'b' ∷ []) 99).0

abbrev home_lookup : Lookup
home_lookup = record { dns = names; ip = home; bot = sample_bot }

abbrev after_lookup : Cache
after_lookup =
    complete asked_cache home (b'B' ∷ []) (some (verify_blocking names home ((b'.' ∷ []) ∷ []))) 100

recognised :
    (classify (sample_bot ∷ []) after_lookup home (b'b' ∷ []) 200).1 ≡ good_bot_verified (b'B' ∷ [])
unfolding classify GoodBot.find_bot contains lowercase GoodBot.live_verdict lookup complete insert
    ip_beq verify_blocking GoodBot.any_suffix ends_with member GoodBot.verdict_of
recognised = refl

spawned : (classify (sample_bot ∷ []) [] home (b'b' ∷ []) 99).2 ≡ some sample_bot
unfolding classify GoodBot.find_bot contains lowercase GoodBot.live_verdict lookup
spawned = refl

home_lookup-asked :
    Listed (home, sample_bot) (asking home (classify (sample_bot ∷ []) [] home (b'b' ∷ []) 99).2 [])
home_lookup-asked = rw spawned here

classify-Proved_example : Proved (sample_bot ∷ []) (home_lookup ∷ []) home (b'B' ∷ [])
classify-Proved_example =
    classify-Proved (sample_bot ∷ []) home (b'b' ∷ []) (b'B' ∷ []) 200
      (Reach.lookup_ends home_lookup 100 home_lookup-asked
        (Reach.request home (b'b' ∷ []) 99 Reach.start))
      recognised
