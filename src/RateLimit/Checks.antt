-- ===== src/RateLimit/Checks.antt =====
-- What a rate-limit check decides and which counters it touches.
use t1_waf.Window.Log.{count-le-length, bucket}
use t1_waf.Ring.Slots.{recent}
use t1_waf.Window.{buckets_len}
use t1_waf.Prelude.{
  Text, text, nat_eq, text_eq, or_else, ltb, if◌then◌else◌, length, u32_max, sat_add, ℕ, ◌+◌, ◌≤◌,
  ◌<◌, ◌≡◌, refl, ap, ◌∙◌, ◌≢◌, Bool, true, none, some, List, [], ◌∷◌, arith,
}
use t1_waf.Prelude.Assoc.{lookup, insert, lookup-insert_self, lookup-insert_ne, length-insert}
use t1_waf.Window.{Counter, fresh, hit}
use t1_waf.Window.Log.{in_window}
use t1_waf.Window.Refine.{Holds, hit-in_window}
use t1_waf.RateLimit.{
  Scope, CompiledRoute, Counters, RateLimiter, max_counters, full_count, bump, scale_rpm, exceeds,
  route_key, global_key, floor_scale, limited, check_routes, check_global, check_scaled,
}

-- the counter that a key stands for
abbrev pub counter_of : Text → Counters → Counter
counter_of k m = or_else (lookup k m) fresh

length-bump :
    (m : Counters) (k : Text) (now : ℕ)
    → length m ≤ max_counters + 1
    → length (bump m k now).0 ≤ max_counters + 1
unfolding bump
length-bump m k now h = ground (arith, length-insert k (hit (counter_of k m) now).0 m)

lookup-bump_ne :
    (m : Counters) (k j : Text) (now : ℕ) → k ≢ j → lookup j (bump m k now).0 ≡ lookup j m
unfolding bump
lookup-bump_ne m k j now ne = ground (arith, lookup-insert_ne k j (hit (counter_of k m) now).0 m ne)

length-bump-le : (m : Counters) (k : Text) (now : ℕ) → length (bump m k now).0 ≤ length m + 1
unfolding bump
length-bump-le m k now = ground (arith, length-insert k (hit (counter_of k m) now).0 m)

bump-room :
    (m : Counters) (k : Text) (now : ℕ)
    → length m ≤ max_counters
    → bump m k now ≡ (insert k (hit (counter_of k m) now).0 m, (hit (counter_of k m) now).1)
unfolding bump
bump-room m k now room = ground arith

bump-full :
    (m : Counters) (k : Text) (now : ℕ)
    → max_counters < length m
    → lookup k m ≡ none
    → bump m k now ≡ (m, full_count)
unfolding bump
bump-full m k now full miss = ground arith

global_key_inj : (ip ip' : Text) → global_key ip ≡ global_key ip' → ip ≡ ip'
unfolding global_key text
global_key_inj ip ip' h = cc

route_key-ne-global_key : (idx : ℕ) (ip ip' : Text) → route_key idx ip ≢ global_key ip'
unfolding route_key global_key text
route_key-ne-global_key idx ip ip' h = ground arith

-- a count of 32 bits exceeds the capped sum exactly when it exceeds the sum
exceeds-small : (n a b : ℕ) → n ≤ u32_max → exceeds n a b ≡ ltb (a + b) n
unfolding exceeds
exceeds-small n a b h = ground arith

in_window-le : (now : ℕ) (log : List ℕ) → in_window now log ≤ length log
unfolding in_window
in_window-le now log = count-le-length (λ t. recent buckets_len (bucket now) (bucket t)) log

module _ {Regex : Type 0} (is_match : Regex → Text → Bool) where
  lookup-check_routes :
      (rs : List (CompiledRoute Regex)) (idx : ℕ) (m : Counters) (ip path ip' : Text)
      (scale now : ℕ)
      → lookup (global_key ip') (check_routes is_match rs idx m ip path scale now).0
        ≡ lookup (global_key ip') m
  unfolding check_routes
  lookup-check_routes [] idx m ip path ip' scale now = refl
  lookup-check_routes (r ∷ rs) idx m ip path ip' scale now = ground (
    arith,
    lookup-check_routes rs (idx + 1) m ip path ip' scale now,
    lookup-bump_ne m (route_key idx ip) (global_key ip') now (route_key-ne-global_key idx ip ip'),
  )

  length-check_routes :
      (rs : List (CompiledRoute Regex)) (idx : ℕ) (m : Counters) (ip path : Text) (scale now : ℕ)
      → (length (check_routes is_match rs idx m ip path scale now).0 ≤ length m + 1)
        × (length m ≤ max_counters + 1
            → length (check_routes is_match rs idx m ip path scale now).0 ≤ max_counters + 1)
  unfolding check_routes
  length-check_routes [] idx m ip path scale now = (omega arith, λ h. h)
  length-check_routes (r ∷ rs) idx m ip path scale now =
      let (le, cap) = length-check_routes rs (idx + 1) m ip path scale now in
      (
        ground (arith, length-bump-le m (route_key idx ip) now),
        λ h. let c = cap h in ground (arith, length-bump m (route_key idx ip) now h),
      )

  -- A check takes no more than one entry past the limit of the table.
  pub length-check_scaled :
      (rl : RateLimiter Regex) (ip path : Text) (scale_bps now : ℕ)
      → length rl.counters ≤ max_counters + 1
      → length (check_scaled is_match rl ip path scale_bps now).0.counters ≤ max_counters + 1
  unfolding check_scaled check_global
  length-check_scaled rl ip path scale_bps now h =
      let scale = floor_scale scale_bps in
      let m = (check_routes is_match rl.routes 0 rl.counters ip path scale now).0 in
      let mid : length m ≤ max_counters + 1 =
        (length-check_routes rl.routes 0 rl.counters ip path scale now).1 h in
      ground (arith, mid, length-bump m (global_key ip) now mid)

  -- A check of one address leaves the global counter of every other address as it was.
  pub lookup-check_scaled_ne :
      (rl : RateLimiter Regex) (ip path ip' : Text) (scale_bps now : ℕ)
      → ip ≢ ip'
      → lookup (global_key ip') (check_scaled is_match rl ip path scale_bps now).0.counters
        ≡ lookup (global_key ip') rl.counters
  unfolding check_scaled check_global
  lookup-check_scaled_ne rl ip path ip' scale_bps now ne =
      let scale = floor_scale scale_bps in
      let m = (check_routes is_match rl.routes 0 rl.counters ip path scale now).0 in
      ground (
        arith,
        lookup-check_routes rl.routes 0 rl.counters ip path ip' scale now,
        lookup-bump_ne m (global_key ip) (global_key ip') now (λ e. ne (global_key_inj ip ip' e)),
      )

  -- what is left of a check that is on and that no route stops
  check_scaled-pass :
      (rl : RateLimiter Regex) (m : Counters) (ip path : Text) (scale_bps now : ℕ)
      → rl.enabled ≡ true
      → check_routes is_match rl.routes 0 rl.counters ip path (floor_scale scale_bps) now
        ≡ (m, none)
      → check_scaled is_match rl ip path scale_bps now ≡ (
          let b = bump m (global_key ip) now in
          (
            record rl { counters = b.0 },
            (if exceeds b.1 (scale_rpm rl.global_rpm (floor_scale scale_bps)) rl.global_burst
                then some (limited Scope.global path)
                else none),
          ))
  unfolding check_scaled check_global
  check_scaled-pass rl m ip path scale_bps now on pass = ground arith

  -- With the limiter on and room in the table, a request that no route limits is let through exactly
  -- when the requests of its address in the last six ten-second buckets, itself included, are at
  -- most the scaled ceiling plus the burst; the address's counter then holds the log with this
  -- request added. `log` is the log of the earlier requests that the counter holds.
  pub check_scaled-in_window :
      (rl : RateLimiter Regex) (ip path : Text) (scale_bps now : ℕ) {log : List ℕ}
      → rl.enabled ≡ true
      → length rl.counters < max_counters
      → (check_routes is_match rl.routes 0 rl.counters ip path (floor_scale scale_bps) now).1 ≡ none
      → Holds log (counter_of (global_key ip) rl.counters)
      → (counter_of (global_key ip) rl.counters).head_secs ≤ now
      → length log < u32_max
      → ((check_scaled is_match rl ip path scale_bps now).1 ≡ (
          if ltb
            (scale_rpm rl.global_rpm (floor_scale scale_bps) + rl.global_burst)
            (in_window now (now ∷ log))
          then some (limited Scope.global path)
          else none))
        × Holds
            (now ∷ log)
            (counter_of (global_key ip) (check_scaled is_match rl ip path scale_bps now).0.counters)
  check_scaled-in_window rl ip path scale_bps now {log} on room pass H le small =
      let cr = check_routes is_match rl.routes 0 rl.counters ip path (floor_scale scale_bps) now in
      let gk = global_key ip in
      let m : Counters = cr.0 in
      let same : lookup gk m ≡ lookup gk rl.counters =
        lookup-check_routes rl.routes 0 rl.counters ip path ip (floor_scale scale_bps) now in
      let fits : length m ≤ max_counters = omega (
        arith,
        (length-check_routes rl.routes 0 rl.counters ip path (floor_scale scale_bps) now).0,
      ) in
      let c : Counter = counter_of gk rl.counters in
      let counted = hit-in_window {log = log} {c = c} now H le small in
      let bumped : bump m gk now ≡ (insert gk (hit c now).0 m, (hit c now).1) =
        bump-room m gk now fits
        ∙ ap (λ o. (insert gk (hit (or_else o fresh) now).0 m, (hit (or_else o fresh) now).1))
            same in
      let e = check_scaled-pass rl m ip path scale_bps now on (ground arith) in
      (
        rw
            (
              e,
              bumped,
              counted.1,
              exceeds-small (in_window now (now ∷ log))
                  (scale_rpm rl.global_rpm (floor_scale scale_bps)) rl.global_burst
                  (omega (arith, in_window-le now (now ∷ log))),
            )
            refl,
        rw (e, bumped, lookup-insert_self gk (hit c now).0 m) counted.0,
      )

  -- A full table limits an address that it does not know, whatever the scale, unless the ceiling is
  -- above the count that stands for "full".
  pub check_scaled-full :
      (rl : RateLimiter Regex) (ip path : Text) (scale_bps now : ℕ)
      → rl.enabled ≡ true
      → rl.routes ≡ []
      → max_counters < length rl.counters
      → lookup (global_key ip) rl.counters ≡ none
      → sat_add (scale_rpm rl.global_rpm (floor_scale scale_bps)) rl.global_burst < full_count
      → check_scaled is_match rl ip path scale_bps now ≡ (rl, some (limited Scope.global path))
  unfolding exceeds
  check_scaled-full rl ip path scale_bps now on no_routes full miss low =
      rw
        (
          check_scaled-pass rl rl.counters ip path scale_bps now on (
              ap (λ rs. check_routes is_match rs 0 rl.counters ip path (floor_scale scale_bps) now)
                no_routes
              ∙ unfold check_routes in refl),
          bump-full rl.counters (global_key ip) now full miss,
        )
        (ground arith)
