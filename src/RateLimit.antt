-- ===== src/RateLimit.antt =====
-- crates/waf-core/src/ratelimit.rs: `RateLimiter`. The counters are keyed by the text that the
-- code formats. Regular expressions are the `regex` crate's: a type and its `is_match` are
-- parameters; a route is what `RateLimiter::new` compiles from a configured one.
pub mod Scale
pub mod Checks
use t1_waf.Prelude.{
  Text, text, decimal, text_beq, nat_eq, text_eq, Eq, is_some, or_else, ltb, leb, ◌==◌,
  if◌then◌else◌, ltb→lt, lt→ltb, leb→le, le→leb, lt→leb_false, le→ltb_false, ==_iff, Bool-cases,
  Option-cases, length, get_elem?, set, length-append, length-set, get_elem?-set_self,
  get_elem?-set_ne, get_or, take, drop, replicate, take-append-drop, length-take, length-drop,
  length-replicate, length-map, u32_max, u64_mod, sat_add, add64, add32, ℕ, zero, suc, ◌+◌, ◌-◌,
  ◌*◌, ◌/◌, ◌%◌, ◌^◌, ◌≤◌, ◌<◌, min, max, ◌≡◌, refl, sym, ap, ◌∙◌, subst, ◌≢◌, ◌↔◌, ◌⊎◌, inl, inr,
  Bool, true, false, ◌&&◌, ◌||◌, not, Option, none, some, List, [], ◌∷◌, ◌++◌, map, arith, dec_lt,
  dec_le, ℕ_discrete,
}
use t1_waf.Prelude.Assoc.{lookup, insert, retain, contains_key}
use t1_waf.Window.{Counter, fresh, hit, bucket_secs}

pub data Scope : Type 0 where
  route global : Scope

-- the `Err` of `check_scaled`
pub record Limited : Type 0 where
  pub retry_after : ℕ
  pub scope : Scope
  pub path : Text

pub record CompiledRoute (Regex : Type 0) : Type 0 where
  pub re : Regex
  pub rpm : ℕ
  pub burst : ℕ

abbrev pub Counters : Type 0
Counters = List (Text × Counter)

pub record RateLimiter (Regex : Type 0) : Type 0 where
  pub enabled : Bool
  pub global_rpm : ℕ
  pub global_burst : ℕ
  pub routes : List (CompiledRoute Regex)
  pub counters : Counters

abbrev pub max_counters : ℕ
max_counters = 150_000

abbrev pub full_count : ℕ
full_count = 999999

-- `RateLimiter::bump`
unfoldable pub bump : Counters → Text → ℕ → Counters × ℕ
bump m key now =
    if not (contains_key key m) && ltb max_counters (length m)
    then (m, full_count)
    else (let (c, n) = hit (or_else (lookup key m) fresh) now in (insert key c m, n))

-- `scale_rpm`: the product fits a `u64`; the quotient is cut to a `u32`.
unfoldable pub scale_rpm : ℕ → ℕ → ℕ
scale_rpm rpm scale_bps = rpm * scale_bps / 10_000 % 2 ^ 32

-- `exceeds`
unfoldable pub exceeds : ℕ → ℕ → ℕ → Bool
exceeds count rpm burst = ltb (sat_add rpm burst) count

-- `format!("r{idx}|{ip}")`
unfoldable pub route_key : ℕ → Text → Text
route_key idx ip = text "r" ++ decimal idx ++ text "|" ++ ip

-- `format!("g|{ip}")`
unfoldable pub global_key : Text → Text
global_key ip = text "g|" ++ ip

-- `scale_bps.max(100)`
abbrev pub floor_scale : ℕ → ℕ
floor_scale scale_bps = max scale_bps 100

abbrev pub limited : Scope → Text → Limited
limited scope path = record { retry_after = bucket_secs; scope = scope; path = path }

module _ {Regex : Type 0} (is_match : Regex → Text → Bool) where
  -- the loop over the routes, from index `idx` on: only the first that matches counts
  unfoldable pub check_routes :
      List (CompiledRoute Regex) → ℕ → Counters → Text → Text → ℕ → ℕ → Counters × Option Limited
  check_routes [] idx m ip path scale now = (m, none)
  check_routes (r ∷ rs) idx m ip path scale now =
      let rest = check_routes rs (idx + 1) m ip path scale now in
      if is_match r.re path
      then (let (m', count) = bump m (route_key idx ip) now in
          (
            m',
            (if exceeds count (scale_rpm r.rpm scale) r.burst
                then some (limited route path)
                else none),
          ))
      else rest

  -- the ceiling over all routes
  unfoldable pub check_global :
      RateLimiter Regex → Counters → Text → Text → ℕ → ℕ → Counters × Option Limited
  check_global rl m ip path scale now =
      let (m', count) = bump m (global_key ip) now in
      (
        m',
        (if exceeds count (scale_rpm rl.global_rpm scale) rl.global_burst
            then some (limited global path)
            else none),
      )

  -- `RateLimiter::check_scaled` at the time `now`; `none` is `Ok(())`.
  unfoldable pub check_scaled :
      RateLimiter Regex → Text → Text → ℕ → ℕ → RateLimiter Regex × Option Limited
  check_scaled rl ip path scale_bps now =
      if rl.enabled
      then (let scale = floor_scale scale_bps in
          let (m, verdict) = check_routes rl.routes 0 rl.counters ip path scale now in
          let (m', verdict') = check_global rl m ip path scale now in
          elim verdict [
            | some l ↦ (record rl { counters = m }, some l)
            | none ↦ (record rl { counters = m' }, verdict')
          ])
      else (rl, none)

-- `RateLimiter::gc`
unfoldable pub gc : {Regex : Type 0} → RateLimiter Regex → ℕ → ℕ → RateLimiter Regex
gc rl max_age_secs now = record rl {
  counters = retain (λ _ c. ltb (now - c.head_secs) max_age_secs) rl.counters;
}
