-- ===== src/Metrics.antt =====
-- crates/waf-core/src/metrics.rs: the counters of the dashboard. A map is a list in the order in which
-- the program would iterate over it.
pub mod Eviction
pub mod Bounds
use t1_waf.Prelude.{
  Text, text_beq, nat_eq, text_eq, ltb, leb, ◌==◌, if◌then◌else◌, length, set, get_or, take,
  u64_mod, sat_add, add64, ℕ, ◌+◌, ◌-◌, ◌%◌, ◌<◌, ◌≡◌, refl, not, Option, none, some, List, [], ◌∷◌,
  arith,
}
use t1_waf.Prelude.Assoc.{lookup, insert, retain}
use t1_waf.Prelude.Sorting.{sort_by}
use t1_waf.Action.{Action}
use t1_waf.Ring.{rotate}

abbrev pub ring_buckets : ℕ
ring_buckets = 60

abbrev pub per_key_cap : ℕ
per_key_cap = 4096

pub record Bucket : Type 0 where
  pub allowed : ℕ
  pub challenged : ℕ
  pub blocked : ℕ

abbrev pub empty_bucket : Bucket
empty_bucket = record { allowed = 0; challenged = 0; blocked = 0 }

abbrev pub Counts : Type 0
Counts = List (Text × ℕ)

pub record Metrics : Type 0 where
  pub allowed : ℕ
  pub challenged : ℕ
  pub blocked : ℕ
  pub tarpit : ℕ
  pub rate_limited : ℕ
  pub upstream_errors : ℕ
  pub by_ip : Counts
  pub by_path : Counts
  pub by_country : Counts
  pub by_rule : Counts
  pub buckets : List Bucket
  pub head_secs : ℕ

-- the loop of `bump` over the entries: the first key with the smallest count below `min_count`
unfoldable pub min_key : Option Text → ℕ → Counts → Option Text
min_key best min_count [] = best
min_key best min_count ((k, c) ∷ m) =
    if ltb c min_count then min_key (some k) c m else min_key best min_count m

-- `map.remove(&k)`
unfoldable pub remove : Text → Counts → Counts
remove k m = retain (λ j c. not (text_beq j k)) m

-- the eviction of `bump`, from the first 32 entries
unfoldable pub evict : Counts → Counts
evict m = elim (min_key none (u64_mod - 1) (take 32 m)) [ none ↦ m | some k ↦ remove k m ]

-- `bump`
unfoldable pub bump : Counts → Text → Counts
bump m key = elim (lookup key m) [
  | some c ↦ insert key (add64 c 1) m
  | none ↦ insert key 1 (if leb per_key_cap (length m) then evict m else m)
]

unfoldable pub bump_some : Counts → Option Text → Counts
bump_some m none = m
bump_some m (some k) = bump m k

-- the bucket of the second; a tarpit counts as a block
unfoldable pub tally : Action → Bucket → Bucket
tally Action.allow b = record b { allowed = sat_add b.allowed 1 }
tally Action.challenge b = record b { challenged = sat_add b.challenged 1 }
tally Action.block b = record b { blocked = sat_add b.blocked 1 }
tally Action.tarpit b = record b { blocked = sat_add b.blocked 1 }

-- the counter of the action
unfoldable pub count_action : Action → Metrics → Metrics
count_action Action.allow m = record m { allowed = add64 m.allowed 1 }
count_action Action.challenge m = record m { challenged = add64 m.challenged 1 }
count_action Action.block m = record m { blocked = add64 m.blocked 1 }
count_action Action.tarpit m = record m { tarpit = add64 m.tarpit 1 }

-- `Metrics::record`, with the clock in seconds
unfoldable pub record_action :
    Metrics → Action → Text → Text → Option Text → Option Text → ℕ → Metrics
record_action m0 action ip path country rule now =
    let m = count_action action m0 in
    let head = if m.head_secs == 0 then now else m.head_secs in
    let ring = rotate ring_buckets empty_bucket head now m.buckets in
    let idx = now % ring_buckets in
    record m {
      by_ip = bump m.by_ip ip;
      by_path = bump m.by_path path;
      by_country = bump_some m.by_country country;
      by_rule = bump_some m.by_rule rule;
      buckets = set ring idx (tally action (get_or ring idx empty_bucket));
      head_secs = now;
    }

-- `top_n`: the entries by falling count, ties in the order of the map
unfoldable pub top_n : Counts → ℕ → Counts
top_n m n = take n (sort_by (λ x y. ltb y.1 x.1) m)

-- `Snapshot`
pub record Snapshot : Type 0 where
  pub allowed : ℕ
  pub challenged : ℕ
  pub blocked : ℕ
  pub tarpit : ℕ
  pub rate_limited : ℕ
  pub upstream_errors : ℕ
  pub unique_ips : ℕ
  pub unique_paths : ℕ
  pub unique_countries : ℕ
  pub top_ips : Counts
  pub top_paths : Counts
  pub top_countries : Counts
  pub top_rules : Counts
  pub ring : List Bucket

-- `Metrics::snapshot`
unfoldable pub snapshot : Metrics → Snapshot
snapshot m = record {
  allowed = m.allowed;
  challenged = m.challenged;
  blocked = m.blocked;
  tarpit = m.tarpit;
  rate_limited = m.rate_limited;
  upstream_errors = m.upstream_errors;
  unique_ips = length m.by_ip;
  unique_paths = length m.by_path;
  unique_countries = length m.by_country;
  top_ips = top_n m.by_ip 20;
  top_paths = top_n m.by_path 20;
  top_countries = top_n m.by_country 20;
  top_rules = top_n m.by_rule 20;
  ring = m.buckets;
}

-- the requests that have been counted
abbrev pub counted : Metrics → ℕ
counted m = m.allowed + m.challenged + m.blocked + m.tarpit

-- Each call counts its request in one of the four counters of actions and leaves the other counters as
-- they were, as long as no counter is at the end of its range.
pub record_action-counted :
    (m : Metrics) (a : Action) (ip path : Text) (country rule : Option Text) (now : ℕ)
    → counted m + 1 < u64_mod
    → (counted (record_action m a ip path country rule now) ≡ counted m + 1)
      × ((record_action m a ip path country rule now).rate_limited ≡ m.rate_limited)
unfolding record_action count_action
record_action-counted m Action.allow ip path country rule now h = (ground arith, refl)
record_action-counted m Action.challenge ip path country rule now h = (ground arith, refl)
record_action-counted m Action.block ip path country rule now h = (ground arith, refl)
record_action-counted m Action.tarpit ip path country rule now h = (ground arith, refl)
