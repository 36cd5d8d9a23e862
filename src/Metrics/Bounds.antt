-- ===== src/Metrics/Bounds.antt =====
-- The maps of the metrics stay bounded, whatever keys requests bring.
use t1_waf.Prelude.{
  Text, nat_eq, text_eq, length, u64_mod, ℕ, ◌+◌, ◌-◌, ◌≤◌, ◌<◌, subst, Option, none, some, List,
  [], ◌∷◌, arith,
}
use t1_waf.Action.{Action}
use t1_waf.Metrics.{Metrics, Counts, bump, bump_some, count_action, per_key_cap, record_action}
-- a key that is found leaves with its entry
use t1_waf.Metrics.Eviction.{Low, length-bump, Low-more, Low-bump}

-- a request as `record` is told of it
pub record Call : Type 0 where
  pub action : Action
  pub ip : Text
  pub path : Text
  pub country : Option Text
  pub rule : Option Text
  pub now : ℕ

unfoldable pub records : Metrics → List Call → Metrics
records m [] = m
records m (c ∷ cs) = records (record_action m c.action c.ip c.path c.country c.rule c.now) cs

-- a map whose counts are low and whose keys are few
abbrev pub Fits : ℕ → Counts → Type 0
Fits n m = Low n m × (length m ≤ per_key_cap)

-- all four maps fit
pub record IsBounded (n : ℕ) (m : Metrics) : Type 0 where
  pub ips : Fits n m.by_ip
  pub paths : Fits n m.by_path
  pub countries : Fits n m.by_country
  pub rules : Fits n m.by_rule

Fits-bump :
    (n : ℕ) (m : Counts) (key : Text) → n < u64_mod - 1 → Fits n m → Fits (n + 1) (bump m key)
Fits-bump n m key small f = (Low-bump n m key small f.0, length-bump n m key small f.0 f.1)

Fits-bump_some :
    (n : ℕ) (m : Counts) (key : Option Text)
    → n < u64_mod - 1
    → Fits n m
    → Fits (n + 1) (bump_some m key)
unfolding bump_some
Fits-bump_some n m none small f = (Low-more n m f.0, f.1)
Fits-bump_some n m (some k) small f = Fits-bump n m k small f

count_action-IsBounded :
    (n : ℕ) (a : Action) (m : Metrics) → IsBounded n m → IsBounded n (count_action a m)
unfolding count_action
count_action-IsBounded n Action.allow m h = record {
  ips = h.ips;
  paths = h.paths;
  countries = h.countries;
  rules = h.rules;
}
count_action-IsBounded n Action.challenge m h = record {
  ips = h.ips;
  paths = h.paths;
  countries = h.countries;
  rules = h.rules;
}
count_action-IsBounded n Action.block m h = record {
  ips = h.ips;
  paths = h.paths;
  countries = h.countries;
  rules = h.rules;
}
count_action-IsBounded n Action.tarpit m h = record {
  ips = h.ips;
  paths = h.paths;
  countries = h.countries;
  rules = h.rules;
}

record_action-IsBounded :
    (n : ℕ) (m : Metrics) (a : Action) (ip path : Text) (country rule : Option Text) (now : ℕ)
    → n < u64_mod - 1
    → IsBounded n m
    → IsBounded (n + 1) (record_action m a ip path country rule now)
unfolding record_action
record_action-IsBounded n m a ip path country rule now small h =
    let h' = count_action-IsBounded n a m h in
    let m' = count_action a m in
    record {
      ips = Fits-bump n m'.by_ip ip small h'.ips;
      paths = Fits-bump n m'.by_path path small h'.paths;
      countries = Fits-bump_some n m'.by_country country small h'.countries;
      rules = Fits-bump_some n m'.by_rule rule small h'.rules;
    }

-- Whatever addresses, paths, countries and rules requests bring, each map of the metrics holds at most
-- 4096 keys, and no count exceeds the number of requests, for as many requests as a counter can count.
pub records-IsBounded :
    (n : ℕ) (m : Metrics) (cs : List Call)
    → n + length cs < u64_mod - 1
    → IsBounded n m
    → IsBounded (n + length cs) (records m cs)
unfolding records
records-IsBounded n m [] small h = subst (λ k. IsBounded k m) (omega arith) h
records-IsBounded n m (c ∷ cs) small h =
    subst (λ k. IsBounded k (records m (c ∷ cs))) (omega arith)
      (records-IsBounded (n + 1) _ cs (omega arith)
        (record_action-IsBounded n m c.action c.ip c.path c.country c.rule c.now (omega arith) h))
