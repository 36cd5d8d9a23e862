-- ===== src/Subnet.antt =====
-- crates/waf-core/src/subnet.rs: request rate and requests in flight of a whole /24 or /64.
pub mod Flights
pub mod Keys
pub mod Rate
use t1_waf.Prelude.{
  Text, text, decimal, text_beq, nat_eq, text_eq, Eq, is_some, or_else, ltb, leb, ◌==◌,
  if◌then◌else◌, ltb→lt, lt→ltb, leb→le, le→leb, lt→leb_false, le→ltb_false, ==_iff, Bool-cases,
  Option-cases, length, get_elem?, set, length-append, length-set, get_elem?-set_self,
  get_elem?-set_ne, get_or, take, drop, replicate, take-append-drop, length-take, length-drop,
  length-replicate, length-map, u32_max, u64_mod, sat_add, add64, add32, ℕ, zero, suc, ◌+◌, ◌-◌,
  ◌*◌, ◌/◌, ◌%◌, ◌^◌, ◌≤◌, ◌<◌, min, max, ◌≡◌, refl, sym, ap, ◌∙◌, subst, ◌≢◌, ◌↔◌, ◌⊎◌, inl, inr,
  Bool, true, false, ◌&&◌, ◌||◌, not, Option, none, some, List, [], ◌∷◌, ◌++◌, map, arith, dec_lt,
  dec_le, ℕ_discrete,
}
use t1_waf.Prelude.Assoc.{lookup, insert, retain}
use t1_waf.Request.{IpAddr, v4, v6}
use t1_waf.Decision.{DecisionReason}
use t1_waf.Window.{Counter, fresh, hit, current}

pub record SubnetTracker : Type 0 where
  pub counters : List (ℕ × Counter)
  pub in_flight : List (ℕ × ℕ)
  pub last_gc : ℕ

abbrev pub w_subnet_flood : ℕ
w_subnet_flood = 80

abbrev pub w_subnet_conn : ℕ
w_subnet_conn = 70

-- `subnet_key`: shifts and ors of fields that do not overlap are sums of multiples of powers of two.
unfoldable pub subnet_key : IpAddr → ℕ
subnet_key (v4 a b c d) = a * 2 ^ 16 + b * 2 ^ 8 + c + 2 ^ 127
subnet_key (v6 a b c d e f g h) = a * 2 ^ 48 + b * 2 ^ 32 + c * 2 ^ 16 + d

-- `maybe_gc`: at most once a minute, drop what is idle.
unfoldable pub maybe_gc : SubnetTracker → ℕ → SubnetTracker
maybe_gc t now = if ltb (now - t.last_gc) 60 then t else record {
  counters = retain (λ _ c. ltb (now - c.head_secs) 60 && ltb 0 (current c)) t.counters;
  in_flight = retain (λ _ v. ltb 0 v) t.in_flight;
  last_gc = now;
}

-- the reasons that a count and a number in flight give
unfoldable pub subnet_reasons : ℕ → ℕ → ℕ → ℕ → List DecisionReason
subnet_reasons count rpm_cap cur conn_cap =
    (if ltb 0 rpm_cap && ltb rpm_cap count
      then record {
        rule_id = text "SUBNET-RPM";
        category = text "ddos";
        score = w_subnet_flood;
        detail = text "subnet rpm=" ++ decimal count ++ text " cap=" ++ decimal rpm_cap;
      }
        ∷ []
      else [])
    ++ (if ltb 0 conn_cap && ltb conn_cap cur
        then record {
          rule_id = text "SUBNET-CONN";
          category = text "ddos";
          score = w_subnet_conn;
          detail = text "subnet inflight=" ++ decimal cur ++ text " cap=" ++ decimal conn_cap;
        }
          ∷ []
        else [])

-- `SubnetTracker::observe` at the time `now`
unfoldable pub observe : SubnetTracker → IpAddr → ℕ → ℕ → ℕ → SubnetTracker × List DecisionReason
observe t ip rpm_cap conn_cap now =
    let key = subnet_key ip in
    let t' = maybe_gc t now in
    let (c, count) = hit (or_else (lookup key t'.counters) fresh) now in
    (
      record t' { counters = insert key c t'.counters },
      subnet_reasons count rpm_cap (or_else (lookup key t'.in_flight) 0) conn_cap,
    )

-- `inc_inflight`
unfoldable pub inc_inflight : SubnetTracker → IpAddr → SubnetTracker
inc_inflight t ip =
    let key = subnet_key ip in
    record t { in_flight = insert key (or_else (lookup key t.in_flight) 0 + 1) t.in_flight }

-- `dec_inflight`: a counter never goes below 0.
unfoldable pub dec_inflight : SubnetTracker → IpAddr → SubnetTracker
dec_inflight t ip = elim (lookup (subnet_key ip) t.in_flight) [
  | some v ↦ record t { in_flight = insert (subnet_key ip) (v - 1) t.in_flight }
  | none ↦ t
]

-- `tracked`
unfoldable pub tracked : SubnetTracker → ℕ
tracked t = length t.counters
