-- ===== src/Conns.antt =====
-- `ConnTracker` of crates/waf-core/src/connections.rs: requests in flight for each address.
-- A counter is a natural number: the code stores 0 whenever a decrement would take it below.
pub mod Balance
use t1_waf.Prelude.{
  Text, text, decimal, text_beq, nat_eq, text_eq, Eq, is_some, or_else, ltb, leb, ◌==◌,
  if◌then◌else◌, ltb→lt, lt→ltb, leb→le, le→leb, lt→leb_false, le→ltb_false, ==_iff, Bool-cases,
  Option-cases, length, get_elem?, set, length-append, length-set, get_elem?-set_self,
  get_elem?-set_ne, get_or, take, drop, replicate, take-append-drop, length-take, length-drop,
  length-replicate, length-map, u32_max, u64_mod, sat_add, add64, add32, ℕ, zero, suc, ◌+◌, ◌-◌,
  ◌*◌, ◌/◌, ◌%◌, ◌^◌, ◌≤◌, ◌<◌, min, max, ◌≡◌, refl, sym, ap, ◌∙◌, subst, ◌≢◌, ◌↔◌, ◌⊎◌, inl, inr,
  Bool, true, false, ◌&&◌, ◌||◌, not, Option, none, some, List, [], ◌∷◌, ◌++◌, map, arith, dec_lt,
  dec_le, ℕ_discrete,
}
use t1_waf.Prelude.Assoc.{lookup, insert, retain, contains_key}
use t1_waf.Request.{IpAddr, ip_eq}

abbrev pub Conns : Type 0
Conns = List (IpAddr × ℕ)

-- the number of entries past which no new address is tracked
abbrev pub max_tracked : ℕ
max_tracked = 150_000

-- what a full table answers for a new address
abbrev pub overflow_count : ℕ
overflow_count = 999999

-- `ConnTracker::inc`: the new table and the value returned.
unfoldable pub inc : Conns → IpAddr → Conns × ℕ
inc m ip = elim (lookup ip m) [
  | some v ↦ (insert ip (v + 1) m, v + 1)
  | none ↦ if ltb max_tracked (length m) then (m, overflow_count) else (insert ip 1 m, 1)
]

-- `ConnTracker::dec`
unfoldable pub dec : Conns → IpAddr → Conns
dec m ip = elim (lookup ip m) [ some v ↦ insert ip (v - 1) m | none ↦ m ]

-- `ConnTracker::current`
unfoldable pub current : Conns → IpAddr → ℕ
current m ip = or_else (lookup ip m) 0

-- `ConnTracker::gc`
unfoldable pub gc : Conns → Conns
gc m = retain (λ _ v. ltb 0 v) m

-- `ConnTracker::total`
unfoldable pub total : Conns → ℕ
total [] = 0
total ((_, v) ∷ m) = v + total m
