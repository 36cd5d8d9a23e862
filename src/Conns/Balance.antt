-- ===== src/Conns/Balance.antt =====
-- What the counters are after any run of requests that start and end.
use t1_waf.Prelude.Assoc.{insert-Distinct}
use t1_waf.Prelude.{
  nat_eq, text_eq, ltb, if◌then◌else◌, Option-cases, length, ℕ, ◌+◌, ◌-◌, ◌≤◌, ◌<◌, ◌≡◌, refl, ap,
  ◌∙◌, inl, inr, none, List, [], ◌∷◌, arith,
}
use t1_waf.Prelude.Assoc.{lookup, lookup-insert, length-insert, Distinct, lookup-retain}
use t1_waf.Request.{IpAddr, ip_eq, ip_beq_iff}
use t1_waf.Conns.{Conns, max_tracked, overflow_count, inc, dec, current, gc}

pub data Event : Type 0 where
  start : IpAddr → Event
  stop : IpAddr → Event

-- the table after the events, in their order
unfoldable pub run : Conns → List Event → Conns
run m [] = m
run m (start ip ∷ es) = run (inc m ip).0 es
run m (stop ip ∷ es) = run (dec m ip) es

-- Requests of one address in flight after the events, by the definition: starts add one, stops
-- take one off.
unfoldable pub in_flight : IpAddr → ℕ → List Event → ℕ
in_flight ip n [] = n
in_flight ip n (start j ∷ es) = in_flight ip (if ip_eq.beq j ip then n + 1 else n) es
in_flight ip n (stop j ∷ es) = in_flight ip (if ip_eq.beq j ip then n - 1 else n) es

pub current-inc :
    (m : Conns) (j ip : IpAddr)
    → length m ≤ max_tracked
    → current (inc m j).0 ip ≡ (if ip_eq.beq j ip then current m ip + 1 else current m ip)
unfolding current inc
current-inc m j ip room = elim (Option-cases (lookup j m)) [
  | inl miss ↦ ground (arith, ip_beq_iff j ip, lookup-insert j ip 1 m)
  | inr (v, hit) ↦ ground (arith, ip_beq_iff j ip, lookup-insert j ip (v + 1) m)
]

pub current-dec :
    (m : Conns) (j ip : IpAddr)
    → current (dec m j) ip ≡ (if ip_eq.beq j ip then current m ip - 1 else current m ip)
unfolding current dec
current-dec m j ip = elim (Option-cases (lookup j m)) [
  | inl miss ↦ ground (arith, ip_beq_iff j ip)
  | inr (v, hit) ↦ ground (arith, ip_beq_iff j ip, lookup-insert j ip (v - 1) m)
]

length-inc-le : (m : Conns) (ip : IpAddr) → length (inc m ip).0 ≤ length m + 1
unfolding inc
length-inc-le m ip = elim (Option-cases (lookup ip m)) [
  | inl miss ↦ ground (arith, length-insert ip 1 m)
  | inr (v, hit) ↦ ground (arith, length-insert ip (v + 1) m)
]

pub length-dec : (m : Conns) (ip : IpAddr) → length (dec m ip) ≡ length m
unfolding dec
length-dec m ip = elim (Option-cases (lookup ip m)) [
  | inl miss ↦ ground arith
  | inr (v, hit) ↦ ground (arith, length-insert ip (v - 1) m)
]

-- The table never holds more than one address past the limit.
pub length-inc-bound :
    (m : Conns) (ip : IpAddr) → length m ≤ max_tracked + 1 → length (inc m ip).0 ≤ max_tracked + 1
unfolding inc
length-inc-bound m ip h = elim (Option-cases (lookup ip m)) [
  | inl miss ↦ ground (arith, length-insert ip 1 m)
  | inr (v, hit) ↦ ground (arith, length-insert ip (v + 1) m)
]

pub run-in_flight_from :
    (m : Conns) (es : List Event) (ip : IpAddr)
    → length m + length es ≤ max_tracked
    → current (run m es) ip ≡ in_flight ip (current m ip) es
unfolding run in_flight
run-in_flight_from m [] ip room = refl
run-in_flight_from m (start j ∷ es) ip room =
    run-in_flight_from (inc m j).0 es ip (omega (arith, length-inc-le m j))
    ∙ ap (λ n. in_flight ip n es) (current-inc m j ip (omega arith))
run-in_flight_from m (stop j ∷ es) ip room =
    run-in_flight_from (dec m j) es ip (omega (arith, length-dec m j))
    ∙ ap (λ n. in_flight ip n es) (current-dec m j ip)

-- From an empty table, as long as the events number at most the limit of the table, the count of an
-- address is the number of its requests in flight.
pub run-in_flight :
    (es : List Event) (ip : IpAddr)
    → length es ≤ max_tracked
    → current (run [] es) ip ≡ in_flight ip 0 es
unfolding current lookup
run-in_flight es ip room = run-in_flight_from [] es ip (omega arith)

inc-Distinct : (m : Conns) (ip : IpAddr) → Distinct m → Distinct (inc m ip).0
unfolding inc
inc-Distinct m ip d = elim (Option-cases (lookup ip m)) [
  | inl miss ↦ ground (arith, insert-Distinct ip 1 m d)
  | inr (v, hit) ↦ ground (arith, insert-Distinct ip (v + 1) m d)
]

dec-Distinct : (m : Conns) (ip : IpAddr) → Distinct m → Distinct (dec m ip)
unfolding dec
dec-Distinct m ip d = elim (Option-cases (lookup ip m)) [
  | inl miss ↦ ground arith
  | inr (v, hit) ↦ ground (arith, insert-Distinct ip (v - 1) m d)
]

run-Distinct : (m : Conns) (es : List Event) → Distinct m → Distinct (run m es)
unfolding run
run-Distinct m [] d = d
run-Distinct m (start j ∷ es) d = run-Distinct (inc m j).0 es (inc-Distinct m j d)
run-Distinct m (stop j ∷ es) d = run-Distinct (dec m j) es (dec-Distinct m j d)

current-gc : (m : Conns) (ip : IpAddr) → Distinct m → current (gc m) ip ≡ current m ip
unfolding current gc
current-gc m ip d = elim (Option-cases (lookup ip m)) [
  | inl miss ↦ ground (arith, lookup-retain (λ _ v. ltb 0 v) ip m d)
  | inr (v, hit) ↦ ground (arith, lookup-retain (λ _ v. ltb 0 v) ip m d)
]

-- After any run of events a sweep drops only idle addresses: every count stays what it was.
pub current-gc-run :
    (es : List Event) (ip : IpAddr) → current (gc (run [] es)) ip ≡ current (run [] es) ip
current-gc-run es ip = current-gc (run [] es) ip (run-Distinct [] es tt)

-- A new address that meets a full table is told the overflow count, but is not tracked: the count
-- that the engine reads for it afterwards is 0.
pub inc-full :
    (m : Conns) (ip : IpAddr)
    → max_tracked < length m
    → lookup ip m ≡ none
    → ((inc m ip).1 ≡ overflow_count) × (current (inc m ip).0 ip ≡ 0)
unfolding inc current
inc-full m ip full miss = ground arith
