-- ===== src/Subnet/Flights.antt =====
-- The requests in flight of a subnet, across the calls of the tracker.
use t1_waf.Prelude.{
  nat_eq, or_else, ltb, ◌==◌, if◌then◌else◌, Option-cases, ℕ, ◌+◌, ◌-◌, ◌≡◌, refl, ◌∙◌, inl, inr,
  arith,
}
use t1_waf.Prelude.Cases.{if-ind}
use t1_waf.Prelude.Assoc.{
  lookup, Distinct, lookup-insert, lookup-retain, retain-Distinct, insert-Distinct,
}
use t1_waf.Request.{IpAddr}
use t1_waf.Subnet.{SubnetTracker, subnet_key, maybe_gc, observe, inc_inflight, dec_inflight}

-- the number in flight of the subnet with the given key
abbrev pub flight : SubnetTracker → ℕ → ℕ
flight t k = or_else (lookup k t.in_flight) 0

-- From a map without repetition, the numbers in flight stay what they are.
abbrev pub Kept : SubnetTracker → SubnetTracker → Type 0
Kept t t' = Distinct t.in_flight → Distinct t'.in_flight × ((k : ℕ) → flight t' k ≡ flight t k)

pub Kept-here : (t : SubnetTracker) → Kept t t
Kept-here t d = (d, λ k. refl)

pub Kept-trans : (a b c : SubnetTracker) → Kept a b → Kept b c → Kept a c
Kept-trans a b c f g d =
    let (d', same) = f d in let (d'', same') = g d' in (d'', λ k. same' k ∙ same k)

maybe_gc-Kept : (t : SubnetTracker) (now : ℕ) → Kept t (maybe_gc t now)
unfolding maybe_gc
maybe_gc-Kept t now =
    if-ind (Kept t) (ltb (now - t.last_gc) 60) (λ _. Kept-here t)
      (λ _ d.
        let positive = λ (_ v : ℕ). ltb 0 v in
        (
          retain-Distinct positive t.in_flight d,
          λ k. ground (arith, lookup-retain positive k t.in_flight d),
        ))

pub observe-Kept :
    (t : SubnetTracker) (ip : IpAddr) (rpm_cap conn_cap now : ℕ)
    → Kept t (observe t ip rpm_cap conn_cap now).0
unfolding observe
observe-Kept t ip rpm_cap conn_cap now = maybe_gc-Kept t now

flight-dec :
    (t : SubnetTracker) (ip : IpAddr) (k : ℕ)
    → flight (dec_inflight t ip) k ≡ (if subnet_key ip == k then flight t k - 1 else flight t k)
unfolding dec_inflight
flight-dec t ip k = elim (Option-cases (lookup (subnet_key ip) t.in_flight)) [
  | inl miss ↦ ground (arith, miss)
  | inr (v, hit) ↦ ground (arith, hit, lookup-insert (subnet_key ip) k (v - 1) t.in_flight)
]

flight-inc :
    (t : SubnetTracker) (ip : IpAddr) (k : ℕ)
    → flight (inc_inflight t ip) k ≡ (if subnet_key ip == k then flight t k + 1 else flight t k)
unfolding inc_inflight
flight-inc t ip k =
    let n = or_else (lookup (subnet_key ip) t.in_flight) 0 in
    ground (arith, lookup-insert (subnet_key ip) k (n + 1) t.in_flight)

-- A start and an end, with calls between them that keep the numbers, cancel out.
pub flight-inc-dec :
    (t t' : SubnetTracker) (ip : IpAddr) (k : ℕ)
    → Distinct t.in_flight
    → Kept (inc_inflight t ip) t'
    → flight (dec_inflight t' ip) k ≡ flight t k
unfolding inc_inflight
flight-inc-dec t t' ip k d h =
    let n = or_else (lookup (subnet_key ip) t.in_flight) 0 in
    let (d', same) = h (insert-Distinct (subnet_key ip) (n + 1) t.in_flight d) in
    ground (arith, flight-dec t' ip k, same k, flight-inc t ip k)
