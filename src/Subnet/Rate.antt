-- ===== src/Subnet/Rate.antt =====
-- The rate of a subnet is counted right, also across the clean-ups that drop its counter.
use t1_waf.Prelude.{
  nat_eq, text_eq, or_else, ltb, Option-cases, length, u32_max, ℕ, ◌+◌, ◌-◌, ◌≤◌, ◌<◌, ◌≡◌, refl,
  sym, ◌∙◌, ◌⊎◌, inl, inr, Bool, ◌&&◌, List, [], ◌∷◌, arith,
}
use t1_waf.Prelude.Assoc.{lookup, Distinct, lookup-retain}
use t1_waf.Request.{IpAddr}
use t1_waf.Window.{Counter, fresh, hit, current}
use t1_waf.Window.Log.{in_window}
use t1_waf.Window.Refine.{All, Holds, fresh-Holds, hit-in_window, sum32-Holds}
use t1_waf.Subnet.{SubnetTracker, subnet_key, maybe_gc, subnet_reasons, observe}

-- a minute after the last hit the window is empty
in_window-stale :
    (log : List ℕ) (head now : ℕ)
    → All (λ t. t ≤ head) log
    → head + 60 ≤ now
    → in_window now log ≡ 0
unfolding in_window
in_window-stale [] head now a h = refl
in_window-stale (t ∷ log) head now a h = ground (arith, in_window-stale log head now a.1 h)

-- a window only loses hits as time goes on
in_window_mono : (log : List ℕ) (head now : ℕ) → head ≤ now → in_window now log ≤ in_window head log
unfolding in_window
in_window_mono [] head now h = omega arith
in_window_mono (t ∷ log) head now h = ground (arith, in_window_mono log head now h)

in_window-nil : (now : ℕ) → in_window now [] ≡ 0
unfolding in_window
in_window-nil now = refl

in_window-cons : (now : ℕ) (log : List ℕ) → in_window now (now ∷ log) ≡ 1 + in_window now log
unfolding in_window
in_window-cons now log = ground arith

module _ (key : ℕ) (t : SubnetTracker) (now : ℕ) where
  -- the counter that the clean-up leaves for a key
  abbrev pub kept : Counter
  kept = or_else (lookup key (maybe_gc t now).counters) fresh

  kept-cases :
      Distinct t.counters
      → (kept ≡ or_else (lookup key t.counters) fresh)
        ⊎ ((kept ≡ fresh)
            × ((or_else (lookup key t.counters) fresh).head_secs + 60 ≤ now
                ⊎ current (or_else (lookup key t.counters) fresh) ≡ 0))
  unfolding maybe_gc
  kept-cases d = elim (Option-cases (lookup key t.counters)) [
    | inl miss ↦ ground (arith, lookup-retain keep key t.counters d)
    | inr (c, found) ↦ ground (arith, lookup-retain keep key t.counters d)
  ]
    where
      keep : ℕ → Counter → Bool
      keep _ c = ltb (now - c.head_secs) 60 && ltb 0 (current c)

  -- what the kept counter answers to a hit
  hit-kept :
      {log : List ℕ}
      → Distinct t.counters
      → Holds log (or_else (lookup key t.counters) fresh)
      → (or_else (lookup key t.counters) fresh).head_secs ≤ now
      → length log < u32_max
      → (hit kept now).1 ≡ in_window now (now ∷ log)
  unfolding current
  hit-kept {log} d H le small = elim (kept-cases d) [
    | inl same ↦ rw same (hit-in_window now H le small).1
    | inr (new, why) ↦
        let empty : in_window now log ≡ 0 = gone why in
        rw new (
          (hit-in_window now fresh-Holds (omega arith) (omega arith)).1
          ∙ in_window-cons now []
          ∙ omega (arith, in_window-nil now)
          ∙ sym (in_window-cons now log))
  ]
    where
      c : Counter
      c = or_else (lookup key t.counters) fresh

      gone : (c.head_secs + 60 ≤ now ⊎ current c ≡ 0) → in_window now log ≡ 0
      gone (inl old) = in_window-stale log c.head_secs now H.past old
      gone (inr idle) =
          omega (arith, in_window_mono log c.head_secs now le, sum32-Holds H (omega arith))

-- What the clean-up leaves of a number in flight reads the same.
in_flight-maybe_gc :
    (t : SubnetTracker) (key now : ℕ)
    → Distinct t.in_flight
    → or_else (lookup key (maybe_gc t now).in_flight) 0 ≡ or_else (lookup key t.in_flight) 0
unfolding maybe_gc
in_flight-maybe_gc t key now d = elim (Option-cases (lookup key t.in_flight)) [
  | inl miss ↦ ground (arith, lookup-retain (λ _ v. ltb 0 v) key t.in_flight d)
  | inr (v, found) ↦ ground (arith, lookup-retain (λ _ v. ltb 0 v) key t.in_flight d)
]

-- An observed request is judged by the true numbers: the requests of its subnet in the last six
-- ten-second buckets, itself included, and the subnet's requests in flight. The clean-up that may
-- run first does not change either. `log` holds the earlier requests that the subnet's counter
-- counts; no key stands twice in the tables.
pub observe-in_window :
    (t : SubnetTracker) (ip : IpAddr) (rpm_cap conn_cap now : ℕ) {log : List ℕ}
    → Distinct t.counters
    → Distinct t.in_flight
    → Holds log (or_else (lookup (subnet_key ip) t.counters) fresh)
    → (or_else (lookup (subnet_key ip) t.counters) fresh).head_secs ≤ now
    → length log < u32_max
    → (observe t ip rpm_cap conn_cap now).1
      ≡ subnet_reasons
          (in_window now (now ∷ log))
          rpm_cap
          (or_else (lookup (subnet_key ip) t.in_flight) 0)
          conn_cap
unfolding observe
observe-in_window t ip rpm_cap conn_cap now d d' H le small =
    rw (hit-kept (subnet_key ip) t now d H le small, in_flight-maybe_gc t (subnet_key ip) now d')
      refl
