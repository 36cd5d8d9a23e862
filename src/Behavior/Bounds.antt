-- ===== src/Behavior/Bounds.antt =====
-- The memory that one address takes is bounded.
use t1_waf.Prelude.{
  Text, nat_eq, text_eq, ltb, ◌==◌, if◌then◌else◌, Bool-cases, length, length-append, length-set,
  get_or, length-replicate, sat_add, ℕ, ◌-◌, ◌/◌, ◌≤◌, ◌<◌, ◌≡◌, inl, inr, Bool, true, false, not,
  List, [], ◌∷◌, arith,
}
use t1_waf.BotScore.{is_empty}
use t1_waf.Behavior.{
  State, paths_cap, interval_cap, ua_cap, push_capped, push_distinct, contains_hash, update,
  method_index, unseen, window_secs,
}
use t1_waf.Signature.{fnv64}

-- the entry of an address stays within its limits
pub record IsBounded (s : State) : Type 0 where
  pub few_paths : length s.paths ≤ paths_cap
  pub few_intervals : length s.intervals ≤ interval_cap
  pub few_uas : length s.uas ≤ ua_cap
  pub eight_methods : length s.methods ≡ 8

length-push_capped :
    (cap x : ℕ) (xs : List ℕ) → 0 < cap → length xs ≤ cap → length (push_capped cap x xs) ≤ cap
unfolding push_capped
length-push_capped cap x [] pos h = ground arith
length-push_capped cap x (y ∷ ys) pos h =
    ground (arith, length-append {0} ys (x ∷ []), length-append {0} (y ∷ ys) (x ∷ []))

length-push_distinct :
    (cap x : ℕ) (xs : List ℕ) → 0 < cap → length xs ≤ cap → length (push_distinct cap x xs) ≤ cap
unfolding push_distinct
length-push_distinct cap x xs pos h = elim (Bool-cases (contains_hash x xs)) [
  | inl there ↦ ground arith
  | inr new ↦ ground (arith, length-push_capped cap x xs pos h)
]

length-if :
    (b : Bool) (cap : ℕ) (xs ys : List ℕ)
    → length xs ≤ cap
    → length ys ≤ cap
    → length (if b then xs else ys) ≤ cap
length-if true cap xs ys p q = p
length-if false cap xs ys p q = q

pub unseen-IsBounded : IsBounded unseen
unseen-IsBounded = record {
  few_paths = ground arith;
  few_intervals = ground arith;
  few_uas = ground arith;
  eight_methods = ground (arith, length-replicate {A = ℕ} 8 0);
}

-- the entry that the update starts from
reset-IsBounded : (b : Bool) (s : State) → IsBounded s → IsBounded (if b then unseen else s)
reset-IsBounded true s h = unseen-IsBounded
reset-IsBounded false s h = h

-- An entry keeps its limits at every request: at most 32 paths, 16 intervals and 4 user agents, and a
-- counter for each of the eight methods.
pub update-IsBounded :
    (s : State) (path method ua : Text) (now_ms : ℕ)
    → IsBounded s
    → IsBounded (update s path method ua now_ms)
unfolding update
update-IsBounded s0 path method ua now_ms h =
    let b = ltb window_secs (now_ms / 1000 - s0.last_seen) in
    let s : State = if b then unseen else s0 in
    let k : IsBounded s = reset-IsBounded b s0 h in
    record {
      few_paths = length-push_distinct paths_cap (fnv64 path) s.paths (ground arith) k.few_paths;
      few_intervals =
          length-if (not (s.last_seen == 0)) interval_cap _ s.intervals
            (length-push_capped interval_cap _ s.intervals (ground arith) k.few_intervals)
            k.few_intervals;
      few_uas =
          length-if (not (is_empty ua)) ua_cap _ s.uas
            (length-push_distinct ua_cap (fnv64 ua) s.uas (ground arith) k.few_uas) k.few_uas;
      eight_methods = ground (
        arith,
        length-set s.methods (method_index method)
            (sat_add (get_or s.methods (method_index method) 0) 1),
        k.eight_methods,
      );
    }
