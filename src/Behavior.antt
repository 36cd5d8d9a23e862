-- ===== src/Behavior.antt =====
-- crates/waf-core/src/behavior.rs: what one address does over time. The 32-bit floats of the
-- interval test are a parameter: a type with the operations that the code applies.
pub mod Bounds
use t1_waf.Prelude.{
  Text, text, decimal, text_beq, nat_eq, text_eq, Eq, is_some, or_else, ltb, leb, ◌==◌,
  if◌then◌else◌, ltb→lt, lt→ltb, leb→le, le→leb, lt→leb_false, le→ltb_false, ==_iff, Bool-cases,
  Option-cases, length, get_elem?, set, length-append, length-set, get_elem?-set_self,
  get_elem?-set_ne, get_or, take, drop, replicate, take-append-drop, length-take, length-drop,
  length-replicate, length-map, u32_max, u64_mod, sat_add, add64, add32, ℕ, zero, suc, ◌+◌, ◌-◌,
  ◌*◌, ◌/◌, ◌%◌, ◌^◌, ◌≤◌, ◌<◌, min, max, ◌≡◌, refl, sym, ap, ◌∙◌, subst, ◌≢◌, ◌↔◌, ◌⊎◌, inl, inr,
  Bool, true, false, ◌&&◌, ◌||◌, not, Option, none, some, List, [], ◌∷◌, ◌++◌, map, arith, dec_lt,
  dec_le, ℕ_discrete,
}
use t1_waf.Prelude.Assoc.{lookup, insert, retain}
use t1_waf.Strings.{uppercase}
use t1_waf.Request.{IpAddr, ip_eq}
use t1_waf.Decision.{DecisionReason}
use t1_waf.BotScore.{reason, push_if, is_empty}
use t1_waf.Signature.{fnv64}
use mathlib.Core.List.{foldl}

-- `f32`: conversion from a `u32`, literals as fractions, the operations, and the two formats
pub record F32 : Type 1 where
  pub Float : Type 0
  pub from_u32 : ℕ → Float
  pub frac : ℕ → ℕ → Float
  pub add : Float → Float → Float
  pub sub : Float → Float → Float
  pub div : Float → Float → Float
  pub square : Float → Float
  pub sqrt : Float → Float
  pub lt : Float → Float → Bool
  pub le : Float → Float → Bool
  pub show2 : Float → Text
  pub show0 : Float → Text

abbrev pub window_secs : ℕ
window_secs = 60

abbrev pub paths_cap : ℕ
paths_cap = 32

abbrev pub interval_cap : ℕ
interval_cap = 16

abbrev pub ua_cap : ℕ
ua_cap = 4

pub record State : Type 0 where
  pub first_seen : ℕ
  pub last_seen : ℕ
  pub request_count : ℕ
  pub paths : List ℕ
  pub intervals : List ℕ
  pub methods : List ℕ
  pub uas : List ℕ

-- `State::default()`
abbrev pub unseen : State
unseen = record {
  first_seen = 0;
  last_seen = 0;
  request_count = 0;
  paths = [];
  intervals = [];
  methods = replicate 8 0;
  uas = [];
}

-- `method_index`
unfoldable pub method_index : Text → ℕ
method_index m =
    let u = uppercase m in
    if text_beq u (text "GET")
    then 0
    else if text_beq u (text "POST")
    then 1
    else if text_beq u (text "PUT")
    then 2
    else if text_beq u (text "DELETE")
    then 3
    else if text_beq u (text "PATCH")
    then 4
    else if text_beq u (text "OPTIONS")
    then 5
    else if text_beq u (text "HEAD")
    then 6
    else 7

unfoldable pub contains_hash : ℕ → List ℕ → Bool
contains_hash h [] = false
contains_hash h (x ∷ xs) = (x == h) || contains_hash h xs

-- the oldest entry goes when the list is full; the new one stands at the back
unfoldable pub push_capped : ℕ → ℕ → List ℕ → List ℕ
push_capped cap x xs = (if length xs == cap then drop 1 xs else xs) ++ (x ∷ [])

-- the same for a set: nothing happens if the entry is there
unfoldable pub push_distinct : ℕ → ℕ → List ℕ → List ℕ
unfolding push_capped contains_hash
push_distinct cap x xs = if contains_hash x xs then xs else push_capped cap x xs

-- the updates of `observe` on the entry of the address
unfoldable pub update : State → Text → Text → Text → ℕ → State
update s0 path method ua now_ms =
    let now_s = now_ms / 1000 in
    let s = if ltb window_secs (now_s - s0.last_seen) then unseen else s0 in
    let mi = method_index method in
    record {
      first_seen = (if s.first_seen == 0 then now_s else s.first_seen);
      last_seen = now_s;
      request_count = sat_add s.request_count 1;
      paths = push_distinct paths_cap (fnv64 path) s.paths;
      intervals =
          (if not (s.last_seen == 0)
            then push_capped interval_cap ((now_ms - s.last_seen * 1000) % 2 ^ 32) s.intervals
            else s.intervals);
      methods = set s.methods mi (sat_add (get_or s.methods mi 0) 1);
      uas = (if not (is_empty ua) then push_distinct ua_cap (fnv64 ua) s.uas else s.uas);
    }

pub record BehaviorTracker : Type 0 where
  pub by_ip : List (IpAddr × State)
  pub last_gc : ℕ

-- `gc`, with its cadence of 30 seconds in `observe`
unfoldable pub behavior_gc : BehaviorTracker → ℕ → BehaviorTracker
behavior_gc b now_s =
    if ltb 30 (now_s - b.last_gc)
    then record {
      by_ip = retain (λ _ s. leb (now_s - s.last_seen) (window_secs * 2)) b.by_ip;
      last_gc = now_s;
    }
    else b

module _ (f : F32) where
  open f use {Float, from_u32, frac, add, sub, div, square, sqrt, lt, le, show2, show0}

  -- `sum::<f32>() / len as f32`
  unfoldable pub mean_of : List Float → ℕ → Float
  mean_of xs n = div (foldl add (from_u32 0) xs) (from_u32 n)

  -- the reason for intervals that are too regular
  unfoldable pub regular_reason : List ℕ → ℕ → List DecisionReason
  regular_reason intervals count =
      let n = length intervals in
      let mean = mean_of (map from_u32 intervals) n in
      let var = mean_of (map (λ v. square (sub (from_u32 v) mean)) intervals) n in
      let cv = div (sqrt var) mean in
      push_if (leb 8 n && (lt (frac 5 1) mean && (lt cv (frac 15 100) && leb 15 count))) (
        reason (text "BHV-REGULAR") (text "behavior") 35 (
          text "interval cv="
          ++ (show2 cv ++ (text " mean=" ++ (show0 mean ++ (text "ms n=" ++ decimal n))))))

  -- the reasons that `observe` gives for the updated entry
  unfoldable pub score_state : State → List DecisionReason
  score_state s =
      let count = s.request_count in
      let unique_paths = length s.paths in
      let opt = add32 (get_or s.methods 5 0) (get_or s.methods 6 0) in
      push_if (leb 30 count && ltb unique_paths 3) (
        reason (text "BHV-LOWDIV") (text "behavior") 30 (
          decimal count
          ++ (text " requests on " ++ (decimal unique_paths ++ text " unique paths in window"))))
      ++ (regular_reason s.intervals count
          ++ (push_if (leb 25 count && le (frac 9 10) (div (from_u32 opt) (from_u32 count))) (
                reason (text "BHV-METHOD-BIAS") (text "behavior") 25 (
                  decimal (opt * 100 % 2 ^ 32 / max count 1)
                  ++ (text "% OPTIONS+HEAD of " ++ (decimal count ++ text " requests"))))
              ++ push_if (leb 3 (length s.uas)) (
                  reason (text "BHV-UA-CHURN") (text "behavior") 30
                    (decimal (length s.uas) ++ text " distinct User-Agents from same IP"))))

  -- `BehaviorTracker::observe`
  unfoldable pub observe :
      BehaviorTracker → IpAddr → Text → Text → Text → ℕ → BehaviorTracker × List DecisionReason
  observe b ip path method ua now_ms =
      let b' = behavior_gc b (now_ms / 1000) in
      let s = update (or_else (lookup ip b'.by_ip) unseen) path method ua now_ms in
      (record b' { by_ip = insert ip s b'.by_ip }, score_state s)
