-- ===== src/Window.antt =====
-- The sliding-window counter: `Counter` of crates/waf-core/src/ratelimit.rs, and its copy in
-- crates/waf-core/src/subnet.rs. Six buckets of ten seconds.
pub mod Log
pub mod Refine
use t1_waf.Prelude.{ℕ, ◌+◌, ◌/◌, ◌%◌, ◌^◌, List, [], ◌∷◌, get_or, set, replicate, sat_add}
use t1_waf.Ring.{rotate}

abbrev pub buckets_len : ℕ
buckets_len = 6

abbrev pub bucket_secs : ℕ
bucket_secs = 10

pub record Counter : Type 0 where
  pub buckets : List ℕ
  pub head_secs : ℕ

-- `Counter::default()`
abbrev pub fresh : Counter
fresh = record { buckets = replicate buckets_len 0; head_secs = 0 }

abbrev pub total : List ℕ → ℕ
total [] = 0
total (x ∷ xs) = x + total xs

-- `iter().sum()` at `u32`, in a build without overflow checks
abbrev pub sum32 : List ℕ → ℕ
sum32 xs = total xs % 2 ^ 32

-- `Counter::hit`: the new counter and the hits of the window.
unfoldable pub hit : Counter → ℕ → Counter × ℕ
unfolding rotate
hit c now =
    let bs = rotate buckets_len 0 (c.head_secs / bucket_secs) (now / bucket_secs) c.buckets in
    let idx = now / bucket_secs % buckets_len in
    let bs' = set bs idx (sat_add (get_or bs idx 0) 1) in
    (record { buckets = bs'; head_secs = now }, sum32 bs')

-- `Counter::current` of subnet.rs
unfoldable pub current : Counter → ℕ
current c = sum32 c.buckets

-- the results of a run of hits
unfoldable pub hits : Counter → List ℕ → List ℕ
hits c [] = []
hits c (t ∷ ts) = let (c', n) = hit c t in n ∷ hits c' ts
