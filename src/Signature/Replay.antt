-- ===== src/Signature/Replay.antt =====
-- When a repeated request is reported.
use t1_waf.Prelude.{
  Text, nat_eq, text_eq, is_some, ltb, ◌==◌, ==_iff, length, u32_max, u64_mod, sat_add, ℕ, ◌+◌, ◌-◌,
  ◌*◌, ◌%◌, ◌≤◌, ◌<◌, ◌≡◌, refl, sym, ap, ◌∙◌, ◌↔◌, true, false, ◌||◌, not, List, [], ◌∷◌, ◌++◌,
  arith,
}
use t1_waf.Signature.{
  ReplayState, repeat, fnv_from, fnv64, sig_hash, replay_threshold, replay_window_secs, fnv_start,
}
use Prim.Native.Nat.{bit_xor}

-- the state and the report after each of the same requests at the times of a list, the newest last
unfoldable pub repeats : ReplayState → ℕ → List ℕ → ReplayState
unfolding repeat
repeats s h [] = s
repeats s h (now ∷ ts) = repeats (repeat s h now).0 h ts

-- every time of the list lies in the window that starts at `first`
pub data InWindow (first : ℕ) : List ℕ → Type 0 where
  nil : InWindow first []
  cons :
      {now : ℕ} {ts : List ℕ}
      → now - first ≤ replay_window_secs
      → InWindow first ts
      → InWindow first (now ∷ ts)

repeat-again :
    (s : ReplayState) (h now : ℕ)
    → s.last_hash ≡ h
    → s.count < u32_max
    → now - s.first_secs ≤ replay_window_secs
    → (repeat s h now).0 ≡ record s { count = s.count + 1 }
unfolding repeat
repeat-again s h now same fits near =
    let test : (not (s.last_hash == h) || ltb replay_window_secs (now - s.first_secs)) ≡ false =
      ground (arith, ==_iff s.last_hash h) in
    let up : sat_add s.count 1 ≡ s.count + 1 = ground arith in
    rw test (ap (λ c. record s { count = c }) up)

repeats-count :
    (s : ReplayState) (h : ℕ) (ts : List ℕ)
    → s.last_hash ≡ h
    → s.count + length ts < u32_max
    → InWindow s.first_secs ts
    → ((repeats s h ts).count ≡ s.count + length ts)
      × (((repeats s h ts).last_hash ≡ h) × ((repeats s h ts).first_secs ≡ s.first_secs))
unfolding repeats
repeats-count s h [] same fits w = (ground arith, (same, refl))
repeats-count s h (now ∷ ts) same fits (cons near w) =
    let step = repeat-again s h now same (ground arith) near in
    let (c, (k, f)) = repeats-count (record s { count = s.count + 1 }) h ts same (ground arith) w in
    (
      ap (λ r. (repeats r h ts).count) step ∙ ground (arith, c),
      (
        ap (λ r. (repeats r h ts).last_hash) step ∙ k,
        ap (λ r. (repeats r h ts).first_secs) step ∙ f,
      ),
    )

fnv_from-append : (h : ℕ) (s t : Text) → fnv_from h (s ++ t) ≡ fnv_from (fnv_from h s) t
unfolding fnv_from
fnv_from-append h [] t = refl
fnv_from-append h (b ∷ s) t = fnv_from-append (bit_xor h b * 0x100000001b3 % u64_mod) s t

sig_hash-joined : (m p u : Text) → sig_hash m p u ≡ fnv64 (m ++ (p ++ u))
unfolding sig_hash fnv64
sig_hash-joined m p u =
    sym (fnv_from-append fnv_start m (p ++ u) ∙ fnv_from-append (fnv_from fnv_start m) p u)

-- The hash of a request is that of its three parts in a row, with nothing between them: requests whose
-- parts join to the same text are taken for repeats of each other.
pub sig_hash-joins :
    (m p u m' p' u' : Text) → m ++ (p ++ u) ≡ m' ++ (p' ++ u') → sig_hash m p u ≡ sig_hash m' p' u'
sig_hash-joins m p u m' p' u' same =
    sig_hash-joined m p u ∙ (ap fnv64 same ∙ sym (sig_hash-joined m' p' u'))

-- A request that an address repeats within 30 seconds of the first, with no request of another hash of the
-- address in between and fewer than 2^32 times, is reported exactly from the time on that makes it 25 with
-- the first.
pub repeat-reported :
    (s : ReplayState) (h : ℕ) (ts : List ℕ) (now : ℕ)
    → s.last_hash ≡ h
    → s.count ≡ 1
    → length ts + 2 < u32_max
    → InWindow s.first_secs ts
    → now - s.first_secs ≤ replay_window_secs
    → (is_some (repeat (repeats s h ts) h now).1 ≡ true) ↔ (replay_threshold ≤ length ts + 2)
unfolding repeat
repeat-reported s h ts now same one fits w near =
    let (c, (k, f)) = repeats-count s h ts same (ground arith) w in
    let test : (not ((repeats s h ts).last_hash == h)
          || ltb replay_window_secs (now - (repeats s h ts).first_secs))
        ≡ false =
      ground (arith, ==_iff (repeats s h ts).last_hash h) in
    rw test (ground (arith, c))
