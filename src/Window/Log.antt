-- ===== src/Window/Log.antt =====
-- What a window counter should count: the hits of a log of times, newest first.
use t1_waf.Prelude.{
  ℕ, ◌+◌, ◌/◌, ◌%◌, ◌≤◌, ◌≡◌, refl, List, [], ◌∷◌, Bool, false, ◌&&◌, ◌==◌, if◌then◌else◌, length,
  arith,
}
use t1_waf.Ring.Slots.{recent}
use t1_waf.Window.{buckets_len, bucket_secs}

abbrev pub count {ℓ} : {A : Type ℓ} → (A → Bool) → List A → ℕ
count p [] = 0
count p (x ∷ xs) = (if p x then 1 else 0) + count p xs

abbrev pub bucket : ℕ → ℕ
bucket t = t / bucket_secs

-- the hits of the last six buckets, the current one included
unfoldable pub in_window : ℕ → List ℕ → ℕ
in_window now log = count (λ t. recent buckets_len (bucket now) (bucket t)) log

-- the same, as the results of a run of hits
unfoldable pub expected : List ℕ → List ℕ → List ℕ
expected log [] = []
expected log (t ∷ ts) = in_window t (t ∷ log) ∷ expected (t ∷ log) ts

-- times that do not go back, from `start` on
abbrev pub Ordered : ℕ → List ℕ → Type 0
Ordered start [] = Unit
Ordered start (t ∷ ts) = (start ≤ t) × Ordered t ts

-- those of them that fall in the slot `r` of the array, at the bucket `b`
abbrev pub in_cell : ℕ → ℕ → ℕ → Bool
in_cell b r t = recent buckets_len b (bucket t) && (bucket t % buckets_len == r)

pub count-le-length {ℓ} : {A : Type ℓ} (p : A → Bool) (xs : List A) → count p xs ≤ length xs
count-le-length p [] = omega arith
count-le-length p (x ∷ xs) = ground (arith, count-le-length p xs)

pub count-false {ℓ} : {A : Type ℓ} (xs : List A) → count (λ _. false) xs ≡ 0
count-false [] = refl
count-false (x ∷ xs) = omega (arith, count-false xs)

one_cell :
    (b t : ℕ)
    → (if recent buckets_len b (bucket t) then 1 else 0)
      ≡ (if in_cell b 0 t then 1 else 0)
        + ((if in_cell b 1 t then 1 else 0)
            + ((if in_cell b 2 t then 1 else 0)
                + ((if in_cell b 3 t then 1 else 0)
                    + ((if in_cell b 4 t then 1 else 0) + ((if in_cell b 5 t then 1 else 0) + 0)))))
one_cell b t = ground arith

-- each hit of the window falls in one slot
pub in_window-cells :
    (now : ℕ) (log : List ℕ)
    → in_window now log
      ≡ count (in_cell (bucket now) 0) log
        + (count (in_cell (bucket now) 1) log
            + (count (in_cell (bucket now) 2) log
                + (count (in_cell (bucket now) 3) log
                    + (count (in_cell (bucket now) 4) log
                        + (count (in_cell (bucket now) 5) log + 0)))))
unfolding in_window
in_window-cells now [] = refl
in_window-cells now (t ∷ log) = omega (arith, one_cell (bucket now) t, in_window-cells now log)
