-- ===== src/Window/Refine.antt =====
-- The counter counts the hits of the window.
use t1_waf.Window.{sum32}
use t1_waf.Ring.Slots.{get_or-set_ne}
use t1_waf.Window.Log.{Ordered}
use t1_waf.Window.Log.{in_window-cells}
use t1_waf.Ring.Slots.{get_or-set_self}
use t1_waf.Ring.Slots.{recent}
use t1_waf.Window.Log.{expected}
use t1_waf.Window.Log.{count-le-length}
use t1_waf.Window.Log.{in_window}
use t1_waf.Window.{hits}
use t1_waf.Prelude.{nat_eq, text_eq, set, sat_add, ◌+◌, ◌%◌, refl, ap, subst, ℕ_discrete}
use t1_waf.Prelude.{sym}
use t1_waf.Ring.Slots.{length-rotate}
use t1_waf.Prelude.{length-set}
use t1_waf.Prelude.{◌∙◌}
use t1_waf.Ring.Slots.{get_or-replicate}
use t1_waf.Ring.Slots.{get_or-rotate}
use t1_waf.Window.{hit}
use t1_waf.Window.{rotate}
use t1_waf.Prelude.{u32_max}
use t1_waf.Window.{fresh}
use t1_waf.Window.{total}
use t1_waf.Prelude.{ℕ, ◌-◌, ◌≤◌, ◌<◌, ◌≡◌, List, [], ◌∷◌, ltb, if◌then◌else◌, length, get_or, arith}
use t1_waf.Ring.Slots.{age, recent-rotate}
use t1_waf.Window.{Counter, buckets_len}
use t1_waf.Window.Log.{count, bucket, in_cell}

abbrev pub All {ℓ κ} : {A : Type ℓ} → (A → Type κ) → List A → Type κ
All P [] = Unit
All P (x ∷ xs) = P x × All P xs

-- `c` holds the log: each slot counts the hits of the window that fall in it.
pub record Holds (log : List ℕ) (c : Counter) : Type 0 where
  pub size : length c.buckets ≡ buckets_len
  pub past : All (λ t. t ≤ c.head_secs) log
  pub cells :
      (r : ℕ) → r < buckets_len → get_or c.buckets r 0 ≡ count (in_cell (bucket c.head_secs) r) log

-- The counts of the slots after a rotation.
cells-rotate :
    (log : List ℕ) (head now r : ℕ)
    → All (λ t. t ≤ head) log
    → head ≤ now
    → r < buckets_len
    → count (in_cell (bucket now) r) log ≡ (
        if ltb (age buckets_len (bucket now) r) (bucket now - bucket head)
        then 0
        else count (in_cell (bucket head) r) log)
cells-rotate [] head now r a le h = ground arith
cells-rotate (t ∷ log) head now r a le h =
    let one =
      recent-rotate buckets_len (bucket head) (bucket now) (bucket t) r (omega arith) (omega arith)
        h in
    let rest = cells-rotate log head now r a.1 le h in ground arith

cells-empty : (r : ℕ) (log : List ℕ) → count (in_cell 0 r) [] ≡ 0
cells-empty r log = refl

-- The fresh counter holds the empty log.
pub fresh-Holds : Holds [] fresh
fresh-Holds = record { size = refl; past = tt; cells = λ r h. get_or-replicate buckets_len r 0 }

All-le_trans : (log : List ℕ) (a b : ℕ) → All (λ t. t ≤ a) log → a ≤ b → All (λ t. t ≤ b) log
All-le_trans [] a b h le = tt
All-le_trans (t ∷ log) a b h le = (omega arith, All-le_trans log a b h.1 le)

-- the sum of six slots
total_of_six :
    (xs : List ℕ)
    → length xs ≡ buckets_len
    → total xs
      ≡ get_or xs 0 0
        + (get_or xs 1 0
            + (get_or xs 2 0 + (get_or xs 3 0 + (get_or xs 4 0 + (get_or xs 5 0 + 0)))))
total_of_six (a ∷ b ∷ c ∷ d ∷ e ∷ f ∷ []) h = refl
total_of_six xs h = absurd (omega arith)

module _ {log : List ℕ} {c : Counter} (now : ℕ) (H : Holds log c) (le : c.head_secs ≤ now)
    (small : length log < u32_max) where
  bs : List ℕ
  bs = rotate buckets_len 0 (bucket c.head_secs) (bucket now) c.buckets

  -- after the rotation each slot holds the old hits of the new window
  get_or-bs : (r : ℕ) → r < buckets_len → get_or bs r 0 ≡ count (in_cell (bucket now) r) log
  unfolding bs
  get_or-bs r h =
      get_or-rotate buckets_len 0 (bucket c.head_secs) (bucket now) r c.buckets H.size h
        (omega arith)
      ∙ rw (H.cells r h) (sym (cells-rotate log c.head_secs now r H.past le h))

  idx : ℕ
  idx = bucket now % buckets_len

  -- ... and so after the new hit is counted in its slot.
  get_or-set-bs :
      (r : ℕ)
      → r < buckets_len
      → get_or (set bs idx (sat_add (get_or bs idx 0) 1)) r 0
        ≡ (if in_cell (bucket now) r now then 1 else 0) + count (in_cell (bucket now) r) log
  unfolding idx bs
  get_or-set-bs r h = elim (ℕ_discrete idx r) [
    | yes e ↦
        subst
          (λ k.
            get_or (set bs idx (sat_add (get_or bs idx 0) 1)) k 0
            ≡ (if in_cell (bucket now) k now then 1 else 0) + count (in_cell (bucket now) k) log)
          e (get_or-set_self bs idx _ 0 (inside (omega arith)) ∙ counted (omega arith))
    | no ne ↦ get_or-set_ne bs idx r _ 0 ne ∙ get_or-bs r h ∙ ground arith
  ]
    where
      inside : idx < buckets_len → idx < length bs
      inside p =
          rw (length-rotate buckets_len 0 (bucket c.head_secs) (bucket now) c.buckets H.size, bs) p

      counted :
          idx < buckets_len
          → sat_add (get_or bs idx 0) 1
            ≡ (if in_cell (bucket now) idx now then 1 else 0) + count (in_cell (bucket now) idx) log
      counted p = ground (arith, get_or-bs idx p, count-le-length (in_cell (bucket now) idx) log)

  -- `hit` counts itself in the slot of its bucket, and keeps the invariant.
  pub hit-Holds : Holds (now ∷ log) (hit c now).0
  unfolding hit bs idx
  hit-Holds = record {
    size =
        length-set bs idx _
        ∙ length-rotate buckets_len 0 (bucket c.head_secs) (bucket now) c.buckets H.size;
    past = (omega arith, All-le_trans log c.head_secs now H.past le);
    cells = λ r h. get_or-set-bs r h;
  }

-- The sum of the buckets of a counter is the number of hits in its window.
pub sum32-Holds :
    {log : List ℕ} {c : Counter}
    → Holds log c
    → length log ≤ u32_max
    → sum32 c.buckets ≡ in_window c.head_secs log
unfolding in_window
sum32-Holds {log} {c} H small = omega (
  arith,
  total_of_six c.buckets H.size,
  in_window-cells c.head_secs log,
  H.cells 0 (omega arith),
  H.cells 1 (omega arith),
  H.cells 2 (omega arith),
  H.cells 3 (omega arith),
  H.cells 4 (omega arith),
  H.cells 5 (omega arith),
  count-le-length (λ (t : ℕ). recent buckets_len (bucket c.head_secs) (bucket t)) log,
)

snd-hit : (c : Counter) (now : ℕ) → (hit c now).1 ≡ sum32 (hit c now).0.buckets
unfolding hit
snd-hit c now = refl

head_secs-hit : (c : Counter) (now : ℕ) → (hit c now).0.head_secs ≡ now
unfolding hit
head_secs-hit c now = refl

-- One hit, at a time that is not before the last one, keeps the log with the new time at its head,
-- and its result is the number of the log's times in the last six ten-second buckets.
pub hit-in_window :
    {log : List ℕ} {c : Counter} (now : ℕ)
    → Holds log c
    → c.head_secs ≤ now
    → length log < u32_max
    → Holds (now ∷ log) (hit c now).0 × ((hit c now).1 ≡ in_window now (now ∷ log))
hit-in_window {log} {c} now H le small =
    let H' = hit-Holds now H le small in
    (
      H',
      snd-hit c now
          ∙ sum32-Holds H' (omega arith)
          ∙ ap (λ k. in_window k (now ∷ log)) (head_secs-hit c now),
    )

-- A run of hits at times that do not go back returns, at each hit, the number of hits so far in the
-- last six buckets.
pub hits-expected :
    {log : List ℕ} {c : Counter} (ts : List ℕ)
    → Holds log c
    → Ordered c.head_secs ts
    → length log + length ts < u32_max
    → hits c ts ≡ expected log ts
unfolding hits expected
hits-expected [] H o small = refl
hits-expected {log} {c} (t ∷ ts) H o small =
    let (H', n) = hit-in_window t H o.0 (omega arith) in
    let o' : Ordered (hit c t).0.head_secs ts =
      subst (λ k. Ordered k ts) (sym (head_secs-hit c t)) o.1 in
    rw n (
      ap (◌∷◌ (in_window t (t ∷ log)))
        (hits-expected {log = t ∷ log} {c = (hit c t).0} ts H' o' (omega arith)))
