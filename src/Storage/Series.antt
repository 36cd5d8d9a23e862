-- ===== src/Storage/Series.antt =====
-- What the chart of the dashboard is told: one bucket for each second, with the counts of the table.
use t1_waf.Prelude.{
  Text, text_beq, nat_eq, text_eq, ◌==◌, if◌then◌else◌, ==_iff, sat_add, ℕ, ◌+◌, ◌%◌, ◌^◌, ◌≤◌, ◌<◌,
  ◌≡◌, refl, sym, ap, ◌∙◌, subst, Bool, true, false, ◌&&◌, List, [], ◌∷◌, arith,
}
use t1_waf.Prelude.Cases.{if-ind}
use t1_waf.Action.{Action}
use t1_waf.Storage.Writer.{action_name}
use t1_waf.Storage.Query.{TimeBucket, empty_at, add, fold_rows, series_of}
use t1_waf.Storage.Buckets.{field, sec-add, field-add, field-empty_at}

-- what the buckets of a second count for an action, and what the rows do
unfoldable pub charted : Action → ℕ → List TimeBucket → ℕ
charted a t [] = 0
charted a t (b ∷ bs) = (if b.sec == t then field a b else 0) + charted a t bs

unfoldable pub rows_at : Action → ℕ → List (ℕ × Text × ℕ) → ℕ
rows_at a t [] = 0
rows_at a t ((sec, name, count) ∷ rows) =
    (if (sec == t) && text_beq name (action_name a) then count else 0) + rows_at a t rows

-- rows by rising seconds, from a given one on
abbrev pub SortedFrom : ℕ → List (ℕ × Text × ℕ) → Type 0
SortedFrom k [] = Unit
SortedFrom k ((sec, name, count) ∷ rows) = (k ≤ sec) × SortedFrom sec rows

-- buckets by strictly rising seconds, all above a given one
abbrev pub Above : ℕ → List TimeBucket → Type 0
Above k [] = Unit
Above k (b ∷ bs) = (k < b.sec) × Above b.sec bs

abbrev pub Ascends : List TimeBucket → Type 0
Ascends [] = Unit
Ascends (b ∷ bs) = Above b.sec bs

-- the count of a row, added to a bucket of its second or of another
add_row :
    (f count rest : ℕ) (here mine : Bool)
    → (if here then f else 0) + ((if here && mine then count else 0) + rest) < 2 ^ 32
    → (if here then (if mine then sat_add f (count % 2 ^ 32) else f) else 0) + rest
      ≡ (if here then f else 0) + ((if here && mine then count else 0) + rest)
add_row f count rest true true h = ground arith
add_row f count rest true false h = omega arith
add_row f count rest false mine h = omega arith

skip_zero : (here : Bool) (m : ℕ) → (if here then 0 else 0) + m ≡ m
skip_zero true m = omega arith
skip_zero false m = omega arith

-- a row put into the bucket `c`, which is of its second, when the rows after it are charted right
put_row :
    (a : Action) (t : ℕ) (c : TimeBucket) (sec f count rest total : ℕ) (mine : Bool)
    → c.sec ≡ sec
    → field a c ≡ (if mine then sat_add f (count % 2 ^ 32) else f)
    → ((if c.sec == t then field a c else 0) + rest < 2 ^ 32
        → total ≡ (if c.sec == t then field a c else 0) + rest)
    → (if sec == t then f else 0) + ((if (sec == t) && mine then count else 0) + rest) < 2 ^ 32
    → total ≡ (if sec == t then f else 0) + ((if (sec == t) && mine then count else 0) + rest)
put_row a t c sec f count rest total mine e g after low =
    let sum : (if c.sec == t then field a c else 0) + rest
        ≡ (if sec == t then f else 0) + ((if (sec == t) && mine then count else 0) + rest) =
      rw g (
        subst
          (λ z.
            (if z == t then (if mine then sat_add f (count % 2 ^ 32) else f) else 0) + rest
            ≡ (if sec == t then f else 0) + ((if (sec == t) && mine then count else 0) + rest))
          (sym e) (add_row f count rest (sec == t) mine low)) in
    after (subst (λ z. z < 2 ^ 32) (sym sum) low) ∙ sum

fold_rows-charted :
    (a : Action) (t : ℕ) (b : TimeBucket) (rows : List (ℕ × Text × ℕ))
    → (if b.sec == t then field a b else 0) + rows_at a t rows < 2 ^ 32
    → charted a t (fold_rows b rows) ≡ (if b.sec == t then field a b else 0) + rows_at a t rows
unfolding fold_rows charted rows_at
fold_rows-charted a t b [] h = omega arith
fold_rows-charted a t b ((sec, name, count) ∷ rows) h =
    let n = count % 2 ^ 32 in
    let rest = rows_at a t rows in
    let mine = text_beq name (action_name a) in
    let row = if (sec == t) && mine then count else 0 in
    let before = if b.sec == t then field a b else 0 in
    let Right = λ (out : List TimeBucket). charted a t out ≡ before + (row + rest) in
    if-ind Right (b.sec == sec)
      (λ same.
        let to : b.sec ≡ sec = (==_iff b.sec sec).0 same in
        let c = add b name n in
        let Here = λ (z : ℕ). (if z == t then field a b else 0) + (row + rest) in
        put_row a t c sec (field a b) count rest (charted a t (fold_rows c rows)) mine
          (sec-add b name n ∙ to) (field-add a b name n) (fold_rows-charted a t c rows)
          (subst (λ z. Here z < 2 ^ 32) to h)
        ∙ ap Here (sym to))
      (λ later.
        let c = add (empty_at sec) name n in
        let skip = skip_zero (sec == t) (row + rest) in
        let low : row + rest < 2 ^ 32 = omega (arith, h) in
        ap (λ z. before + z)
          (put_row a t c sec 0 count rest (charted a t (fold_rows c rows)) mine
              (sec-add (empty_at sec) name n)
              (field-add a (empty_at sec) name n ∙ rw (field-empty_at a sec) refl)
              (fold_rows-charted a t c rows) (subst (λ z. z < 2 ^ 32) (sym skip) low)
            ∙ skip))

fold_rows-Above :
    (k : ℕ) (b : TimeBucket) (rows : List (ℕ × Text × ℕ))
    → k < b.sec
    → SortedFrom b.sec rows
    → Above k (fold_rows b rows)
unfolding fold_rows
fold_rows-Above k b [] h sorted = (h, tt)
fold_rows-Above k b ((sec, name, count) ∷ rows) h sorted =
    let n = count % 2 ^ 32 in
    if-ind (Above k) (b.sec == sec)
      (λ same.
        let kept = sec-add b name n in
        fold_rows-Above k (add b name n) rows (ground (arith, h, kept))
          (subst (λ z. SortedFrom z rows) (ground (arith, same, kept)) sorted.1))
      (λ later.
        let begun = sec-add (empty_at sec) name n in
        (
          h,
          fold_rows-Above b.sec (add (empty_at sec) name n) rows
              (ground (arith, begun, later, sorted.0))
              (subst (λ z. SortedFrom z rows) (sym begun) sorted.1),
        ))

fold_rows-Ascends :
    (b : TimeBucket) (rows : List (ℕ × Text × ℕ))
    → SortedFrom b.sec rows
    → Ascends (fold_rows b rows)
unfolding fold_rows
fold_rows-Ascends b [] sorted = tt
fold_rows-Ascends b ((sec, name, count) ∷ rows) sorted =
    let n = count % 2 ^ 32 in
    if-ind Ascends (b.sec == sec)
      (λ same.
        fold_rows-Ascends (add b name n) rows
          (subst (λ z. SortedFrom z rows) (ground (arith, same, sec-add b name n)) sorted.1))
      (λ later.
        let begun = sec-add (empty_at sec) name n in
        fold_rows-Above b.sec (add (empty_at sec) name n) rows
          (ground (arith, begun, later, sorted.0))
          (subst (λ z. SortedFrom z rows) (sym begun) sorted.1))

-- The chart's buckets have strictly rising seconds, and for each action and second they count what the
-- rows of that second and that action's name add up to, if the rows come by rising seconds and their sum
-- fits in 32 bits.
pub series_of-charted :
    (rows : List (ℕ × Text × ℕ)) (a : Action) (t : ℕ)
    → SortedFrom 0 rows
    → rows_at a t rows < 2 ^ 32
    → Ascends (series_of rows) × (charted a t (series_of rows) ≡ rows_at a t rows)
unfolding series_of rows_at charted
series_of-charted [] a t sorted h = (tt, refl)
series_of-charted ((sec, name, count) ∷ rows) a t sorted h =
    let n = count % 2 ^ 32 in
    let c = add (empty_at sec) name n in
    let begun = sec-add (empty_at sec) name n in
    let mine = text_beq name (action_name a) in
    let skip =
      skip_zero (sec == t) ((if (sec == t) && mine then count else 0) + rows_at a t rows) in
    (
      fold_rows-Ascends c rows (subst (λ z. SortedFrom z rows) (sym begun) sorted.1),
      put_row a t c sec 0 count (rows_at a t rows) (charted a t (fold_rows c rows)) mine begun
            (field-add a (empty_at sec) name n ∙ rw (field-empty_at a sec) refl)
            (fold_rows-charted a t c rows) (subst (λ z. z < 2 ^ 32) (sym skip) h)
          ∙ skip,
    )
