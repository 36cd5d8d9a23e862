-- ===== src/Storage/Journal/Merge.antt =====
-- Two lists of rows that are run together.
use t1_waf.Prelude.{nat_eq, text_eq, ltb, Bool-cases, ℕ, inl, inr, List, [], ◌∷◌, ◌++◌}
use t1_waf.Storage.Journal.{since_of}
use t1_waf.Storage.Writer.{Row}

-- The first list and the second, run together, give the third: each keeps its order.
pub data Merge : List Row → List Row → List Row → Type 0 where
  nil : Merge [] [] []
  left : {x : Row} {xs ys zs : List Row} → Merge xs ys zs → Merge (x ∷ xs) ys (x ∷ zs)
  right : {y : Row} {xs ys zs : List Row} → Merge xs ys zs → Merge xs (y ∷ ys) (y ∷ zs)

pub Merge-all : (xs : List Row) → Merge xs [] xs
Merge-all [] = nil
Merge-all (x ∷ xs) = left (Merge-all xs)

pub Merge-append :
    {xs ys zs xs' ys' zs' : List Row}
    → Merge xs ys zs
    → Merge xs' ys' zs'
    → Merge (xs ++ xs') (ys ++ ys') (zs ++ zs')
Merge-append nil n = n
Merge-append (left m) n = left (Merge-append m n)
Merge-append (right m) n = right (Merge-append m n)

pub Merge-since_of :
    (c : ℕ) {xs ys zs : List Row}
    → Merge xs ys zs
    → Merge (since_of c xs) (since_of c ys) (since_of c zs)
unfolding since_of
Merge-since_of c nil = nil
Merge-since_of c (left {x} m) = elim (Bool-cases (ltb x.ts_ms c)) [
  | inl old ↦ rw old (Merge-since_of c m)
  | inr new ↦ rw new (left (Merge-since_of c m))
]
Merge-since_of c (right {y} m) = elim (Bool-cases (ltb y.ts_ms c)) [
  | inl old ↦ rw old (Merge-since_of c m)
  | inr new ↦ rw new (right (Merge-since_of c m))
]
