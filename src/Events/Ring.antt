-- ===== src/Events/Ring.antt =====
-- The ring keeps the newest events.
use t1_waf.Prelude.{
  nat_eq, text_eq, ◌==◌, if◌then◌else◌, ==_iff, Bool-cases, length, length-append, take, drop,
  length-take, ℕ, zero, suc, ◌-◌, ◌≤◌, min, ◌≡◌, refl, sym, ap, ◌∙◌, inl, inr, List, [], ◌∷◌, ◌++◌,
  arith,
}
use mathlib.Core.List.{append_assoc}
use t1_waf.Events.{Event, EventLog, with_capacity, push, recent}
use mathlib.Core.List.{reverse, reverse-append, reverse-cons}

take-init : {A : Type 0} (xs : List A) (x : A) → take (length xs) (xs ++ (x ∷ [])) ≡ xs
take-init [] x = refl
take-init (y ∷ xs) x = ap (λ zs. y ∷ zs) (take-init xs x)

take_nil : {A : Type 0} (m : ℕ) → take {A = A} m [] ≡ []
take_nil zero = refl
take_nil (suc m) = refl

take-take : {A : Type 0} (m n : ℕ) (xs : List A) → m ≤ n → take m (take n xs) ≡ take m xs
take-take m n [] h = ap (take m) (take_nil n)
take-take zero n (x ∷ xs) h = refl
take-take (suc m) zero (x ∷ xs) h = absurd (omega arith)
take-take (suc m) (suc n) (x ∷ xs) h = ap (λ zs. x ∷ zs) (take-take m n xs (omega arith))

take-short : {A : Type 0} (m n : ℕ) (xs : List A) → length xs ≤ m → m ≤ n → take n xs ≡ take m xs
take-short zero zero [] h k = refl
take-short zero (suc n) [] h k = refl
take-short (suc m) zero [] h k = refl
take-short (suc m) (suc n) [] h k = refl
take-short zero n (x ∷ xs) h k = absurd (omega arith)
take-short (suc m) zero (x ∷ xs) h k = absurd (omega arith)
take-short (suc m) (suc n) (x ∷ xs) h k =
    ap (λ zs. x ∷ zs) (take-short m n xs (omega arith) (omega arith))

take-min : {A : Type 0} (m n : ℕ) (xs : List A) → take m (take n xs) ≡ take (min m n) xs
take-min zero n xs = let z : min 0 n ≡ 0 = omega arith in rw z refl
take-min (suc m) zero xs = let z : min (suc m) 0 ≡ 0 = omega arith in rw z (take_nil (suc m))
take-min (suc m) (suc n) [] = sym (take_nil (min (suc m) (suc n)))
take-min (suc m) (suc n) (x ∷ xs) =
    let low : min (suc m) (suc n) ≡ suc (min m n) = omega arith in
    rw low (ap (λ zs. x ∷ zs) (take-min m n xs))

append-nil : {A : Type 0} (xs : List A) → xs ++ [] ≡ xs
append-nil [] = refl
append-nil (x ∷ xs) = ap (λ zs. x ∷ zs) (append-nil xs)

length-reverse : {A : Type 0} (xs : List A) → length (reverse xs) ≡ length xs
length-reverse [] = refl
length-reverse (x ∷ xs) =
    rw (reverse-cons x xs) (ground (arith, length-append (reverse xs) (x ∷ []), length-reverse xs))

-- without its oldest entry, a list newest first is cut at the end
reverse-drop : {A : Type 0} (xs : List A) → reverse (drop 1 xs) ≡ take (length xs - 1) (reverse xs)
reverse-drop [] = refl
reverse-drop (x ∷ xs) =
    let at : length (x ∷ xs) - 1 ≡ length (reverse xs) = ground (arith, length-reverse xs) in
    rw (at, reverse-cons x xs) (sym (take-init (reverse xs) x))

-- the ring after the events, in their order
unfoldable pub pushes : EventLog → List Event → EventLog
pushes log [] = log
pushes log (e ∷ es) = pushes (push log e) es

-- the newest events of a history, newest first, stand in the ring, oldest first
pub record Keeps (cap : ℕ) (history : List Event) (log : EventLog) : Type 0 where
  pub capacity : log.cap ≡ cap
  pub window : reverse log.inner ≡ take cap history

push-Keeps :
    (c : ℕ) (history : List Event) (log : EventLog) (e : Event)
    → Keeps (suc c) history log
    → Keeps (suc c) (e ∷ history) (push log e)
unfolding push
push-Keeps c history log e k =
    let sized : length log.inner ≡ length (take (suc c) history) =
      sym (length-reverse log.inner) ∙ ap length k.window in
    let inner : List Event = if length log.inner == log.cap then drop 1 log.inner else log.inner in
    let kept : reverse inner ≡ take c history = elim (Bool-cases (length log.inner == log.cap)) [
      | inl full ↦
          let size : length log.inner - 1 ≡ c =
            ground (arith, ==_iff (length log.inner) log.cap, k.capacity) in
          rw full (
            reverse-drop log.inner
            ∙ (rw (size, k.window) (take-take c (suc c) history (omega arith))))
      | inr room ↦ rw room (
          k.window
          ∙ take-short c (suc c) history
              (ground (
                arith,
                ==_iff (length log.inner) log.cap,
                k.capacity,
                sized,
                length-take (suc c) history,
              ))
              (omega arith))
    ] in
    record {
      capacity = k.capacity;
      window = reverse-append inner (e ∷ []) ∙ ap (λ zs. e ∷ zs) kept;
    }

pushes-Keeps :
    (c : ℕ) (history : List Event) (log : EventLog) (es : List Event)
    → Keeps (suc c) history log
    → Keeps (suc c) (reverse es ++ history) (pushes log es)
unfolding pushes
pushes-Keeps c history log [] k = k
pushes-Keeps c history log (e ∷ es) k =
    let same : reverse (e ∷ es) ++ history ≡ reverse es ++ (e ∷ history) =
      ap (λ zs. zs ++ history) (reverse-cons e es) ∙ append_assoc (reverse es) (e ∷ []) history in
    rw same (pushes-Keeps c (e ∷ history) (push log e) es (push-Keeps c history log e k))

-- A ring of any size but 0 that starts empty shows, after any events, the newest of them, newest first:
-- as many as are asked for, as far as the ring is large enough.
pub recent-pushes :
    (c n : ℕ) (es : List Event)
    → recent (pushes (with_capacity (suc c)) es) n ≡ take (min n (suc c)) (reverse es)
unfolding recent with_capacity
recent-pushes c n es =
    let k =
      pushes-Keeps c [] (record { inner = []; cap = suc c }) es
        (record { capacity = refl; window = refl }) in
    ap (take n) (k.window ∙ ap (take (suc c)) (append-nil (reverse es)))
    ∙ take-min n (suc c) (reverse es)
