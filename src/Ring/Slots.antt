-- ===== src/Ring/Slots.antt =====
-- Which slots a rotation clears: those of the ticks after the old head, and no other.
use t1_waf.Prelude.{length-replicate}
use t1_waf.Prelude.{
  ℕ, zero, suc, ◌+◌, ◌-◌, ◌%◌, ◌≤◌, ◌<◌, ◌≡◌, ◌≢◌, refl, ap, sym, ◌∙◌, subst, List, [], ◌∷◌, ltb,
  ◌==◌, ◌&&◌, Bool, false, if◌then◌else◌, length, get_or, set, replicate, length-set, arith, dec_lt,
  dec_le, ℕ_discrete, lt→ltb, le→leb, lt→leb_false, le→ltb_false,
}
use t1_waf.Ring.{clear, rotate}

module _ {ℓ} {A : Type ℓ} where
  pub get_or-set_self :
      (xs : List A) (i : ℕ) (v d : A) → i < length xs → get_or (set xs i v) i d ≡ v
  get_or-set_self [] i v d h = absurd (omega arith)
  get_or-set_self (x ∷ xs) zero v d h = refl
  get_or-set_self (x ∷ xs) (suc i) v d h = get_or-set_self xs i v d (omega arith)

  pub get_or-set_ne :
      (xs : List A) (i j : ℕ) (v d : A) → i ≢ j → get_or (set xs i v) j d ≡ get_or xs j d
  get_or-set_ne [] i j v d h = refl
  get_or-set_ne (x ∷ xs) zero zero v d h = absurd (h refl)
  get_or-set_ne (x ∷ xs) zero (suc j) v d h = refl
  get_or-set_ne (x ∷ xs) (suc i) zero v d h = refl
  get_or-set_ne (x ∷ xs) (suc i) (suc j) v d h = get_or-set_ne xs i j v d (λ e. h (ap suc e))

  pub get_or-replicate : (n r : ℕ) (z : A) → get_or (replicate n z) r z ≡ z
  get_or-replicate zero r z = refl
  get_or-replicate (suc n) zero z = refl
  get_or-replicate (suc n) (suc r) z = get_or-replicate n r z

  get_or-set_empty :
      (xs : List A) (s r : ℕ) (z : A) → get_or xs r z ≡ z → get_or (set xs s z) r z ≡ z
  get_or-set_empty [] s r z h = refl
  get_or-set_empty (x ∷ xs) zero zero z h = refl
  get_or-set_empty (x ∷ xs) zero (suc r) z h = h
  get_or-set_empty (x ∷ xs) (suc s) zero z h = h
  get_or-set_empty (x ∷ xs) (suc s) (suc r) z h = get_or-set_empty xs s r z h

  get_or-set_same : (xs : List A) (r : ℕ) (z : A) → get_or (set xs r z) r z ≡ z
  get_or-set_same [] r z = refl
  get_or-set_same (x ∷ xs) zero z = refl
  get_or-set_same (x ∷ xs) (suc r) z = get_or-set_same xs r z

-- how many ticks before `now` the slot `r` was last in turn
abbrev pub age : ℕ → ℕ → ℕ → ℕ
age n now r = (now + n - r) % n

tick_of_age : (n now r : ℕ) → r < n → age n now r ≤ now → (now - age n now r) % n ≡ r
tick_of_age n now r h le = grind arith

age_of_tick : (n now c : ℕ) → c ≤ now → now < c + n → age n now (c % n) ≡ now - c
age_of_tick n now c le h = grind arith

-- two ticks of one slot lie `n` ticks apart at least
ticks_apart : (n a b : ℕ) → a < b → b % n ≡ a % n → a + n ≤ b
ticks_apart n a b h e = grind arith

-- the tick `q` is one of the last `n` at the tick `now`
abbrev pub recent : ℕ → ℕ → ℕ → Bool
recent n now q = ltb now (q + n)

-- A tick up to `head` counts for the slot `r` at `now` if it did at `head` and the slot was not
-- cleared in between.
pub recent-rotate :
    (n head now q r : ℕ)
    → q ≤ head
    → head ≤ now
    → r < n
    → (recent n now q && (q % n == r))
      ≡ (if ltb (age n now r) (now - head) then false else recent n head q && (q % n == r))
recent-rotate n head now q r qh hn h = elim (ℕ_discrete (q % n) r) [
  | no ne ↦ ground arith
  | yes e ↦ elim (dec_lt now (q + n)) [
    | yes p ↦
        ground (arith, subst (λ k. age n now k ≡ now - q) e (age_of_tick n now q (omega arith) p))
    | no p ↦ elim (dec_lt head (q + n)) [
      | no old ↦ ground arith
      | yes new ↦
          let lt : age n now r < n = grind arith in
          let apart : q + n ≤ now - age n now r =
            ticks_apart n q (now - age n now r) (omega arith)
              (tick_of_age n now r h (omega arith) ∙ sym e) in
          ground arith
    ]
  ]
]

module _ {ℓ} {A : Type ℓ} (n : ℕ) (z : A) (head : ℕ) where
  pub length-clear : (i k : ℕ) (bs : List A) → length (clear n z head i k bs) ≡ length bs
  unfolding clear
  length-clear i zero bs = refl
  length-clear i (suc k) bs = length-clear (i + 1) k _ ∙ length-set bs _ z

  -- a slot that the loop does not reach keeps its content
  get_or-clear_ne :
      (i k : ℕ) (bs : List A) (r : ℕ)
      → ((j : ℕ) → i ≤ j → j < i + k → (head + j + 1) % n ≢ r)
      → get_or (clear n z head i k bs) r z ≡ get_or bs r z
  unfolding clear
  get_or-clear_ne i zero bs r h = refl
  get_or-clear_ne i (suc k) bs r h =
      get_or-clear_ne (i + 1) k _ r (λ j p q. h j (omega arith) (omega arith))
      ∙ get_or-set_ne bs _ r z z (h i (omega arith) (omega arith))

  -- a slot that is empty stays empty
  get_or-clear_empty :
      (i k : ℕ) (bs : List A) (r : ℕ) → get_or bs r z ≡ z → get_or (clear n z head i k bs) r z ≡ z
  unfolding clear
  get_or-clear_empty i zero bs r h = h
  get_or-clear_empty i (suc k) bs r h =
      get_or-clear_empty (i + 1) k _ r (get_or-set_empty bs _ r z h)

  -- a slot that the loop reaches is empty after it
  get_or-clear_hit :
      (i k : ℕ) (bs : List A) (r j : ℕ)
      → i ≤ j
      → j < i + k
      → (head + j + 1) % n ≡ r
      → get_or (clear n z head i k bs) r z ≡ z
  unfolding clear
  get_or-clear_hit i zero bs r j p q e = absurd (omega arith)
  get_or-clear_hit i (suc k) bs r j p q e = elim (dec_lt i j) [
    | yes lt ↦ get_or-clear_hit (i + 1) k _ r j (omega arith) (omega arith) e
    | no ge ↦ get_or-clear_empty (i + 1) k _ r (first (omega arith))
  ]
    where
      first : i ≡ j → get_or (set bs ((head + i + 1) % n) z) r z ≡ z
      first at = rw (at, e) (get_or-set_same bs r z)

  -- After a rotation the slot `r` is empty if a tick after `head` and up to `now` has it, and it
  -- keeps its content if not.
  pub get_or-rotate :
      (now r : ℕ) (bs : List A)
      → length bs ≡ n
      → r < n
      → head ≤ now
      → get_or (rotate n z head now bs) r z
        ≡ (if ltb (age n now r) (now - head) then z else get_or bs r z)
  unfolding rotate
  get_or-rotate now r bs len h le = elim (dec_le n (now - head)) [
    | yes far ↦
        rw (le→leb n (now - head) far, lt→ltb (age n now r) (now - head) (grind arith))
          (get_or-replicate n r z)
    | no near ↦
        rw (lt→leb_false (now - head) n (omega arith)) (split (dec_lt (age n now r) (now - head)))
  ]
    where
      drift : ℕ
      drift = now - head

      split :
          Dec (age n now r < drift)
          → get_or (clear n z head 0 drift bs) r z
            ≡ (if ltb (age n now r) drift then z else get_or bs r z)
      split (yes p) = rw (lt→ltb (age n now r) drift p) (
          get_or-clear_hit 0 drift bs r (drift - age n now r - 1) (omega arith) (omega arith)
            (ap (λ k. k % n) (omega arith) ∙ tick_of_age n now r h (omega arith)))
      split (no p) = rw (le→ltb_false (age n now r) drift (omega arith)) (
          get_or-clear_ne 0 drift bs r (λ j _ q e. p (
            subst (λ k. age n now k < drift) e
              (rw (age_of_tick n now (head + j + 1) (omega arith) (omega arith)) (omega arith)))))

  pub length-rotate : (now : ℕ) (bs : List A) → length bs ≡ n → length (rotate n z head now bs) ≡ n
  unfolding rotate
  length-rotate now bs h = ground (arith, length-replicate n z, length-clear 0 (now - head) bs)
