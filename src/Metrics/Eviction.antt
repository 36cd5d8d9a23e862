-- ===== src/Metrics/Eviction.antt =====
-- What an insertion with its eviction does to one map of the metrics.
use t1_waf.Prelude.Cases.{if-ind, option-ind}
use t1_waf.Prelude.{
  Text, text_beq, nat_eq, text_eq, or_else, ltb, leb, lt→ltb, Bool-cases, Option-cases, length,
  take, u64_mod, add64, ℕ, zero, suc, ◌+◌, ◌-◌, ◌≤◌, ◌<◌, ◌≡◌, refl, sym, ap, ◌∙◌, subst, ◌⊎◌, inl,
  inr, Bool, true, not, none, some, [], ◌∷◌, arith,
}
use t1_waf.Prelude.Assoc.{lookup, insert, retain, contains_key, length-insert, length-retain-le}
use t1_waf.Prelude.Texts.{text_beq_iff}
use t1_waf.Metrics.{Counts, bump, evict, min_key, remove, per_key_cap}

-- a key that is found leaves with its entry
length-remove : (k : Text) (m : Counts) → contains_key k m ≡ true → length (remove k m) < length m
unfolding remove retain lookup
length-remove k [] h = absurd (ground arith)
length-remove k ((j, c) ∷ m) h =
    let le = length-retain-le {0, 0} {K = Text} {V = ℕ} (λ i _. not (text_beq i k)) m in
    ground (arith, length-remove k m, le)

contains_tail :
    (k j : Text) (c : ℕ) (m : Counts) → contains_key k m ≡ true → contains_key k ((j, c) ∷ m) ≡ true
unfolding lookup
contains_tail k j c m h = ground arith

contains_head : (k j : Text) (c : ℕ) (m : Counts) → k ≡ j → contains_key k ((j, c) ∷ m) ≡ true
unfolding lookup
contains_head k j c m h = ground (arith, text_beq_iff j k)

contains_take :
    (k : Text) (n : ℕ) (m : Counts) → contains_key k (take n m) ≡ true → contains_key k m ≡ true
unfolding lookup
contains_take k zero m h = absurd (ground arith)
contains_take k (suc n) [] h = h
contains_take k (suc n) ((j, c) ∷ m) h = ground (arith, contains_take k n m)

-- the scan answers the key that it holds or one of the map
min_key-found :
    (b : Text) (bound : ℕ) (m : Counts)
    → (k : Text) × (min_key (some b) bound m ≡ some k) × ((k ≡ b) ⊎ (contains_key k m ≡ true))
unfolding min_key
min_key-found b bound [] = (b, refl, inl refl)
min_key-found b bound ((j, c) ∷ m) = elim (Bool-cases (ltb c bound)) [
  | inl below ↦
      let (k, e, from) = min_key-found j c m in
      (
        k,
        rw below e,
        elim from [
          | inl same ↦ inr (contains_head k j c m same)
          | inr old ↦ inr (contains_tail k j c m old)
        ],
      )
  | inr above ↦
      let (k, e, from) = min_key-found b bound m in
      (k, rw above e, elim from [ inl same ↦ inl same | inr old ↦ inr (contains_tail k j c m old) ])
]

-- every count of a map is at most `n`
abbrev pub Low : ℕ → Counts → Type 0
Low n [] = Unit
Low n ((k, c) ∷ m) = (c ≤ n) × Low n m

length-evict :
    (n : ℕ) (m : Counts) → n < u64_mod - 1 → Low n m → 0 < length m → length (evict m) < length m
unfolding evict min_key
length-evict n [] small low h = absurd (omega arith)
length-evict n ((j, c) ∷ m) small low h =
    let (k, e, from) = min_key-found j c (take 31 m) in
    let first : ltb c (u64_mod - 1) ≡ true = lt→ltb c (u64_mod - 1) (omega (arith, low.0)) in
    let here : contains_key k ((j, c) ∷ m) ≡ true = elim from [
      | inl same ↦ contains_head k j c m same
      | inr old ↦ contains_tail k j c m (contains_take k 31 m old)
    ] in
    let whole = (j, c) ∷ m in
    let found : min_key none (u64_mod - 1) (take 32 whole) ≡ some k =
      if-ind (λ out. out ≡ some k) (ltb c (u64_mod - 1)) (λ _. e)
        (λ g. absurd (ground (arith, first, g))) in
    option-ind (λ (out : Counts). length out < length whole)
      (min_key none (u64_mod - 1) (take 32 whole)) (λ miss. absurd (ground (arith, found, miss)))
      (λ k' hit.
        let same : k ≡ k' = ap (λ o. or_else o k) (sym found ∙ hit) in
        length-remove k' whole (subst (λ z. contains_key z whole ≡ true) same here))

pub length-bump :
    (n : ℕ) (m : Counts) (key : Text)
    → n < u64_mod - 1
    → Low n m
    → length m ≤ per_key_cap
    → length (bump m key) ≤ per_key_cap
unfolding bump
length-bump n m key small low h = elim (Option-cases (lookup key m)) [
  | inr (c, hit) ↦ ground (arith, length-insert key (add64 c 1) m)
  | inl miss ↦ elim (Bool-cases (leb per_key_cap (length m))) [
    | inl full ↦
        let less = length-evict n m small low (ground arith) in
        ground (arith, length-insert key 1 (evict m), less)
    | inr room ↦ ground (arith, length-insert key 1 m)
  ]
]

Low-insert : (n v : ℕ) (k : Text) (m : Counts) → v ≤ n → Low n m → Low n (insert k v m)
unfolding insert
Low-insert n v k [] h low = (h, tt)
Low-insert n v k ((j, c) ∷ m) h low = ground (arith, Low-insert n v k m h low.1)

pub Low-more : (n : ℕ) (m : Counts) → Low n m → Low (n + 1) m
Low-more n [] low = tt
Low-more n ((k, c) ∷ m) low = (omega (arith, low.0), Low-more n m low.1)

Low-retain : (n : ℕ) (p : Text → ℕ → Bool) (m : Counts) → Low n m → Low n (retain p m)
unfolding retain
Low-retain n p [] low = tt
Low-retain n p ((k, c) ∷ m) low = ground (arith, Low-retain n p m low.1)

Low-lookup : (n c : ℕ) (k : Text) (m : Counts) → Low n m → lookup k m ≡ some c → c ≤ n
unfolding lookup
Low-lookup n c k [] low h = absurd (ground arith)
Low-lookup n c k ((j, d) ∷ m) low h = ground (arith, Low-lookup n c k m low.1, low.0)

Low-evict : (n : ℕ) (m : Counts) → Low n m → Low n (evict m)
unfolding evict remove
Low-evict n m low =
    option-ind (Low n) (min_key none (u64_mod - 1) (take 32 m)) (λ _. low)
      (λ k _. Low-retain n (λ j c. not (text_beq j k)) m low)

pub Low-bump :
    (n : ℕ) (m : Counts) (key : Text) → n < u64_mod - 1 → Low n m → Low (n + 1) (bump m key)
unfolding bump
Low-bump n m key small low =
    option-ind (Low (n + 1)) (lookup key m)
      (λ _. Low-insert (n + 1) 1 key _ (omega arith) (
        if-ind (Low (n + 1)) (leb per_key_cap (length m))
          (λ _. Low-more n (evict m) (Low-evict n m low)) (λ _. Low-more n m low)))
      (λ c hit.
        Low-insert (n + 1) (add64 c 1) key m (omega (arith, Low-lookup n c key m low hit))
          (Low-more n m low))
