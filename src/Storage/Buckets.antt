-- ===== src/Storage/Buckets.antt =====
-- What `TimeBucket::add` does to the counter of an action.
use t1_waf.Prelude.{
  Text, text, text_beq, nat_eq, text_eq, if◌then◌else◌, Bool-cases, sat_add, ℕ, ◌≡◌, refl, ap, ◌⊎◌,
  inl, inr, false,
}
use t1_waf.Prelude.Texts.{text_beq_iff}
use t1_waf.Prelude.Cases.{if-ind}
use t1_waf.Action.{Action}
use t1_waf.Storage.Writer.{action_name}
use t1_waf.Storage.Query.{TimeBucket, empty_at, add}

-- the counter of an action
unfoldable pub field : Action → TimeBucket → ℕ
field Action.allow b = b.allowed
field Action.challenge b = b.challenged
field Action.block b = b.blocked
field Action.tarpit b = b.tarpit

pub sec-add : (b : TimeBucket) (name : Text) (n : ℕ) → (add b name n).sec ≡ b.sec
unfolding add
sec-add b name n =
    let Same = λ (out : TimeBucket). out.sec ≡ b.sec in
    if-ind Same (text_beq name (text "allow")) (λ _. refl)
      (λ _.
        if-ind Same (text_beq name (text "challenge")) (λ _. refl)
          (λ _.
            if-ind Same (text_beq name (text "block")) (λ _. refl)
              (λ _. if-ind Same (text_beq name (text "tarpit")) (λ _. refl) (λ _. refl))))

-- each name counts for its own action
field-add_named :
    (a c : Action) (b : TimeBucket) (n : ℕ)
    → field a (add b (action_name c) n)
      ≡ (if text_beq (action_name c) (action_name a) then sat_add (field a b) n else field a b)
unfolding add field action_name text text_beq
field-add_named Action.allow Action.allow b n = refl
field-add_named Action.allow Action.challenge b n = refl
field-add_named Action.allow Action.block b n = refl
field-add_named Action.allow Action.tarpit b n = refl
field-add_named Action.challenge Action.allow b n = refl
field-add_named Action.challenge Action.challenge b n = refl
field-add_named Action.challenge Action.block b n = refl
field-add_named Action.challenge Action.tarpit b n = refl
field-add_named Action.block Action.allow b n = refl
field-add_named Action.block Action.challenge b n = refl
field-add_named Action.block Action.block b n = refl
field-add_named Action.block Action.tarpit b n = refl
field-add_named Action.tarpit Action.allow b n = refl
field-add_named Action.tarpit Action.challenge b n = refl
field-add_named Action.tarpit Action.block b n = refl
field-add_named Action.tarpit Action.tarpit b n = refl

-- a name is that of an action, or of none
named :
    (name : Text)
    → ((c : Action) × (name ≡ action_name c))
      ⊎ ((c : Action) → text_beq name (action_name c) ≡ false)
named name = elim (Bool-cases (text_beq name (action_name Action.allow))) [
  | inl h ↦ inl (Action.allow, (text_beq_iff name _).0 h)
  | inr n1 ↦ elim (Bool-cases (text_beq name (action_name Action.challenge))) [
    | inl h ↦ inl (Action.challenge, (text_beq_iff name _).0 h)
    | inr n2 ↦ elim (Bool-cases (text_beq name (action_name Action.block))) [
      | inl h ↦ inl (Action.block, (text_beq_iff name _).0 h)
      | inr n3 ↦ elim (Bool-cases (text_beq name (action_name Action.tarpit))) [
        | inl h ↦ inl (Action.tarpit, (text_beq_iff name _).0 h)
        | inr n4 ↦ inr (λ c. elim c as (λ k. text_beq name (action_name k) ≡ false) [
          | Action.allow ↦ n1
          | Action.challenge ↦ n2
          | Action.block ↦ n3
          | Action.tarpit ↦ n4
        ])
      ]
    ]
  ]
]

add_unknown :
    (b : TimeBucket) (name : Text) (n : ℕ)
    → ((c : Action) → text_beq name (action_name c) ≡ false)
    → add b name n ≡ b
unfolding add action_name
add_unknown b name n other =
    rw (other Action.allow, other Action.challenge, other Action.block, other Action.tarpit) refl

pub field-add :
    (a : Action) (b : TimeBucket) (name : Text) (n : ℕ)
    → field a (add b name n)
      ≡ (if text_beq name (action_name a) then sat_add (field a b) n else field a b)
field-add a b name n = elim (named name) [
  | inl (c, same) ↦ rw same (field-add_named a c b n)
  | inr other ↦ rw (other a) (ap (field a) (add_unknown b name n other))
]

pub field-empty_at : (a : Action) (sec : ℕ) → field a (empty_at sec) ≡ 0
unfolding field
field-empty_at Action.allow sec = refl
field-empty_at Action.challenge sec = refl
field-empty_at Action.block sec = refl
field-empty_at Action.tarpit sec = refl
