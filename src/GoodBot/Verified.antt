-- ===== src/GoodBot/Verified.antt =====
-- No address is taken for a crawler unless the lookups proved it.
use t1_waf.GoodBot.{good_bot_verified, find_bot, State, Verdict, rejected}
use t1_waf.Strings.{lowercase}
use t1_waf.GoodBot.{pending_ttl_secs}
use t1_waf.Prelude.Assoc.{lookup-insert}
use t1_waf.GoodBot.{pending}
use t1_waf.GoodBot.{verdict_of}
use t1_waf.Request.{ip_beq_iff}
use t1_waf.GoodBot.{insert}
use t1_waf.GoodBot.{live_verdict}
use t1_waf.Prelude.{
  Text, nat_eq, text_eq, ltb, Bool-cases, Option-cases, add64, ℕ, ◌≡◌, refl, ap, ◌∙◌, subst, ◌⊎◌,
  inl, inr, true, none, some, List, ◌∷◌, arith,
}
use t1_waf.Prelude.Assoc.{lookup}
use t1_waf.Request.{IpAddr, ip_eq}
use t1_waf.GoodBot.{KnownBot, verified, CacheEntry, Cache, verify_blocking, classify, complete}
use t1_waf.GoodBot.Run.{
  Listed, here, there, Lookup, Reach, start, request, lookup_ends, lookup_fails, Reach-Asks,
}

-- One of the lookups that have ended was for the address and for the known bot of that name, and proved it.
abbrev pub Proved : List KnownBot → List Lookup → IpAddr → Text → Type 0
Proved bots ended ip name =
    (l : Lookup) × Listed l ended
    × (l.ip ≡ ip)
    × Listed l.bot bots
    × (l.bot.name ≡ name)
    × ((verify_blocking l.dns l.ip l.bot.suffixes).0 ≡ true)

abbrev IsSound : List KnownBot → Cache → List Lookup → Type 0
IsSound bots c ended =
    (ip : IpAddr) (e : CacheEntry) (n : Text)
    → lookup ip c ≡ some e
    → e.state ≡ verified n
    → Proved bots ended ip n

-- more lookups leave what was proved
Proved-more :
    (bots : List KnownBot) (l : Lookup) (ended : List Lookup) (ip : IpAddr) (name : Text)
    → Proved bots ended ip name
    → Proved bots (l ∷ ended) ip name
Proved-more bots l ended ip name (m, at, of, known, named, proof) =
    (m, there at, of, known, named, proof)

classify-cases :
    (bots : List KnownBot) (c : Cache) (ip : IpAddr) (ua : Text) (now : ℕ)
    → ((classify bots c ip ua now).0 ≡ c)
      ⊎ (classify bots c ip ua now).0
        ≡ insert ip
            (record { state = pending; expires_at = add64 now pending_ttl_secs; ptr = none })
            c
unfolding classify
classify-cases bots c ip ua now = elim (Option-cases (find_bot bots (lowercase ua))) [
  | inl miss ↦ ground arith
  | inr (bot, found) ↦ elim (Option-cases (live_verdict (lookup ip c) bot.name now)) [
    | inl stale ↦ ground arith
    | inr (v, live) ↦ ground arith
  ]
]

insert-IsSound :
    (bots : List KnownBot) (ended : List Lookup) (c : Cache) (ip : IpAddr) (e : CacheEntry)
    → ((n : Text) → e.state ≡ verified n → Proved bots ended ip n)
    → IsSound bots c ended
    → IsSound bots (insert ip e c) ended
insert-IsSound bots ended c ip e new sound jp e' n h v = elim (Bool-cases (ip_eq.beq ip jp)) [
  | inl same ↦
      let at : ip ≡ jp = (ip_beq_iff ip jp).0 same in
      let entry : e ≡ e' = ground (arith, lookup-insert ip jp e c) in
      subst (λ k. Proved bots ended k n) at (new n (ap (λ (x : CacheEntry). x.state) entry ∙ v))
  | inr other ↦ sound jp e' n (ground (arith, lookup-insert ip jp e c)) v
]

complete-IsSound :
    (bots : List KnownBot) (ended : List Lookup) (c : Cache) (l : Lookup) (now : ℕ)
    → Listed l.bot bots
    → IsSound bots c ended
    → IsSound bots
        (complete c l.ip l.bot.name (some (verify_blocking l.dns l.ip l.bot.suffixes)) now)
        (l ∷ ended)
unfolding complete
complete-IsSound bots ended c l now known sound =
    let old : IsSound bots c (l ∷ ended) =
      λ ip e n h v. Proved-more bots l ended ip n (sound ip e n h v) in
    elim (Bool-cases (verify_blocking l.dns l.ip l.bot.suffixes).0) [
      | inl passed ↦
          insert-IsSound bots (l ∷ ended) c l.ip _
            (λ n v. (l, here, refl, known, ground arith, passed)) old
      | inr failed ↦ insert-IsSound bots (l ∷ ended) c l.ip _ (λ n v. absurd (ground arith)) old
    ]

Reach-IsSound :
    {bots : List KnownBot} {c : Cache} {asked : List (IpAddr × KnownBot)} {ended : List Lookup}
    → Reach bots c asked ended
    → IsSound bots c ended
unfolding complete lookup
Reach-IsSound start = λ ip e n h v. absurd (ground arith)
Reach-IsSound {bots} {ended} (request {c} ip ua now r) = elim (classify-cases bots c ip ua now) [
  | inl same ↦ rw same (Reach-IsSound r)
  | inr new ↦
      rw new (insert-IsSound bots ended c ip _ (λ n v. absurd (ground arith)) (Reach-IsSound r))
]
Reach-IsSound {bots} (lookup_ends {c} {ended} l now asks r) =
    complete-IsSound bots ended c l now (Reach-Asks r l.ip l.bot asks) (Reach-IsSound r)
Reach-IsSound {bots} {ended} (lookup_fails {c} ip bot now asks r) =
    insert-IsSound bots ended c ip _ (λ n v. absurd (ground arith)) (Reach-IsSound r)

verdict_of-state :
    (s : State) (n name : Text) → verdict_of s n ≡ good_bot_verified name → s ≡ verified name
unfolding verdict_of
verdict_of-state pending n name h = absurd (ground arith)
verdict_of-state (verified m) n name h = ground arith
verdict_of-state rejected n name h = absurd (ground arith)

live-verified :
    (e : CacheEntry) (n name : Text) (now : ℕ) (v : Verdict)
    → live_verdict (some e) n now ≡ some v
    → v ≡ good_bot_verified name
    → e.state ≡ verified name
unfolding live_verdict
live-verified e n name now v h k = elim (Bool-cases (ltb now e.expires_at)) [
  | inl fresh ↦ verdict_of-state e.state n name (ground arith)
  | inr old ↦ absurd (ground arith)
]

classify-live :
    (bots : List KnownBot) (c : Cache) (ip : IpAddr) (ua name : Text) (now : ℕ) (bot : KnownBot)
    → find_bot bots (lowercase ua) ≡ some bot
    → (classify bots c ip ua now).1 ≡ good_bot_verified name
    → live_verdict (lookup ip c) bot.name now ≡ some (good_bot_verified name)
unfolding classify
classify-live bots c ip ua name now bot found h =
    elim (Option-cases (live_verdict (lookup ip c) bot.name now)) [
      | inl stale ↦ absurd (ground arith)
      | inr (v, live) ↦ ground arith
    ]

-- In every cache that a run can reach, a request that is classified as a verified crawler comes from an
-- address for which one of the run's own lookups has ended, for a crawler of that name in the list: its
-- reverse lookup gave a host with an ending of that crawler, and the host resolved back to the address.
pub classify-Proved :
    (bots : List KnownBot) {c : Cache} {asked : List (IpAddr × KnownBot)} {ended : List Lookup}
    (ip : IpAddr) (ua name : Text) (now : ℕ)
    → Reach bots c asked ended
    → (classify bots c ip ua now).1 ≡ good_bot_verified name
    → Proved bots ended ip name
unfolding classify live_verdict
classify-Proved bots {c} ip ua name now r h = elim (Option-cases (find_bot bots (lowercase ua))) [
  | inl miss ↦ absurd (ground arith)
  | inr (bot, found) ↦ elim (Option-cases (lookup ip c)) [
    | inl new ↦ absurd (ground (arith, classify-live bots c ip ua name now bot found h))
    | inr (e, entry) ↦ Reach-IsSound r ip e name entry (
        live-verified e bot.name name now (good_bot_verified name)
          (ground (arith, classify-live bots c ip ua name now bot found h)) refl)
  ]
]
