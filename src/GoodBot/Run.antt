-- ===== src/GoodBot/Run.antt =====
-- The cache of crawlers over time, with the lookups that are asked for and those that have ended.
use t1_waf.GoodBot.{find_bot}
use t1_waf.Strings.{lowercase, contains}
use t1_waf.GoodBot.{live_verdict}
use t1_waf.Prelude.{
  Text, nat_eq, text_eq, Bool-cases, Option-cases, ℕ, ◌≡◌, refl, sym, ap, subst, ◌⊎◌, inl, inr,
  Option, none, some, List, ◌∷◌, [], arith,
}
use t1_waf.Prelude.Assoc.{lookup}
use t1_waf.Request.{IpAddr, ip_eq}
use t1_waf.GoodBot.{KnownBot, Cache, Dns, verify_blocking, classify, complete}

-- the value stands in the list
pub data Listed {A : Type 0} (x : A) : List A → Type 0 where
  here : {xs : List A} → Listed x (x ∷ xs)
  there : {y : A} {xs : List A} → Listed x xs → Listed x (y ∷ xs)

-- a lookup that has ended: what the resolver was then, the address and the bot that it was for
pub record Lookup : Type 0 where
  pub dns : Dns
  pub ip : IpAddr
  pub bot : KnownBot

-- the lookups that are asked for, with the one that a classification spawns
abbrev pub asking : IpAddr → Option KnownBot → List (IpAddr × KnownBot) → List (IpAddr × KnownBot)
asking ip none asked = asked
asking ip (some bot) asked = (ip, bot) ∷ asked

-- What a run of the server does to the cache: requests that are classified, and lookups that end, each of
-- which a classification has asked for. The indices are the cache, the lookups asked for and those ended.
pub data Reach (bots : List KnownBot)
    : Cache → List (IpAddr × KnownBot) → List Lookup → Type 0 where
  start : Reach bots [] [] []
  request :
      {c : Cache} {asked : List (IpAddr × KnownBot)} {ended : List Lookup} (ip : IpAddr) (ua : Text)
      (now : ℕ)
      → Reach bots c asked ended
      → Reach bots
          (classify bots c ip ua now).0
          (asking ip (classify bots c ip ua now).2 asked)
          ended
  lookup_ends :
      {c : Cache} {asked : List (IpAddr × KnownBot)} {ended : List Lookup} (l : Lookup) (now : ℕ)
      → Listed (l.ip, l.bot) asked
      → Reach bots c asked ended
      → Reach bots
          (complete c l.ip l.bot.name (some (verify_blocking l.dns l.ip l.bot.suffixes)) now)
          asked
          (l ∷ ended)
  lookup_fails :
      {c : Cache} {asked : List (IpAddr × KnownBot)} {ended : List Lookup} (ip : IpAddr)
      (bot : KnownBot) (now : ℕ)
      → Listed (ip, bot) asked
      → Reach bots c asked ended
      → Reach bots (complete c ip bot.name none now) asked ended

find_bot-Listed :
    (bots : List KnownBot) (lower : Text) (bot : KnownBot)
    → find_bot bots lower ≡ some bot
    → Listed bot bots
unfolding find_bot
find_bot-Listed [] lower bot h = absurd (ground arith)
find_bot-Listed (b ∷ bs) lower bot h = elim (Bool-cases (contains lower b.prefix)) [
  | inl fits ↦ let same : b ≡ bot = ground (arith, fits) in subst (λ x. Listed x (b ∷ bs)) same here
  | inr other ↦ there (find_bot-Listed bs lower bot (ground (arith, other)))
]

-- the lookups asked for are for known bots
abbrev pub Asks : List KnownBot → List (IpAddr × KnownBot) → Type 0
Asks bots asked = (ip : IpAddr) (bot : KnownBot) → Listed (ip, bot) asked → Listed bot bots

Listed-cons : {A : Type 0} {x y : A} {xs : List A} → Listed x (y ∷ xs) → (x ≡ y) ⊎ Listed x xs
Listed-cons here = inl refl
Listed-cons (there l) = inr l

spawned-Listed :
    (bots : List KnownBot) (c : Cache) (ip : IpAddr) (ua : Text) (now : ℕ) (bot : KnownBot)
    → (classify bots c ip ua now).2 ≡ some bot
    → Listed bot bots
unfolding classify
spawned-Listed bots c ip ua now bot h = elim (Option-cases (find_bot bots (lowercase ua))) [
  | inl miss ↦ absurd (ground arith)
  | inr (b, found) ↦ elim (Option-cases (live_verdict (lookup ip c) b.name now)) [
    | inl stale ↦
        let same : b ≡ bot = ground (arith, found, stale) in
        subst (λ x. Listed x bots) same (find_bot-Listed bots (lowercase ua) b found)
    | inr (v, live) ↦ absurd (ground arith)
  ]
]

asking-Asks :
    (bots : List KnownBot) (ip : IpAddr) (o : Option KnownBot) (asked : List (IpAddr × KnownBot))
    → ((bot : KnownBot) → o ≡ some bot → Listed bot bots)
    → Asks bots asked
    → Asks bots (asking ip o asked)
asking-Asks bots ip none asked new old = old
asking-Asks bots ip (some b) asked new old = λ jp bot l. elim (Listed-cons l) [
  | inl same ↦ new bot (ap (λ z. some z.1) (sym same))
  | inr before ↦ old jp bot before
]

pub Reach-Asks :
    {bots : List KnownBot} {c : Cache} {asked : List (IpAddr × KnownBot)} {ended : List Lookup}
    → Reach bots c asked ended
    → Asks bots asked
Reach-Asks start = λ ip bot l. elim l [ ]
Reach-Asks {bots} (request {c} {asked} ip ua now r) =
    asking-Asks bots ip (classify bots c ip ua now).2 asked (spawned-Listed bots c ip ua now)
      (Reach-Asks r)
Reach-Asks (lookup_ends l now asks r) = Reach-Asks r
Reach-Asks (lookup_fails ip bot now asks r) = Reach-Asks r
