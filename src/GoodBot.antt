-- ===== src/GoodBot.antt =====
-- crates/waf-core/src/goodbot.rs: crawlers that are who they say, by reverse and forward lookup. The
-- resolver is a parameter. A request that starts a lookup returns before it ends, so the end is a
-- step of its own.
pub mod Run
pub mod Verified
use t1_waf.Prelude.{
  Text, text, decimal, text_beq, nat_eq, text_eq, Eq, is_some, or_else, ltb, leb, ◌==◌,
  if◌then◌else◌, ltb→lt, lt→ltb, leb→le, le→leb, lt→leb_false, le→ltb_false, ==_iff, Bool-cases,
  Option-cases, length, get_elem?, set, length-append, length-set, get_elem?-set_self,
  get_elem?-set_ne, get_or, take, drop, replicate, take-append-drop, length-take, length-drop,
  length-replicate, length-map, u32_max, u64_mod, sat_add, add64, add32, ℕ, zero, suc, ◌+◌, ◌-◌,
  ◌*◌, ◌/◌, ◌%◌, ◌^◌, ◌≤◌, ◌<◌, min, max, ◌≡◌, refl, sym, ap, ◌∙◌, subst, ◌≢◌, ◌↔◌, ◌⊎◌, inl, inr,
  Bool, true, false, ◌&&◌, ◌||◌, not, Option, none, some, List, [], ◌∷◌, ◌++◌, map, arith, dec_lt,
  dec_le, ℕ_discrete,
}
use t1_waf.Prelude.Assoc.{lookup, insert}
use Prim.Native.String.{String}
use t1_waf.Prelude.Sorting.{sort_by}
use t1_waf.Strings.{contains, ends_with, lowercase}
use t1_waf.Request.{IpAddr, ip_eq}
use t1_waf.Decision.{DecisionReason}
use t1_waf.BotScore.{is_empty}
use t1_waf.Signature.{member}

abbrev pub positive_ttl_secs : ℕ
positive_ttl_secs = 3600

abbrev pub negative_ttl_secs : ℕ
negative_ttl_secs = 300

abbrev pub pending_ttl_secs : ℕ
pending_ttl_secs = 30

-- a row of `KNOWN_BOTS`: what the user agent contains, the suffixes of its hosts, its name
pub record KnownBot : Type 0 where
  pub prefix : Text
  pub suffixes : List Text
  pub name : Text

-- a row of the table
unfoldable pub bot : String → List Text → String → KnownBot
bot prefix suffixes name = record { prefix = text prefix; suffixes = suffixes; name = text name }

-- `KNOWN_BOTS`
unfoldable pub known_bots : List KnownBot
known_bots =
    bot "googlebot" (text ".googlebot.com" ∷ text ".google.com" ∷ []) "Googlebot"
    ∷ bot "google-inspectiontool" (text ".google.com" ∷ []) "Google InspectionTool"
    ∷ bot "adsbot-google" (text ".googlebot.com" ∷ text ".google.com" ∷ []) "AdsBot-Google"
    ∷ bot "apis-google" (text ".google.com" ∷ []) "APIs-Google"
    ∷ bot "googleother" (text ".googlebot.com" ∷ text ".google.com" ∷ []) "GoogleOther"
    ∷ bot "mediapartners-google" (text ".google.com" ∷ []) "Mediapartners"
    ∷ bot "bingbot" (text ".search.msn.com" ∷ []) "Bingbot"
    ∷ bot "adidxbot" (text ".search.msn.com" ∷ []) "AdIdxBot"
    ∷ bot "msnbot" (text ".search.msn.com" ∷ []) "MSNBot"
    ∷ bot "duckduckbot" (text ".duckduckgo.com" ∷ []) "DuckDuckBot"
    ∷ bot "yandexbot" (text ".yandex.com" ∷ text ".yandex.net" ∷ text ".yandex.ru" ∷ []) "YandexBot"
    ∷ bot "yandeximages" (text ".yandex.com" ∷ text ".yandex.net" ∷ text ".yandex.ru" ∷ [])
        "YandexImages"
    ∷ bot "baiduspider" (text ".baidu.com" ∷ text ".baidu.jp" ∷ []) "Baiduspider"
    ∷ bot "applebot" (text ".applebot.apple.com" ∷ text ".apple.com" ∷ []) "Applebot"
    ∷ bot "facebookexternalhit" (text ".facebook.com" ∷ text ".fbsv.net" ∷ []) "FacebookBot"
    ∷ bot "meta-externalagent" (text ".facebook.com" ∷ text ".fbsv.net" ∷ []) "MetaBot"
    ∷ bot "linkedinbot" (text ".linkedin.com" ∷ []) "LinkedInBot"
    ∷ bot "twitterbot" (text ".twttr.com" ∷ text ".twitter.com" ∷ []) "Twitterbot"
    ∷ bot "discordbot" (text ".discordapp.com" ∷ text ".discord.com" ∷ []) "Discordbot"
    ∷ []

pub data State : Type 0 where
  pending : State
  verified : Text → State
  rejected : State

pub record CacheEntry : Type 0 where
  pub state : State
  pub expires_at : ℕ
  pub ptr : Option Text

pub data Verdict : Type 0 where
  not_a_bot : Verdict
  good_bot_verified : Text → Verdict
  good_bot_pending : Verdict
  good_bot_spoofed : Text → Verdict

abbrev pub Cache : Type 0
Cache = List (IpAddr × CacheEntry)

-- `dns_lookup::lookup_addr` and `lookup_host`; `none` is an error
pub record Dns : Type 0 where
  pub lookup_addr : IpAddr → Option Text
  pub lookup_host : Text → Option (List IpAddr)

-- `KNOWN_BOTS.iter().find(|(prefix, _, _)| lower.contains(prefix))`
unfoldable pub find_bot : List KnownBot → Text → Option KnownBot
find_bot [] lower = none
find_bot (b ∷ bs) lower = if contains lower b.prefix then some b else find_bot bs lower

unfoldable pub any_suffix : List Text → Text → Bool
any_suffix [] ptr = false
any_suffix (s ∷ ss) ptr = ends_with ptr s || any_suffix ss ptr

-- `verify_blocking`: whether the lookups agree, and the name that was found
unfoldable pub verify_blocking : Dns → IpAddr → List Text → Bool × Text
verify_blocking dns ip suffixes = elim (dns.lookup_addr ip) [
  | none ↦ (false, [])
  | some p ↦
      let ptr = lowercase p in
      if not (any_suffix suffixes ptr) then (false, ptr) else elim (dns.lookup_host ptr) [
        | none ↦ (false, ptr)
        | some resolved ↦ (member ip resolved, ptr)
      ]
]

-- the verdict of an entry that has not run out; `name` is the bot that the user agent claims to be
unfoldable pub verdict_of : State → Text → Verdict
verdict_of (verified n) name = good_bot_verified n
verdict_of rejected name = good_bot_spoofed name
verdict_of pending name = good_bot_pending

unfoldable pub live_verdict : Option CacheEntry → Text → ℕ → Option Verdict
live_verdict none name now = none
live_verdict (some e) name now =
    if ltb now e.expires_at then some (verdict_of e.state name) else none

-- `classify`: the new cache, the verdict, and the lookup that it spawns, if it does
unfoldable pub classify :
    List KnownBot → Cache → IpAddr → Text → ℕ → Cache × Verdict × Option KnownBot
classify bots cache ip ua now =
    if is_empty ua then (cache, not_a_bot, none) else elim (find_bot bots (lowercase ua)) [
      | none ↦ (cache, not_a_bot, none)
      | some bot ↦ elim (live_verdict (lookup ip cache) bot.name now) [
        | some v ↦ (cache, v, none)
        | none ↦ (
          insert ip
              (record { state = pending; expires_at = add64 now pending_ttl_secs; ptr = none })
              cache,
          good_bot_pending,
          some bot,
        )
      ]
    ]

-- the end of the task that `spawn_verify` starts; `none` is a task that failed
unfoldable pub complete : Cache → IpAddr → Text → Option (Bool × Text) → ℕ → Cache
complete cache ip name outcome now =
    insert ip
      (elim outcome [
        | none ↦ record { state = rejected; expires_at = add64 now negative_ttl_secs; ptr = none }
        | some (passed, ptr) ↦
            if passed
            then record {
              state = verified name;
              expires_at = add64 now positive_ttl_secs;
              ptr = some ptr;
            }
            else record {
              state = rejected;
              expires_at = add64 now negative_ttl_secs;
              ptr = (if is_empty ptr then none else some ptr);
            }
      ])
      cache

-- `spoof_reason`
unfoldable pub spoof_reason : Text → DecisionReason
spoof_reason name = record {
  rule_id = text "GOODBOT-SPOOF";
  category = text "bot";
  score = 60;
  detail = text "UA claims " ++ (name ++ text " but reverse-DNS contradicted it");
}

-- `VerifyEntry`
pub record VerifyEntry : Type 0 where
  pub ip : Text
  pub state : Text
  pub ptr : Option Text
  pub ttl : ℕ

-- what the dashboard calls a state; the separator is a middle dot, in UTF-8
unfoldable pub state_text : State → Text
state_text (verified n) = text "verified " ++ (194 ∷ 183 ∷ 32 ∷ n)
state_text rejected = text "spoofed"
state_text pending = text "pending"

-- the verdicts that have not run out, with the printer of addresses
unfoldable pub live_entries : (IpAddr → Text) → Cache → ℕ → List VerifyEntry
live_entries ip_text [] now = []
live_entries ip_text ((ip, e) ∷ c) now =
    let rest = live_entries ip_text c now in
    if ltb now e.expires_at
    then record {
      ip = ip_text ip;
      state = state_text e.state;
      ptr = e.ptr;
      ttl = e.expires_at - now;
    }
      ∷ rest
    else rest

-- `snapshot`: the longest time to live first, 200 at most
unfoldable pub snapshot : (IpAddr → Text) → Cache → ℕ → List VerifyEntry
snapshot ip_text c now = take 200 (sort_by (λ x y. ltb y.ttl x.ttl) (live_entries ip_text c now))
