-- ===== src/Signature.antt =====
-- crates/waf-core/src/signature.rs: repeats of one request from one address, and one user agent
-- shared by many addresses.
pub mod Replay
use t1_waf.Prelude.{
  Text, text, decimal, text_beq, nat_eq, text_eq, Eq, is_some, or_else, ltb, leb, ◌==◌,
  if◌then◌else◌, ltb→lt, lt→ltb, leb→le, le→leb, lt→leb_false, le→ltb_false, ==_iff, Bool-cases,
  Option-cases, length, get_elem?, set, length-append, length-set, get_elem?-set_self,
  get_elem?-set_ne, get_or, take, drop, replicate, take-append-drop, length-take, length-drop,
  length-replicate, length-map, u32_max, u64_mod, sat_add, add64, add32, ℕ, zero, suc, ◌+◌, ◌-◌,
  ◌*◌, ◌/◌, ◌%◌, ◌^◌, ◌≤◌, ◌<◌, min, max, ◌≡◌, refl, sym, ap, ◌∙◌, subst, ◌≢◌, ◌↔◌, ◌⊎◌, inl, inr,
  Bool, true, false, ◌&&◌, ◌||◌, not, Option, none, some, List, [], ◌∷◌, ◌++◌, map, arith, dec_lt,
  dec_le, ℕ_discrete,
}
use t1_waf.Prelude.Assoc.{lookup, insert, retain}
use t1_waf.Request.{IpAddr, ip_eq}
use t1_waf.Decision.{DecisionReason}
use t1_waf.BotScore.{reason, is_empty}
use Prim.Native.Nat.{bit_xor}

abbrev pub replay_window_secs : ℕ
replay_window_secs = 30

abbrev pub replay_threshold : ℕ
replay_threshold = 25

abbrev pub ua_window_secs : ℕ
ua_window_secs = 60

abbrev pub ua_threshold_ip : ℕ
ua_threshold_ip = 8

-- one loop of FNV-1a: `h ^= b; h = h.wrapping_mul(0x100000001b3)`
unfoldable pub fnv_from : ℕ → Text → ℕ
fnv_from h [] = h
fnv_from h (b ∷ s) = fnv_from (bit_xor h b * 0x100000001b3 % u64_mod) s

abbrev pub fnv_start : ℕ
fnv_start = 0xcbf29ce484222325

-- `fnv64`, of signature.rs and behavior.rs
unfoldable pub fnv64 : Text → ℕ
unfolding fnv_from
fnv64 s = fnv_from fnv_start s

-- `sig_hash`: three loops in a row
unfoldable pub sig_hash : Text → Text → Text → ℕ
unfolding fnv_from
sig_hash method path ua = fnv_from (fnv_from (fnv_from fnv_start method) path) ua

pub record ReplayState : Type 0 where
  pub last_hash : ℕ
  pub count : ℕ
  pub first_secs : ℕ

pub record RequestReplay : Type 0 where
  pub by_ip : List (IpAddr × ReplayState)
  pub last_gc : ℕ

-- `RequestReplay::maybe_gc`
unfoldable pub replay_gc : RequestReplay → ℕ → RequestReplay
replay_gc r now = if ltb (now - r.last_gc) 30 then r else record {
  by_ip = retain (λ _ s. ltb (now - s.first_secs) (replay_window_secs * 2)) r.by_ip;
  last_gc = now;
}

-- the body of `RequestReplay::observe` on the entry of the address
unfoldable pub repeat : ReplayState → ℕ → ℕ → ReplayState × Option DecisionReason
repeat s h now =
    if not (s.last_hash == h) || ltb replay_window_secs (now - s.first_secs)
    then (record { last_hash = h; count = 1; first_secs = now }, none)
    else (
      record s { count = sat_add s.count 1 },
      (if leb replay_threshold (sat_add s.count 1)
          then some (
              reason (text "REPLAY") (text "ddos") 60
                (decimal (sat_add s.count 1) ++ text " repeats of same signature in 30s"))
          else none),
    )

-- `RequestReplay::observe`
unfoldable pub observe_replay :
    RequestReplay → IpAddr → Text → Text → Text → ℕ → RequestReplay × Option DecisionReason
observe_replay r ip method path ua now =
    let r' = replay_gc r now in
    let (s, out) =
      repeat (or_else (lookup ip r'.by_ip) (record { last_hash = 0; count = 0; first_secs = 0 }))
        (sig_hash method path ua) now in
    (record r' { by_ip = insert ip s r'.by_ip }, out)

-- `HashSet` of addresses as a list with no address twice
pub record UaBucket : Type 0 where
  pub ips : List IpAddr
  pub first_secs : ℕ

pub record DistributedUa : Type 0 where
  pub by_ua : List (ℕ × UaBucket)
  pub last_gc : ℕ

unfoldable pub member : IpAddr → List IpAddr → Bool
member ip [] = false
member ip (j ∷ js) = ip_eq.beq j ip || member ip js

-- `HashSet::insert`
unfoldable pub add_ip : IpAddr → List IpAddr → List IpAddr
unfolding member
add_ip ip ips = if member ip ips then ips else ip ∷ ips

-- `DistributedUa::maybe_gc`
unfoldable pub ua_gc : DistributedUa → ℕ → DistributedUa
ua_gc d now = if ltb (now - d.last_gc) 60 then d else record {
  by_ua = retain (λ _ b. ltb (now - b.first_secs) (ua_window_secs * 2)) d.by_ua;
  last_gc = now;
}

-- the body of `DistributedUa::observe` on the bucket of the user agent
unfoldable pub spread : UaBucket → IpAddr → ℕ → UaBucket × Option DecisionReason
spread b ip now =
    let b' =
      (if (b.first_secs == 0) || ltb ua_window_secs (now - b.first_secs)
        then record { ips = []; first_secs = now }
        else b) in
    let ips = if ltb (length b'.ips) 256 then add_ip ip b'.ips else b'.ips in
    (
      record b' { ips = ips },
      (if leb ua_threshold_ip (length ips)
          then some (
              reason (text "DIST-UA") (text "ddos") 50
                (text "UA shared by " ++ (decimal (length ips) ++ text " distinct IPs in 60s")))
          else none),
    )

-- `DistributedUa::observe`
unfoldable pub observe_ua :
    DistributedUa → IpAddr → Text → ℕ → DistributedUa × Option DecisionReason
observe_ua d ip ua now =
    if is_empty ua
    then (d, none)
    else (let d' = ua_gc d now in
        let (b, out) =
          spread (or_else (lookup (fnv64 ua) d'.by_ua) (record { ips = []; first_secs = 0 })) ip
            now in
        (record d' { by_ua = insert (fnv64 ua) b d'.by_ua }, out))
