-- ===== src/Runtime.antt =====
-- crates/waf-core/src/runtime.rs: the state that the dashboard changes, and the file that keeps it.
-- The write of the file is not modelled: `persisted` is the value that is written.
pub mod Restart
use t1_waf.Prelude.{
  Text, nat_eq, text_eq, or_else, ◌==◌, if◌then◌else◌, ℕ, min, Bool, false, ◌||◌, Option, none,
  some, List, [], ◌∷◌, ◌++◌, map,
}
use t1_waf.Strings.{uppercase}
use t1_waf.Net.{NetApi, parse_net}
use t1_waf.BotScore.{is_empty}

pub data UamLevel : Type 0 where
  off low medium high extreme : UamLevel

-- `UamLevel::from_u8`
unfoldable pub from_u8 : ℕ → UamLevel
from_u8 n =
    if n == 1
    then low
    else if n == 2
    then medium
    else if n == 3
    then high
    else if n == 4
    then extreme
    else off

pub record RuleToggles : Type 0 where
  pub sqli : Bool
  pub xss : Bool
  pub traversal : Bool
  pub cmdi : Bool
  pub lfi : Bool
  pub bot_ua : Bool
  pub rate_limit : Bool

pub record DefenseToggles : Type 0 where
  pub bot_score : Bool
  pub behavior : Bool
  pub ddos : Bool
  pub honeypots : Bool
  pub subnet : Bool
  pub replay : Bool
  pub dist_ua : Bool
  pub goodbot : Bool
  pub bic : Bool

pub record Runtime (Net : Type 0) : Type 0 where
  pub under_attack : Bool
  pub uam_level : ℕ
  pub challenge_mode : ℕ
  pub auto_uam_enabled : Bool
  pub auto_uam_threshold : ℕ
  pub challenge_threshold : ℕ
  pub block_threshold : ℕ
  pub max_concurrent_per_ip : ℕ
  pub rpm_under_attack_bps : ℕ
  pub subnet_rpm : ℕ
  pub subnet_conn : ℕ
  pub global_inflight_cap : ℕ
  pub tarpit_score : ℕ
  pub datacenter_block : Bool
  pub rules : RuleToggles
  pub defenses : DefenseToggles
  pub allow : List Net
  pub deny : List Net
  pub blocked_countries : List Text
  pub auth_token : Text
  pub turnstile_provider : Text
  pub turnstile_site_key : Text
  pub turnstile_secret : Text

pub record PersistedToggles : Type 0 where
  pub sqli : Option Bool
  pub xss : Option Bool
  pub traversal : Option Bool
  pub cmdi : Option Bool
  pub lfi : Option Bool
  pub bot_ua : Option Bool
  pub rate_limit : Option Bool

pub record PersistedDefenses : Type 0 where
  pub bot_score : Option Bool
  pub behavior : Option Bool
  pub ddos : Option Bool
  pub honeypots : Option Bool
  pub subnet : Option Bool
  pub replay : Option Bool
  pub dist_ua : Option Bool
  pub goodbot : Option Bool
  pub bic : Option Bool

pub record PersistedRuntime : Type 0 where
  pub under_attack : Bool
  pub uam_level : Option ℕ
  pub challenge_mode : Option ℕ
  pub auto_uam_enabled : Option Bool
  pub auto_uam_threshold : Option ℕ
  pub challenge_threshold : Option ℕ
  pub block_threshold : Option ℕ
  pub max_concurrent_per_ip : Option ℕ
  pub rpm_under_attack_bps : Option ℕ
  pub subnet_rpm : Option ℕ
  pub subnet_conn : Option ℕ
  pub global_inflight_cap : Option ℕ
  pub tarpit_score : Option ℕ
  pub datacenter_block : Option Bool
  pub allow : List Text
  pub deny : List Text
  pub blocked_countries : List Text
  pub rules : PersistedToggles
  pub defenses : PersistedDefenses
  pub honeypot_paths : Option (List Text)
  pub auth_token : Option Text
  pub turnstile_provider : Option Text
  pub turnstile_site_key : Option Text
  pub turnstile_secret : Option Text

-- the token of the file, unless it is empty
abbrev pub token_or : Option Text → Text → Text
token_or none old = old
token_or (some t) old = if is_empty t then old else t

module _ (api : NetApi) where
  open api use {Net, show, net_eq}

  -- `iter().filter_map(|s| parse_net(s).ok())`
  unfoldable pub parse_all : List Text → List Net
  parse_all [] = []
  parse_all (s ∷ ss) =
      let rest = parse_all ss in elim (parse_net api s) [ none ↦ rest | some n ↦ n ∷ rest ]

  -- `apply_persisted`
  unfoldable pub apply_persisted : PersistedRuntime → Runtime Net → Runtime Net
  apply_persisted p r = record {
    under_attack = p.under_attack;
    uam_level = elim p.uam_level [ none ↦ r.uam_level | some v ↦ min v 4 ];
    challenge_mode = elim p.challenge_mode [ none ↦ r.challenge_mode | some v ↦ min v 2 ];
    auto_uam_enabled = or_else p.auto_uam_enabled r.auto_uam_enabled;
    auto_uam_threshold = or_else p.auto_uam_threshold r.auto_uam_threshold;
    challenge_threshold = or_else p.challenge_threshold r.challenge_threshold;
    block_threshold = or_else p.block_threshold r.block_threshold;
    max_concurrent_per_ip = or_else p.max_concurrent_per_ip r.max_concurrent_per_ip;
    rpm_under_attack_bps = or_else p.rpm_under_attack_bps r.rpm_under_attack_bps;
    subnet_rpm = or_else p.subnet_rpm r.subnet_rpm;
    subnet_conn = or_else p.subnet_conn r.subnet_conn;
    global_inflight_cap = or_else p.global_inflight_cap r.global_inflight_cap;
    tarpit_score = or_else p.tarpit_score r.tarpit_score;
    datacenter_block = or_else p.datacenter_block r.datacenter_block;
    rules = record {
      sqli = or_else p.rules.sqli r.rules.sqli;
      xss = or_else p.rules.xss r.rules.xss;
      traversal = or_else p.rules.traversal r.rules.traversal;
      cmdi = or_else p.rules.cmdi r.rules.cmdi;
      lfi = or_else p.rules.lfi r.rules.lfi;
      bot_ua = or_else p.rules.bot_ua r.rules.bot_ua;
      rate_limit = or_else p.rules.rate_limit r.rules.rate_limit;
    };
    defenses = record {
      bot_score = or_else p.defenses.bot_score r.defenses.bot_score;
      behavior = or_else p.defenses.behavior r.defenses.behavior;
      ddos = or_else p.defenses.ddos r.defenses.ddos;
      honeypots = or_else p.defenses.honeypots r.defenses.honeypots;
      subnet = or_else p.defenses.subnet r.defenses.subnet;
      replay = or_else p.defenses.replay r.defenses.replay;
      dist_ua = or_else p.defenses.dist_ua r.defenses.dist_ua;
      goodbot = or_else p.defenses.goodbot r.defenses.goodbot;
      bic = or_else p.defenses.bic r.defenses.bic;
    };
    allow = parse_all p.allow;
    deny = parse_all p.deny;
    blocked_countries = map uppercase p.blocked_countries;
    auth_token = token_or p.auth_token r.auth_token;
    turnstile_provider = or_else p.turnstile_provider r.turnstile_provider;
    turnstile_site_key = or_else p.turnstile_site_key r.turnstile_site_key;
    turnstile_secret = or_else p.turnstile_secret r.turnstile_secret;
  }

  -- `snapshot`: what the dashboard reads
  unfoldable pub snapshot : Runtime Net → PersistedRuntime
  snapshot r = record {
    under_attack = r.under_attack;
    uam_level = some r.uam_level;
    challenge_mode = some r.challenge_mode;
    auto_uam_enabled = some r.auto_uam_enabled;
    auto_uam_threshold = some r.auto_uam_threshold;
    challenge_threshold = some r.challenge_threshold;
    block_threshold = some r.block_threshold;
    max_concurrent_per_ip = some r.max_concurrent_per_ip;
    rpm_under_attack_bps = some r.rpm_under_attack_bps;
    subnet_rpm = some r.subnet_rpm;
    subnet_conn = some r.subnet_conn;
    global_inflight_cap = some r.global_inflight_cap;
    tarpit_score = some r.tarpit_score;
    datacenter_block = some r.datacenter_block;
    allow = map show r.allow;
    deny = map show r.deny;
    blocked_countries = r.blocked_countries;
    rules = record {
      sqli = some r.rules.sqli;
      xss = some r.rules.xss;
      traversal = some r.rules.traversal;
      cmdi = some r.rules.cmdi;
      lfi = some r.rules.lfi;
      bot_ua = some r.rules.bot_ua;
      rate_limit = some r.rules.rate_limit;
    };
    defenses = record {
      bot_score = some r.defenses.bot_score;
      behavior = some r.defenses.behavior;
      ddos = some r.defenses.ddos;
      honeypots = some r.defenses.honeypots;
      subnet = some r.defenses.subnet;
      replay = some r.defenses.replay;
      dist_ua = some r.defenses.dist_ua;
      goodbot = some r.defenses.goodbot;
      bic = some r.defenses.bic;
    };
    honeypot_paths = none;
    auth_token = some r.auth_token;
    turnstile_provider = some r.turnstile_provider;
    turnstile_site_key = some r.turnstile_site_key;
    turnstile_secret = none;
  }

  -- the value that `persist` writes: the snapshot, with the secret if there is one
  unfoldable pub persisted : Runtime Net → PersistedRuntime
  persisted r = record (snapshot r) {
    turnstile_secret = (if is_empty r.turnstile_secret then none else some r.turnstile_secret);
  }

  unfoldable pub has_net : Net → List Net → Bool
  has_net n [] = false
  has_net n (m ∷ ms) = net_eq.beq m n || has_net n ms

  -- `retain(|n| *n != net)`
  unfoldable pub drop_net : Net → List Net → List Net
  drop_net n [] = []
  drop_net n (m ∷ ms) = let rest = drop_net n ms in if net_eq.beq m n then rest else m ∷ rest

  unfoldable pub push_net : Net → List Net → List Net
  push_net n ns = if has_net n ns then ns else ns ++ (n ∷ [])

  -- `add_allow`, `add_deny`, `remove_allow`, `remove_deny`; `none` is the parse error
  unfoldable pub add_allow : Runtime Net → Text → Option (Runtime Net)
  add_allow r cidr = elim (parse_net api cidr) [
    | none ↦ none
    | some n ↦ some (record r { allow = push_net n r.allow })
  ]

  unfoldable pub add_deny : Runtime Net → Text → Option (Runtime Net)
  add_deny r cidr = elim (parse_net api cidr) [
    | none ↦ none
    | some n ↦ some (record r { deny = push_net n r.deny })
  ]

  unfoldable pub remove_allow : Runtime Net → Text → Option (Runtime Net)
  remove_allow r cidr = elim (parse_net api cidr) [
    | none ↦ none
    | some n ↦ some (record r { allow = drop_net n r.allow })
  ]

  unfoldable pub remove_deny : Runtime Net → Text → Option (Runtime Net)
  remove_deny r cidr = elim (parse_net api cidr) [
    | none ↦ none
    | some n ↦ some (record r { deny = drop_net n r.deny })
  ]
