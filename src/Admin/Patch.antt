-- ===== src/Admin/Patch.antt =====
-- The body of `POST /api/runtime` in crates/waf-proxy/src/admin.rs, as `serde_json` has read it, and what it
-- does to the settings.
use t1_waf.Prelude.{
  Text, nat_eq, text_eq, or_else, if◌then◌else◌, ℕ, min, Bool, Option, none, some, List, map,
}
use t1_waf.Strings.{lowercase, uppercase}
use t1_waf.BotScore.{is_empty}
use t1_waf.Runtime.{Runtime, RuleToggles, DefenseToggles}

-- `RulesPatch`
pub record RulesPatch : Type 0 where
  pub sqli : Option Bool
  pub xss : Option Bool
  pub traversal : Option Bool
  pub cmdi : Option Bool
  pub lfi : Option Bool
  pub bot_ua : Option Bool
  pub rate_limit : Option Bool

-- `DefensesPatch`
pub record DefensesPatch : Type 0 where
  pub bot_score : Option Bool
  pub behavior : Option Bool
  pub ddos : Option Bool
  pub honeypots : Option Bool
  pub subnet : Option Bool
  pub replay : Option Bool
  pub dist_ua : Option Bool
  pub goodbot : Option Bool
  pub bic : Option Bool

-- `Patch`
pub record Patch : Type 0 where
  pub under_attack : Option Bool
  pub uam_level : Option ℕ
  pub challenge_mode : Option ℕ
  pub auto_uam_enabled : Option Bool
  pub auto_uam_threshold : Option ℕ
  pub challenge_threshold : Option ℕ
  pub block_threshold : Option ℕ
  pub max_concurrent_per_ip : Option ℕ
  pub rpm_under_attack_bps : Option ℕ
  pub subnet_rpm : Option ℕ
  pub subnet_conn : Option ℕ
  pub global_inflight_cap : Option ℕ
  pub tarpit_score : Option ℕ
  pub datacenter_block : Option Bool
  pub rules : Option RulesPatch
  pub defenses : Option DefensesPatch
  pub blocked_countries : Option (List Text)
  pub honeypot_paths : Option (List Text)
  pub turnstile_provider : Option Text
  pub turnstile_site_key : Option Text
  pub turnstile_secret : Option Text

-- the switches of the rules, and of the defences
unfoldable pub apply_rules : Option RulesPatch → RuleToggles → RuleToggles
apply_rules none r = r
apply_rules (some p) r = record {
  sqli = or_else p.sqli r.sqli;
  xss = or_else p.xss r.xss;
  traversal = or_else p.traversal r.traversal;
  cmdi = or_else p.cmdi r.cmdi;
  lfi = or_else p.lfi r.lfi;
  bot_ua = or_else p.bot_ua r.bot_ua;
  rate_limit = or_else p.rate_limit r.rate_limit;
}

unfoldable pub apply_defenses : Option DefensesPatch → DefenseToggles → DefenseToggles
apply_defenses none d = d
apply_defenses (some p) d = record {
  bot_score = or_else p.bot_score d.bot_score;
  behavior = or_else p.behavior d.behavior;
  ddos = or_else p.ddos d.ddos;
  honeypots = or_else p.honeypots d.honeypots;
  subnet = or_else p.subnet d.subnet;
  replay = or_else p.replay d.replay;
  dist_ua = or_else p.dist_ua d.dist_ua;
  goodbot = or_else p.goodbot d.goodbot;
  bic = or_else p.bic d.bic;
}

-- a secret replaces the old one unless it is empty
abbrev pub secret_or : Option Text → Text → Text
secret_or none old = old
secret_or (some s) old = if is_empty s then old else s

-- the stores of the handler into the settings, but for `persist`
unfoldable pub apply_patch : {Net : Type 0} → Patch → Runtime Net → Runtime Net
apply_patch p r = record r {
  under_attack = or_else p.under_attack r.under_attack;
  uam_level = elim p.uam_level [ none ↦ r.uam_level | some v ↦ min v 4 ];
  challenge_mode = elim p.challenge_mode [ none ↦ r.challenge_mode | some v ↦ min v 2 ];
  auto_uam_enabled = or_else p.auto_uam_enabled r.auto_uam_enabled;
  auto_uam_threshold = or_else p.auto_uam_threshold r.auto_uam_threshold;
  challenge_threshold = or_else p.challenge_threshold r.challenge_threshold;
  block_threshold = or_else p.block_threshold r.block_threshold;
  max_concurrent_per_ip = or_else p.max_concurrent_per_ip r.max_concurrent_per_ip;
  rpm_under_attack_bps = or_else p.rpm_under_attack_bps r.rpm_under_attack_bps;
  subnet_rpm = or_else p.subnet_rpm r.subnet_rpm;
  subnet_conn = or_else p.subnet_conn r.subnet_conn;
  global_inflight_cap = or_else p.global_inflight_cap r.global_inflight_cap;
  tarpit_score = or_else p.tarpit_score r.tarpit_score;
  datacenter_block = or_else p.datacenter_block r.datacenter_block;
  rules = apply_rules p.rules r.rules;
  defenses = apply_defenses p.defenses r.defenses;
  blocked_countries = elim p.blocked_countries [
    | none ↦ r.blocked_countries
    | some c ↦ map uppercase c
  ];
  turnstile_provider = elim p.turnstile_provider [
    | none ↦ r.turnstile_provider
    | some s ↦ lowercase s
  ];
  turnstile_site_key = or_else p.turnstile_site_key r.turnstile_site_key;
  turnstile_secret = secret_or p.turnstile_secret r.turnstile_secret;
}
