-- ===== src/Config/Initial.antt =====
-- `Runtime::from_config` of crates/waf-core/src/runtime.rs: the settings of a fresh process. The random token is an
-- argument.
use t1_waf.Prelude.{Text, text, nat_eq, text_eq, ◌<◌, ◌≡◌, refl, true, false, none, [], arith}
use t1_waf.Config.{Config, validate, validate_iff}
use t1_waf.Runtime.{Runtime, from_u8}
use t1_waf.Engine.{block_t, chal_t, rate_scale, uam_params, level_params, effective_level}

unfoldable pub from_config : {Net : Type 0} → Config → Text → Runtime Net
from_config cfg token = record {
  under_attack = false;
  uam_level = 0;
  challenge_mode = 0;
  auto_uam_enabled = false;
  auto_uam_threshold = 50;
  challenge_threshold = cfg.detection.challenge_threshold;
  block_threshold = cfg.detection.block_threshold;
  max_concurrent_per_ip = 200;
  rpm_under_attack_bps = 2000;
  subnet_rpm = 2400;
  subnet_conn = 800;
  global_inflight_cap = 20_000;
  tarpit_score = 150;
  datacenter_block = false;
  rules = record {
    sqli = cfg.detection.sqli;
    xss = cfg.detection.xss;
    traversal = cfg.detection.traversal;
    cmdi = cfg.detection.cmdi;
    lfi = cfg.detection.lfi;
    bot_ua = true;
    rate_limit = cfg.rate_limit.enabled;
  };
  defenses = record {
    bot_score = true;
    behavior = true;
    ddos = true;
    honeypots = true;
    subnet = true;
    replay = true;
    dist_ua = true;
    goodbot = true;
    bic = true;
  };
  allow = [];
  deny = [];
  blocked_countries = cfg.geoip.block_countries;
  auth_token = token;
  turnstile_provider = text "turnstile";
  turnstile_site_key = [];
  turnstile_secret = [];
}

-- A process that starts on an accepted configuration asks for a challenge before it blocks: its threshold
-- for the challenge lies below that for the block. It scales no rate, and it puts a request on trial at every
-- score from the first threshold on.
pub from_config-ordered :
    (Net : Type 0) (cfg : Config) (token : Text)
    → validate cfg ≡ none
    → let r : Runtime Net = from_config cfg token in
      (chal_t r < block_t r)
      × ((rate_scale r ≡ 10_000) × (chal_t r ≡ cfg.detection.challenge_threshold))
unfolding from_config chal_t block_t rate_scale uam_params level_params effective_level from_u8
from_config-ordered Net cfg token ok =
    let u = (validate_iff cfg).0 ok in (omega (arith, u.thresholds), (refl, omega arith))
