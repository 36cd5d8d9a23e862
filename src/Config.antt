-- ===== src/Config.antt =====
-- crates/waf-core/src/config.rs: the sections of `waf.toml`, and `Config::validate`. The TOML reader is not
-- modelled; what it puts in for a field that is missing is in Config/Defaults.
pub mod Defaults
pub mod Initial
use t1_waf.Prelude.{
  Text, text, decimal, text_beq, nat_eq, text_eq, Eq, is_some, or_else, ltb, leb, ◌==◌,
  if◌then◌else◌, ltb→lt, lt→ltb, leb→le, le→leb, lt→leb_false, le→ltb_false, ==_iff, Bool-cases,
  Option-cases, length, get_elem?, set, length-append, length-set, get_elem?-set_self,
  get_elem?-set_ne, get_or, take, drop, replicate, take-append-drop, length-take, length-drop,
  length-replicate, length-map, u32_max, u64_mod, sat_add, add64, add32, ℕ, zero, suc, ◌+◌, ◌-◌,
  ◌*◌, ◌/◌, ◌%◌, ◌^◌, ◌≤◌, ◌<◌, min, max, ◌≡◌, refl, sym, ap, ◌∙◌, subst, ◌≢◌, ◌↔◌, ◌⊎◌, inl, inr,
  Bool, true, false, ◌&&◌, ◌||◌, not, Option, none, some, List, [], ◌∷◌, ◌++◌, map, arith, dec_lt,
  dec_le, ℕ_discrete,
}
use t1_waf.BotScore.{is_empty}

pub record ServerCfg : Type 0 where
  pub listen : Text
  pub listen_tls : Text
  pub tls_cert : Text
  pub tls_key : Text
  pub redirect_to_https_port : ℕ
  pub threads : ℕ
  pub trusted_proxy_hops : ℕ

pub record UpstreamCfg : Type 0 where
  pub address : Text
  pub sni : Text
  pub tls : Bool
  pub connect_timeout_ms : ℕ
  pub read_timeout_ms : ℕ

pub record LimitsCfg : Type 0 where
  pub max_body_bytes : ℕ
  pub max_headers : ℕ
  pub max_header_value_bytes : ℕ
  pub max_uri_bytes : ℕ
  pub allowed_methods : List Text

pub record RouteRateLimit : Type 0 where
  pub pattern : Text
  pub requests_per_minute : ℕ
  pub burst : ℕ

pub record RateLimitCfg : Type 0 where
  pub enabled : Bool
  pub requests_per_minute : ℕ
  pub burst : ℕ
  pub routes : List RouteRateLimit

pub record ReputationCfg : Type 0 where
  pub allow_cidrs : List Text
  pub deny_cidrs : List Text
  pub auto_ban_threshold_hits : ℕ
  pub auto_ban_window_secs : ℕ
  pub auto_ban_duration_secs : ℕ

pub record GeoIpCfg : Type 0 where
  pub mmdb_path : Text
  pub block_countries : List Text
  pub suspicious_countries : List Text

pub record DetectionCfg : Type 0 where
  pub challenge_threshold : ℕ
  pub block_threshold : ℕ
  pub sqli : Bool
  pub xss : Bool
  pub traversal : Bool
  pub cmdi : Bool
  pub lfi : Bool
  pub suspicious_user_agents : List Text

pub record ChallengeCfg : Type 0 where
  pub hmac_secret : Text
  pub cookie_name : Text
  pub cookie_ttl_secs : ℕ
  pub pow_difficulty : ℕ

pub record LoggingCfg : Type 0 where
  pub format : Text
  pub level : Text

pub record AdminCfg : Type 0 where
  pub listen : Text
  pub runtime_state_path : Text

pub record Config : Type 0 where
  pub server : ServerCfg
  pub upstream : UpstreamCfg
  pub limits : LimitsCfg
  pub rate_limit : RateLimitCfg
  pub reputation : ReputationCfg
  pub geoip : GeoIpCfg
  pub detection : DetectionCfg
  pub challenge : ChallengeCfg
  pub logging : LoggingCfg
  pub admin : AdminCfg

pub data ConfigError : Type 0 where
  short_secret bad_thresholds no_listener no_certificate : ConfigError

-- `validate`; `none` is `Ok(())`
unfoldable pub validate : Config → Option ConfigError
validate c =
    if ltb (length c.challenge.hmac_secret) 16
    then some short_secret
    else if leb c.detection.block_threshold c.detection.challenge_threshold
    then some bad_thresholds
    else if is_empty c.server.listen && is_empty c.server.listen_tls
    then some no_listener
    else if not (is_empty c.server.listen_tls)
        && (is_empty c.server.tls_cert || is_empty c.server.tls_key)
    then some no_certificate
    else none

-- what the program may rely on after `load`
pub record IsUsable (c : Config) : Type 0 where
  pub secret : 16 ≤ length c.challenge.hmac_secret
  pub thresholds : c.detection.challenge_threshold < c.detection.block_threshold
  pub listener : (is_empty c.server.listen ≡ false) ⊎ (is_empty c.server.listen_tls ≡ false)
  pub certificate :
      is_empty c.server.listen_tls ≡ false
      → (is_empty c.server.tls_cert ≡ false) × (is_empty c.server.tls_key ≡ false)

-- A configuration is accepted exactly if it is usable: a secret of 16 bytes, thresholds in order, a
-- listener, and a certificate with its key for a TLS listener.
pub validate_iff : (c : Config) → (validate c ≡ none) ↔ IsUsable c
unfolding validate
validate_iff c = (
  λ h. record {
    secret = ground arith;
    thresholds = ground arith;
    listener = ground arith;
    certificate = λ tls. ground arith;
  },
  λ u. ground (arith, u.secret, u.thresholds, u.listener, u.certificate),
)
