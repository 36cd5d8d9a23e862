-- ===== src/Tests/Samples.antt =====
-- Stand-ins for the libraries that the program calls, and an engine to try.
use t1_waf.Prelude.{
  Text, decimal, text_beq, nat_eq, ltb, leb, replicate, ℕ, zero, suc, ◌+◌, ◌-◌, ◌*◌, ◌/◌, ◌%◌, refl,
  true, false, none, some, [], ◌∷◌, arith,
}
use t1_waf.Prelude.Texts.{text_eq}
use t1_waf.Strings.Compare.{Bytes}
use t1_waf.Request.{IpAddr, v4, v6, RequestCtx}
use t1_waf.Metrics.{Metrics}
use t1_waf.Net.{NetApi}
use t1_waf.Crypto.{Crypto, CryptoLaws}
use t1_waf.Behavior.{F32}
use t1_waf.Rules.{Scanners}
use t1_waf.Challenge.{Challenger}
use t1_waf.RateLimit.{RateLimiter}
use t1_waf.Reputation.{Reputations}
use t1_waf.Runtime.{Runtime}
use t1_waf.Engine.{Env, Engine}

abbrev pub dotted : IpAddr → Text
dotted (v4 a b c d) = a ∷ b ∷ c ∷ d ∷ []
dotted (v6 a b c d e f g h) = a ∷ b ∷ c ∷ d ∷ e ∷ f ∷ g ∷ h ∷ []

-- blocks that hold one address each, written as its bytes
abbrev pub single_nets : NetApi
single_nets = record {
  Net = Text;
  contains = λ n ip. text_beq n (dotted ip);
  new = λ ip prefix. some (dotted ip);
  parse = λ s. some s;
  show = λ n. n;
  net_eq = text_eq;
  parse_ip = λ s. none;
}

abbrev pub sum_of : Text → ℕ
sum_of [] = 0
sum_of (b ∷ s) = b + 3 * sum_of s

abbrev pub checksums : Crypto
checksums = record {
  sha256 = λ s. sum_of s % 16 ∷ replicate 31 0;
  mac = λ k s. (sum_of k + 7 * sum_of s) % 256 ∷ [];
  hex_encode = λ bytes. bytes;
}

pub zeros-Bytes : (n : ℕ) → Bytes (replicate n 0)
zeros-Bytes zero = tt
zeros-Bytes (suc n) = (ground arith, zeros-Bytes n)

abbrev pub checksum_laws : CryptoLaws checksums
checksum_laws = record {
  sha256_len = λ s. refl;
  sha256_bytes = λ s. (omega arith, zeros-Bytes 31);
  mac_bytes = λ k s. (omega arith, tt);
}

abbrev pub whole_numbers : F32
whole_numbers = record {
  Float = ℕ;
  from_u32 = λ n. n;
  frac = λ a b. a / b;
  add = λ a b. a + b;
  sub = λ a b. a - b;
  div = λ a b. a / b;
  square = λ a. a * a;
  sqrt = λ a. a;
  lt = ltb;
  le = leb;
  show2 = decimal;
  show0 = decimal;
}

abbrev pub blind : Scanners
blind = record {
  decode = λ s. s;
  from_utf8_lossy = λ s. s;
  sqli_set = λ s. false;
  xss_set = λ s. false;
  traversal_set = λ s. false;
  cmdi_set = λ s. false;
  lfi_set = λ s. false;
}

abbrev pub sample_env : Env
sample_env = record {
  net = single_nets;
  crypto = checksums;
  float = whole_numbers;
  scanners = blind;
  Regex = Text;
  is_match = λ r s. false;
  ua_match = λ names ua. false;
  ip_text = dotted;
  debug = λ s. s;
  known_bots = [];
  datacenters = [];
}

abbrev pub sample_challenger : Challenger
sample_challenger = record {
  secret = 1 ∷ 2 ∷ 3 ∷ [];
  cookie_name = b'c' ∷ [];
  cookie_ttl = 1800;
  pow_difficulty = 4;
}

abbrev pub sample_limiter : RateLimiter Text
sample_limiter = record {
  enabled = true;
  global_rpm = 60;
  global_burst = 10;
  routes = [];
  counters = [];
}

abbrev pub sample_reputations : Reputations Text
sample_reputations = record {
  allow = [];
  deny = [];
  auto_ban_threshold = 3;
  window_secs = 60;
  duration_secs = 3600;
  state = [];
}

-- every defence is off but the traps
abbrev pub sample_runtime : Runtime Text
sample_runtime = record {
  under_attack = false;
  uam_level = 0;
  challenge_mode = 0;
  auto_uam_enabled = true;
  auto_uam_threshold = 50;
  challenge_threshold = 40;
  block_threshold = 70;
  max_concurrent_per_ip = 200;
  rpm_under_attack_bps = 2000;
  subnet_rpm = 2400;
  subnet_conn = 800;
  global_inflight_cap = 20_000;
  tarpit_score = 150;
  datacenter_block = false;
  rules = record {
    sqli = false;
    xss = false;
    traversal = false;
    cmdi = false;
    lfi = false;
    bot_ua = false;
    rate_limit = false;
  };
  defenses = record {
    bot_score = false;
    behavior = false;
    ddos = false;
    honeypots = true;
    subnet = false;
    replay = false;
    dist_ua = false;
    goodbot = false;
    bic = true;
  };
  allow = [];
  deny = [];
  blocked_countries = [];
  auth_token = b't' ∷ [];
  turnstile_provider = [];
  turnstile_site_key = [];
  turnstile_secret = b's' ∷ [];
}

abbrev pub sample_engine : Engine Text Text
sample_engine = record {
  limits = record {
    max_body_bytes = 100;
    max_headers = 10;
    max_header_value_bytes = 20;
    max_uri_bytes = 20;
    allowed_methods = (b'G' ∷ []) ∷ [];
  };
  geoip = record { mmdb_path = []; block_countries = []; suspicious_countries = [] };
  auto_ban_duration_secs = 3600;
  suspicious_user_agents = [];
  runtime = sample_runtime;
  rate_limiter = sample_limiter;
  reputations = sample_reputations;
  challenger = sample_challenger;
  bic_secret = 1 ∷ 2 ∷ 3 ∷ [];
  conns = [];
  behavior = record { by_ip = []; last_gc = 0 };
  subnets = record { counters = []; in_flight = []; last_gc = 0 };
  honeypots = (b'/' ∷ b'x' ∷ []) ∷ [];
  replay = record { by_ip = []; last_gc = 0 };
  dist_ua = record { by_ua = []; last_gc = 0 };
  goodbot = [];
  lookups = [];
  rate_limited = 0;
  events = record { inner = []; cap = 3 };
  storage_sink = none;
}

abbrev pub home : IpAddr
home = v4 10 1 2 3

-- a request from home for the given path
abbrev pub request_for : Text → RequestCtx
request_for path = record {
  request_id = b'i' ∷ [];
  client_ip = home;
  method = b'G' ∷ [];
  uri = path;
  path = path;
  query = [];
  host = b'h' ∷ [];
  user_agent = b'u' ∷ [];
  http_version = [];
  headers = (b'a' ∷ [], []) ∷ (b'b' ∷ [], []) ∷ (b'c' ∷ [], []) ∷ [];
  header_order = [];
  cookie_order = [];
  cookies = [];
  body_preview = [];
  content_length = none;
  country = none;
  ja4h = [];
}

abbrev pub plain : RequestCtx
plain = request_for (b'/' ∷ [])

abbrev pub probe : RequestCtx
probe = request_for (b'/' ∷ b'x' ∷ [])

abbrev pub no_metrics : Metrics
no_metrics = record {
  allowed = 0;
  challenged = 0;
  blocked = 0;
  tarpit = 0;
  rate_limited = 0;
  upstream_errors = 0;
  by_ip = [];
  by_path = [];
  by_country = [];
  by_rule = [];
  buckets = [];
  head_secs = 0;
}
