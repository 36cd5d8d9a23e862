-- ===== src/Config/Defaults.antt =====
-- The values of crates/waf-core/src/config.rs for fields that `waf.toml` leaves out.
use t1_waf.Prelude.{Text, text, nat_eq, text_eq, ℕ, ◌*◌, true, false, List, [], ◌∷◌}
use t1_waf.Config.{Config}

abbrev pub default_connect_timeout : ℕ
default_connect_timeout = 2000

abbrev pub default_read_timeout : ℕ
default_read_timeout = 30_000

abbrev pub default_max_body : ℕ
default_max_body = 1024 * 1024

abbrev pub default_max_headers : ℕ
default_max_headers = 100

abbrev pub default_max_header_value : ℕ
default_max_header_value = 8192

abbrev pub default_max_uri : ℕ
default_max_uri = 8192

unfoldable pub default_methods : List Text
default_methods =
    text "GET"
    ∷ text "HEAD"
    ∷ text "POST"
    ∷ text "PUT"
    ∷ text "PATCH"
    ∷ text "DELETE"
    ∷ text "OPTIONS"
    ∷ []

abbrev pub default_auto_ban_hits : ℕ
default_auto_ban_hits = 5

abbrev pub default_auto_ban_window : ℕ
default_auto_ban_window = 60

abbrev pub default_auto_ban_duration : ℕ
default_auto_ban_duration = 3600

abbrev pub default_challenge_threshold : ℕ
default_challenge_threshold = 40

abbrev pub default_block_threshold : ℕ
default_block_threshold = 70

unfoldable pub default_cookie_name : Text
default_cookie_name = text "__2t1_clearance"

abbrev pub default_cookie_ttl : ℕ
default_cookie_ttl = 1800

abbrev pub default_pow_difficulty : ℕ
default_pow_difficulty = 4

unfoldable pub default_log_format : Text
default_log_format = text "json"

unfoldable pub default_log_level : Text
default_log_level = text "info"

unfoldable pub default_admin_listen : Text
default_admin_listen = text "127.0.0.1:9090"

-- the configuration that is read from a file that names an upstream, a listener, a secret and the requests
-- per minute, and nothing else
unfoldable pub least : Text → Text → Text → ℕ → Config
least address listen hmac_secret requests_per_minute = record {
  server = record {
    listen = listen;
    listen_tls = [];
    tls_cert = [];
    tls_key = [];
    redirect_to_https_port = 0;
    threads = 0;
    trusted_proxy_hops = 0;
  };
  upstream = record {
    address = address;
    sni = [];
    tls = false;
    connect_timeout_ms = default_connect_timeout;
    read_timeout_ms = default_read_timeout;
  };
  limits = record {
    max_body_bytes = default_max_body;
    max_headers = default_max_headers;
    max_header_value_bytes = default_max_header_value;
    max_uri_bytes = default_max_uri;
    allowed_methods = default_methods;
  };
  rate_limit = record {
    enabled = true;
    requests_per_minute = requests_per_minute;
    burst = 0;
    routes = [];
  };
  reputation = record {
    allow_cidrs = [];
    deny_cidrs = [];
    auto_ban_threshold_hits = default_auto_ban_hits;
    auto_ban_window_secs = default_auto_ban_window;
    auto_ban_duration_secs = default_auto_ban_duration;
  };
  geoip = record { mmdb_path = []; block_countries = []; suspicious_countries = [] };
  detection = record {
    challenge_threshold = default_challenge_threshold;
    block_threshold = default_block_threshold;
    sqli = true;
    xss = true;
    traversal = true;
    cmdi = true;
    lfi = true;
    suspicious_user_agents = [];
  };
  challenge = record {
    hmac_secret = hmac_secret;
    cookie_name = default_cookie_name;
    cookie_ttl_secs = default_cookie_ttl;
    pow_difficulty = default_pow_difficulty;
  };
  logging = record { format = default_log_format; level = default_log_level };
  admin = record { listen = default_admin_listen; runtime_state_path = [] };
}
