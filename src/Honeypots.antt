-- ===== src/Honeypots.antt =====
-- crates/waf-core/src/honeypots.rs: paths that only scanners ask for. The state is the list of traps, which the
-- operator can replace.
use t1_waf.Prelude.{
  Text, text, text_beq, nat_eq, text_eq, if◌then◌else◌, ℕ, Bool, false, ◌||◌, Option, none, some,
  List, [], ◌∷◌, ◌++◌,
}
use t1_waf.Strings.{starts_with, ends_with, take_chars}
use t1_waf.Decision.{DecisionReason}

abbrev pub w_honeypot : ℕ
w_honeypot = 100

-- `DEFAULT_TRAPS`
unfoldable pub default_traps : List Text
default_traps =
    text "/.env"
    ∷ text "/.env.local"
    ∷ text "/.env.production"
    ∷ text "/.env.dev"
    ∷ text "/.git/config"
    ∷ text "/.git/HEAD"
    ∷ text "/.git/index"
    ∷ text "/.gitignore"
    ∷ text "/.svn/wc.db"
    ∷ text "/.hg/store"
    ∷ text "/.aws/credentials"
    ∷ text "/.ssh/id_rsa"
    ∷ text "/.ssh/authorized_keys"
    ∷ text "/.dockerignore"
    ∷ text "/.docker/config.json"
    ∷ text "/.npmrc"
    ∷ text "/.bash_history"
    ∷ text "/wp-config.php"
    ∷ text "/wp-config.php.bak"
    ∷ text "/wp-config.bak"
    ∷ text "/wp-config.txt"
    ∷ text "/wp-admin/setup-config.php"
    ∷ text "/wp-admin/install.php"
    ∷ text "/wp-content/debug.log"
    ∷ text "/xmlrpc.php"
    ∷ text "/phpinfo.php"
    ∷ text "/info.php"
    ∷ text "/test.php"
    ∷ text "/phpmyadmin/"
    ∷ text "/pma/"
    ∷ text "/myadmin/"
    ∷ text "/server-status"
    ∷ text "/server-info"
    ∷ text "/console"
    ∷ text "/manager/html"
    ∷ text "/manager/status"
    ∷ text "/admin.php"
    ∷ text "/setup.php"
    ∷ text "/.well-known/security.txt.bak"
    ∷ text "/cgi-bin/luci"
    ∷ text "/cgi-bin/php-cgi"
    ∷ text "/HNAP1/"
    ∷ text "/Autodiscover/Autodiscover.xml"
    ∷ text "/owa/auth/logon.aspx"
    ∷ text "/ews/exchange.asmx"
    ∷ text "/boaform/admin/formLogin"
    ∷ text "/cgi-bin/.%2e/"
    ∷ text "/actuator/env"
    ∷ text "/actuator/heapdump"
    ∷ text "/actuator/prometheus"
    ∷ text "/api/v1/cluster/info"
    ∷ text "/druid/indexer/v1/sampler"
    ∷ text "/struts2-rest-showcase/orders/3"
    ∷ text "/_ignition/execute-solution"
    ∷ []

-- `Honeypots::new`, `replace` and `snapshot`
unfoldable pub new : List Text → List Text
new paths = paths

unfoldable pub replace : List Text → List Text → List Text
replace old paths = paths

unfoldable pub snapshot : List Text → List Text
snapshot traps = traps

-- the test of `is_trap` against one trap
unfoldable pub trap_matches : Text → Text → Bool
trap_matches path p =
    if ends_with p (text "/")
    then starts_with path p
    else text_beq path p || starts_with path (p ++ text "?")

-- `Honeypots::is_trap`
unfoldable pub is_trap : List Text → Text → Bool
unfolding trap_matches
is_trap [] path = false
is_trap (p ∷ traps) path = trap_matches path p || is_trap traps path

-- `Honeypots::check`
unfoldable pub check : List Text → Text → Option DecisionReason
check traps path =
    if is_trap traps path
    then some (record {
      rule_id = text "HONEYPOT";
      category = text "honeypot";
      score = w_honeypot;
      detail = text "trap path " ++ take_chars 64 path;
    })
    else none
