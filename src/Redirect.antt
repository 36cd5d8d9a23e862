-- ===== src/Redirect.antt =====
-- crates/waf-proxy/src/redirect.rs: where a request in clear text is sent.
use t1_waf.Prelude.{
  Text, text, decimal, nat_eq, text_eq, or_else, ◌==◌, if◌then◌else◌, get_or, ℕ, Option, none, some,
  [], ◌++◌,
}
use t1_waf.Strings.{split}

-- the host without its port
unfoldable pub host_of : Option Text → Text
host_of none = []
host_of (some h) = get_or (split b':' h) 0 h

-- `location` of `request_filter`, with the port, the header `host` and the path with its query
unfoldable pub location : ℕ → Option Text → Option Text → Text
location port host path_and_query =
    let uri = or_else path_and_query (text "/") in
    if port == 443
    then text "https://" ++ (host_of host ++ uri)
    else text "https://" ++ (host_of host ++ (text ":" ++ (decimal port ++ uri)))
