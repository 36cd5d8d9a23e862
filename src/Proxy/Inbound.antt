-- ===== src/Proxy/Inbound.antt =====
-- `build_request_ctx` of crates/waf-proxy/src/proxy.rs: a request as it comes from the session. The id of the
-- request, which hashes the clock, is an argument.
use t1_waf.Prelude.{
  Text, text, text_beq, nat_eq, text_eq, or_else, if◌then◌else◌, ℕ, Bool, false, ◌||◌, Option, none,
  some, List, [], ◌∷◌, ◌++◌,
}
use t1_waf.Prelude.Assoc.{lookup, insert, contains_key}
use t1_waf.Strings.{lowercase, split, split_once, trim, parse_u64}
use t1_waf.Request.{IpAddr, v4, RequestCtx}
use t1_waf.Crypto.{Crypto}
use t1_waf.Fingerprint.{compute}
use t1_waf.Proxy.{parse_cookie_header, resolve_client_ip}

-- The head of a request, as the session holds it: a header's value is `none` if it is not visible ASCII.
pub record RawRequest : Type 0 where
  pub method : Text
  pub uri : Text
  pub path : Text
  pub query : Option Text
  pub version : Text
  pub raw_headers : List (Text × Option Text)
  pub socket_ip : Option IpAddr

unfoldable pub in_order : List Text → Text → Bool
in_order [] name = false
in_order (h ∷ hs) name = text_beq h name || in_order hs name

-- the loop over the headers: the order of the names, and the first value of each
unfoldable pub collect_headers :
    List (Text × Option Text) → List Text → List (Text × Text) → List Text × List (Text × Text)
collect_headers [] order headers = (order, headers)
collect_headers ((k, none) ∷ hs) order headers = collect_headers hs order headers
collect_headers ((k, some v) ∷ hs) order headers =
    let name = lowercase k in
    collect_headers hs (if in_order order name then order else order ++ (name ∷ []))
      (if contains_key name headers then headers else insert name v headers)

-- the names of the cookies in the order of the header
unfoldable pub cookie_names : List Text → List Text
cookie_names [] = []
cookie_names (p ∷ ps) =
    let rest = cookie_names ps in
    elim (split_once b'=' p) [ none ↦ rest | some (k, v) ↦ lowercase (trim k) ∷ rest ]

-- `req.headers.get("x-forwarded-for")` with `to_str`
unfoldable pub raw_header : Text → List (Text × Option Text) → Option Text
raw_header name [] = none
raw_header name ((k, v) ∷ hs) = if text_beq (lowercase k) name then v else raw_header name hs

module _ (crypto : Crypto) (parse_ip : Text → Option IpAddr) where
  -- `build_request_ctx`, with `trusted_proxy_hops`
  unfoldable pub build_request_ctx : RawRequest → ℕ → Text → RequestCtx
  build_request_ctx r hops request_id =
      let (order, headers) = collect_headers r.raw_headers [] [] in
      let cookie_header = lookup (text "cookie") headers in
      let cookies : List (Text × Text) = elim cookie_header [
        | none ↦ []
        | some c ↦ parse_cookie_header c
      ] in
      let cookie_order : List Text = elim cookie_header [
        | none ↦ []
        | some c ↦ cookie_names (split b';' c)
      ] in
      record {
        request_id = request_id;
        client_ip =
            resolve_client_ip parse_ip (or_else r.socket_ip (v4 0 0 0 0)) hops
              (raw_header (text "x-forwarded-for") r.raw_headers);
        method = r.method;
        uri = r.uri;
        path = r.path;
        query = or_else r.query [];
        host = or_else (lookup (text "host") headers) [];
        user_agent = or_else (lookup (text "user-agent") headers) [];
        http_version = r.version;
        headers = headers;
        header_order = order;
        cookie_order = cookie_order;
        cookies = cookies;
        body_preview = [];
        content_length = elim (lookup (text "content-length") headers) [
          | none ↦ none
          | some s ↦ parse_u64 s
        ];
        country = none;
        ja4h = compute crypto r.method r.version order headers cookie_order cookies;
      }
