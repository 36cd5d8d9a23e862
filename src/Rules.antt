-- ===== src/Rules.antt =====
-- crates/waf-core/src/rules: the fields of a request that the detection rules read, and their scans.
-- The regular expressions and the decoding of percents and of UTF-8 are parameters.
use t1_waf.Prelude.{
  Text, text, text_beq, nat_eq, text_eq, ◌==◌, if◌then◌else◌, ℕ, Bool, ◌||◌, Option, none, some,
  List, [], ◌∷◌, ◌++◌, map,
}
use t1_waf.Strings.{take_chars}
use t1_waf.Request.{RequestCtx}

-- `Hit`; the constant text of each rule set is its `RuleSet`
pub record Hit : Type 0 where
  pub rule_id : Text
  pub category : Text
  pub matched_field : Text
  pub matched_excerpt : Text

pub record Surface : Type 0 where
  pub uri : Text
  pub query_decoded : Text
  pub path_decoded : Text
  pub headers_concat : Text
  pub body_preview : Text
  pub user_agent : Text

-- `percent_decode_str(s).decode_utf8_lossy()`, `String::from_utf8_lossy`, and the match of each of
-- the five `RegexSet`s
pub record Scanners : Type 0 where
  pub decode : Text → Text
  pub from_utf8_lossy : List ℕ → Text
  pub sqli_set : Text → Bool
  pub xss_set : Text → Bool
  pub traversal_set : Text → Bool
  pub cmdi_set : Text → Bool
  pub lfi_set : Text → Bool

-- `is_skip_header`
unfoldable pub is_skip_header : Text → Bool
is_skip_header n =
    text_beq n (text "cookie")
    || (text_beq n (text "authorization")
        || (text_beq n (text "content-length")
            || (text_beq n (text "content-type")
                || (text_beq n (text "host")
                    || (text_beq n (text "user-agent")
                        || (text_beq n (text "accept")
                            || (text_beq n (text "accept-encoding")
                                || (text_beq n (text "accept-language")
                                    || (text_beq n (text "connection")
                                        || (text_beq n (text "upgrade")
                                            || (text_beq n (text "keep-alive")
                                                || (text_beq n (text "te")
                                                    || text_beq n
                                                        (text "transfer-encoding")))))))))))))

-- the headers that are scanned, a line each
unfoldable pub header_lines : List (Text × Text) → List Text
header_lines [] = []
header_lines ((k, v) ∷ hs) =
    let rest = header_lines hs in if is_skip_header k then rest else (k ++ (text ": " ++ v)) ∷ rest

-- `join("\n")`
unfoldable pub join_lines : List Text → Text
join_lines [] = []
join_lines (l ∷ []) = l
join_lines (l ∷ m ∷ ls) = l ++ (10 ∷ join_lines (m ∷ ls))

-- `Surface::from`
unfoldable pub surface_of : Scanners → RequestCtx → Surface
surface_of sc ctx = record {
  uri = ctx.uri;
  query_decoded = sc.decode ctx.query;
  path_decoded = sc.decode ctx.path;
  headers_concat = join_lines (header_lines ctx.headers);
  body_preview = sc.from_utf8_lossy ctx.body_preview;
  user_agent = ctx.user_agent;
}

-- line breaks become spaces
abbrev pub flat : ℕ → ℕ
flat c = if (c == 10) || (c == 13) then 32 else c

-- `excerpt`
unfoldable pub excerpt : Text → Text
excerpt s = map flat (take_chars 96 s)

-- the loop of each `scan`: the first field that matches
unfoldable pub scan_fields : (Text → Bool) → Text → Text → List (Text × Text) → Option Hit
scan_fields matches rule cat [] = none
scan_fields matches rule cat ((name, field) ∷ fs) =
    if matches field
    then some (record {
      rule_id = rule;
      category = cat;
      matched_field = name;
      matched_excerpt = excerpt field;
    })
    else scan_fields matches rule cat fs

-- the fields of sqli.rs, xss.rs and cmdi.rs
unfoldable pub all_fields : Surface → List (Text × Text)
all_fields s =
    (text "query", s.query_decoded)
    ∷ (text "path", s.path_decoded)
    ∷ (text "body", s.body_preview)
    ∷ (text "headers", s.headers_concat)
    ∷ (text "uri-raw", s.uri)
    ∷ []

unfoldable pub sqli_scan : Scanners → Surface → Option Hit
sqli_scan sc s = scan_fields sc.sqli_set (text "SQLI-01") (text "sqli") (all_fields s)

unfoldable pub xss_scan : Scanners → Surface → Option Hit
xss_scan sc s = scan_fields sc.xss_set (text "XSS-01") (text "xss") (all_fields s)

unfoldable pub traversal_scan : Scanners → Surface → Option Hit
traversal_scan sc s = scan_fields sc.traversal_set (text "TRAV-01") (text "traversal") (
    (text "path", s.path_decoded)
    ∷ (text "query", s.query_decoded)
    ∷ (text "uri-raw", s.uri)
    ∷ (text "body", s.body_preview)
    ∷ [])

unfoldable pub cmdi_scan : Scanners → Surface → Option Hit
cmdi_scan sc s = scan_fields sc.cmdi_set (text "CMDI-01") (text "cmdi") (all_fields s)

unfoldable pub lfi_scan : Scanners → Surface → Option Hit
lfi_scan sc s = scan_fields sc.lfi_set (text "LFI-01") (text "lfi") (
    (text "query", s.query_decoded)
    ∷ (text "path", s.path_decoded)
    ∷ (text "body", s.body_preview)
    ∷ (text "uri-raw", s.uri)
    ∷ [])
