-- ===== src/BotScore.antt =====
-- crates/waf-core/src/bot_score.rs: how far a request is from what a browser sends.
use t1_waf.Prelude.{
  Text, text, text_beq, nat_eq, text_eq, ltb, ◌==◌, if◌then◌else◌, length, ℕ, Bool, true, false,
  ◌&&◌, ◌||◌, not, Option, none, some, List, [], ◌∷◌, ◌++◌,
}
use t1_waf.Prelude.Assoc.{lookup, contains_key}
use t1_waf.Strings.{starts_with, contains, lowercase, eq_ignore_case, all_bytes, is_digit, is_space}
use t1_waf.Decision.{DecisionReason}
use t1_waf.Request.{RequestCtx}

-- `reason`
unfoldable pub reason : Text → Text → ℕ → Text → DecisionReason
reason rule cat score detail = record {
  rule_id = rule;
  category = cat;
  score = score;
  detail = detail;
}

-- `if test { out.push(r) }`
abbrev pub push_if : Bool → DecisionReason → List DecisionReason
push_if test r = if test then r ∷ [] else []

unfoldable pub claims_chromium : Text → Bool
claims_chromium ua =
    contains ua (text "chrome/") || (contains ua (text "edg/") || contains ua (text "opr/"))

unfoldable pub claims_browser : Text → Bool
claims_browser ua =
    contains ua (text "mozilla/")
    || (claims_chromium ua || (contains ua (text "firefox/") || contains ua (text "safari/")))

-- `headers.keys().any(|k| k.starts_with("sec-fetch-"))`
unfoldable pub has_sec_fetch : List (Text × Text) → Bool
has_sec_fetch [] = false
has_sec_fetch ((k, _) ∷ hs) = starts_with k (text "sec-fetch-") || has_sec_fetch hs

-- `v == "HTTP/1.0" || v == "1.0"` on the stamped version header
unfoldable pub is_http_1_0 : Option Text → Bool
is_http_1_0 none = false
is_http_1_0 (some v) = text_beq v (text "HTTP/1.0") || text_beq v (text "1.0")

abbrev pub is_empty : Text → Bool
is_empty [] = true
is_empty (_ ∷ _) = false

-- `is_ascii_whitespace`: no vertical tab
abbrev pub is_ascii_space : ℕ → Bool
is_ascii_space c = is_space c && not (c == 11)

-- `score`
unfoldable pub score : RequestCtx → List DecisionReason
score ctx =
    let ua = lowercase ctx.user_agent in
    let has = λ (name : Text). contains_key name ctx.headers in
    let bot = text "bot" in
    push_if (not (has (text "accept")))
      (reason (text "BOT-NO-ACCEPT") bot 8 (text "Accept header missing"))
    ++ (push_if (not (has (text "accept-language")))
          (reason (text "BOT-NO-LANG") bot 8 (text "Accept-Language header missing"))
        ++ (push_if (not (has (text "accept-encoding")))
              (reason (text "BOT-NO-ENC") bot 10 (text "Accept-Encoding header missing"))
            ++ (push_if (claims_browser ua && not (has_sec_fetch ctx.headers)) (
                  reason (text "BOT-NO-SEC-FETCH") bot 12
                    (text "claims browser UA but no sec-fetch-* headers"))
                ++ (push_if (claims_chromium ua && not (has (text "sec-ch-ua"))) (
                      reason (text "BOT-UA-MISMATCH") bot 35
                        (text "Chrome UA without sec-ch-ua header"))
                    ++ (push_if (is_http_1_0 (lookup (text "x-http-version") ctx.headers))
                          (reason (text "BOT-HTTP10") bot 25 (text "HTTP/1.0 from public internet"))
                        ++ (push_if (not (is_empty ctx.user_agent) && ltb (length ctx.user_agent) 8)
                              (reason (text "BOT-UA-TINY") bot 25
                                (text "User-Agent suspiciously short"))
                            ++ (push_if
                                  (not (is_empty ctx.user_agent)
                                    && all_bytes (λ c. is_digit c || is_ascii_space c)
                                        ctx.user_agent)
                                  (reason (text "BOT-UA-NUMERIC") bot 30
                                    (text "User-Agent looks autogenerated"))
                                ++ (push_if (claims_browser ua && ltb (length ctx.headers) 6) (
                                      reason (text "BOT-MIN-HDRS") bot 30
                                        (text "browser UA with very few headers"))
                                    ++ push_if
                                        (eq_ignore_case ctx.method (text "POST")
                                          && (not (has (text "referer"))
                                              && not (starts_with ctx.path (text "/api/"))))
                                        (reason (text "BOT-NO-REFERER-POST") bot 12
                                          (text "POST without Referer outside /api/"))))))))))
