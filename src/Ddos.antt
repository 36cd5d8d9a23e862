-- ===== src/Ddos.antt =====
-- crates/waf-core/src/ddos.rs: request anomalies of flood scripts.
use t1_waf.Prelude.{
  Text, text, decimal, text_beq, nat_eq, text_eq, or_else, ltb, leb, if◌then◌else◌, length, ℕ, ◌+◌,
  Bool, false, ◌&&◌, ◌||◌, not, Option, none, some, List, [], ◌∷◌, ◌++◌,
}
use t1_waf.Prelude.Assoc.{lookup, contains_key}
use t1_waf.Strings.{contains, count_byte, eq_ignore_case, trim}
use t1_waf.Decision.{DecisionReason}
use t1_waf.Request.{RequestCtx}
use t1_waf.BotScore.{reason, push_if, is_empty}

-- `SUSPECT_BUSTER_KEYS`
unfoldable pub buster_keys : List Text
buster_keys =
    text "_t"
    ∷ text "_ts"
    ∷ text "_r"
    ∷ text "_rand"
    ∷ text "rand"
    ∷ text "nocache"
    ∷ text "cb"
    ∷ text "cachebust"
    ∷ text "_="
    ∷ []

-- how many of the keys stand in the query with an equals sign
unfoldable pub buster_hits : List Text → Text → ℕ
buster_hits [] query = 0
buster_hits (k ∷ ks) query =
    (if contains query (k ++ text "=") then 1 else 0) + buster_hits ks query

abbrev pub is_blank : Option Text → Bool
is_blank none = false
is_blank (some c) = is_empty (trim c)

-- the duplicated-headers stamp says something else than "0"
unfoldable pub is_duplicated : Option Text → Bool
is_duplicated none = false
is_duplicated (some d) = not (text_beq d (text "0"))

-- `score`
unfoldable pub score : RequestCtx → List DecisionReason
unfolding buster_keys
score ctx =
    let has = λ (name : Text). contains_key name ctx.headers in
    let ddos = text "ddos" in
    let hits = buster_hits buster_keys ctx.query in
    push_if
      ((eq_ignore_case ctx.method (text "GET") || eq_ignore_case ctx.method (text "HEAD"))
        && ltb 0 (or_else ctx.content_length 0))
      (reason (text "DDOS-GET-BODY") ddos 25
        (ctx.method ++ (text " with content-length=" ++ decimal (or_else ctx.content_length 0))))
    ++ (push_if (is_blank (lookup (text "connection") ctx.headers))
          (reason (text "DDOS-EMPTY-CONN") ddos 18 (text "empty Connection header"))
        ++ (push_if
              (eq_ignore_case ctx.method (text "OPTIONS")
                && (not (has (text "origin")) && not (has (text "access-control-request-method"))))
              (reason (text "DDOS-OPTIONS-NOORIG") ddos 22
                (text "OPTIONS without CORS preflight headers"))
            ++ (push_if (ltb 0 (count_byte 0 ctx.uri))
                  (reason (text "DDOS-NUL") ddos 100 (text "NUL byte in URI"))
                ++ (push_if (ltb 2048 (length ctx.query) || ltb 64 (count_byte b'&' ctx.query)) (
                      reason (text "DDOS-QUERY-BLOAT") ddos 25 (
                        text "query="
                        ++ (decimal (length ctx.query)
                            ++ (text "B params=" ++ decimal (count_byte b'&' ctx.query + 1)))))
                    ++ (push_if (leb 2 hits) (
                          reason (text "DDOS-CACHEBUST") ddos 20
                            (decimal hits ++ text " cache-buster keys in query"))
                        ++ push_if
                            (is_duplicated (lookup (text "x-duplicated-headers") ctx.headers))
                            (reason (text "DDOS-DUP-HDR") ddos 18 (
                              or_else (lookup (text "x-duplicated-headers") ctx.headers) []
                              ++ text " duplicated singleton headers")))))))
