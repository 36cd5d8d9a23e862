-- ===== src/Admin.antt =====
-- crates/waf-proxy/src/admin.rs: the dashboard's interface. This file holds who may call it and the time
-- range of a query; the children hold the reading of a request, the calls and their answers.
pub mod Auth
pub mod Input
pub mod Patch
pub mod Routes
pub mod Serve
pub mod Stream
pub mod Lifetime
use t1_waf.Prelude.{
  Text, text, text_beq, nat_eq, text_eq, or_else, if◌then◌else◌, Option-cases, length, drop, ℕ, ◌-◌,
  ◌≤◌, max, inl, inr, Bool, true, false, Option, none, some, List, [], arith,
}
use t1_waf.Prelude.Assoc.{lookup}
use t1_waf.Strings.{starts_with, parse_u64}
use t1_waf.BotScore.{is_empty}

-- `ParsedReq`
pub record ParsedReq : Type 0 where
  pub method : Text
  pub path : Text
  pub query : List (Text × Text)
  pub headers : List (Text × Text)
  pub body : Text

-- `strip_prefix`
unfoldable pub strip_prefix : Text → Text → Option Text
strip_prefix s p = if starts_with s p then some (drop (length p) s) else none

-- `auth_ok`, with the token of the runtime
unfoldable pub auth_ok : ParsedReq → Text → Bool
auth_ok req token =
    if is_empty token
    then true
    else (let header = or_else (lookup (text "authorization") req.headers) [] in
        elim (strip_prefix header (text "Bearer ")) [
          | some rest ↦ text_beq rest token
          | none ↦ elim (strip_prefix header (text "bearer ")) [
            | some rest ↦ text_beq rest token
            | none ↦ elim (lookup (text "token") req.query) [
              | none ↦ false
              | some t ↦ text_beq t token
            ]
          ]
        ])

-- the span of `?range=`
unfoldable pub span_ms : Option Text → ℕ
span_ms none = 1_800_000
span_ms (some r) =
    if text_beq r (text "6h")
    then 21_600_000
    else if text_beq r (text "24h")
    then 86_400_000
    else if text_beq r (text "1h")
    then 3_600_000
    else 1_800_000

unfoldable pub number_of : Option Text → Option ℕ
number_of none = none
number_of (some s) = parse_u64 s

-- `parse_range`
unfoldable pub parse_range : List (Text × Text) → ℕ → ℕ × ℕ
parse_range q now_ms =
    let span : ℕ × ℕ = (now_ms - span_ms (lookup (text "range") q), now_ms) in
    elim (number_of (lookup (text "since") q)) [
      | none ↦ span
      | some s ↦ elim (number_of (lookup (text "until") q)) [ none ↦ span | some u ↦ (s, max u s) ]
    ]

-- A time range never ends before it starts, whatever the query says.
pub parse_range-ordered :
    (q : List (Text × Text)) (now_ms : ℕ) → (parse_range q now_ms).0 ≤ (parse_range q now_ms).1
unfolding parse_range
parse_range-ordered q now_ms = elim (Option-cases (number_of (lookup (text "since") q))) [
  | inl a ↦ ground arith
  | inr (s, a) ↦ elim (Option-cases (number_of (lookup (text "until") q))) [
    | inl b ↦ ground arith
    | inr (u, b) ↦ ground arith
  ]
]
