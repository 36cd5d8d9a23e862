-- ===== src/Turnstile.antt =====
-- crates/waf-core/src/turnstile.rs: the check of a captcha's token with its provider. The TLS connection is a
-- parameter, the exchange of a request for the pieces of the answer; so is the JSON reader. The page is not
-- modelled.
pub mod Form
use t1_waf.Prelude.{
  Text, text, decimal, text_beq, nat_eq, text_eq, Eq, is_some, or_else, ltb, leb, ◌==◌,
  if◌then◌else◌, ltb→lt, lt→ltb, leb→le, le→leb, lt→leb_false, le→ltb_false, ==_iff, Bool-cases,
  Option-cases, length, get_elem?, set, length-append, length-set, get_elem?-set_self,
  get_elem?-set_ne, get_or, take, drop, replicate, take-append-drop, length-take, length-drop,
  length-replicate, length-map, u32_max, u64_mod, sat_add, add64, add32, ℕ, zero, suc, ◌+◌, ◌-◌,
  ◌*◌, ◌/◌, ◌%◌, ◌^◌, ◌≤◌, ◌<◌, min, max, ◌≡◌, refl, sym, ap, ◌∙◌, subst, ◌≢◌, ◌↔◌, ◌⊎◌, inl, inr,
  Bool, true, false, ◌&&◌, ◌||◌, not, Option, none, some, List, [], ◌∷◌, ◌++◌, map, arith, dec_lt,
  dec_le, ℕ_discrete,
}
use t1_waf.BotScore.{is_empty}
use t1_waf.Strings.{lowercase, find_double_crlf}

-- `Provider`
pub data Provider : Type 0 where
  turnstile hcaptcha : Provider

-- `Provider::from_str`
unfoldable pub from_str : Text → Provider
from_str s = if text_beq (lowercase s) (text "hcaptcha") then hcaptcha else turnstile

-- `Provider::host`, `path`, `script_src`, `widget_class`, `token_field`
unfoldable pub host : Provider → Text
host turnstile = text "challenges.cloudflare.com"
host hcaptcha = text "hcaptcha.com"

unfoldable pub path : Provider → Text
path turnstile = text "/turnstile/v0/siteverify"
path hcaptcha = text "/siteverify"

unfoldable pub script_src : Provider → Text
script_src turnstile = text "https://challenges.cloudflare.com/turnstile/v0/api.js"
script_src hcaptcha = text "https://js.hcaptcha.com/1/api.js"

unfoldable pub widget_class : Provider → Text
widget_class turnstile = text "cf-turnstile"
widget_class hcaptcha = text "h-captcha"

unfoldable pub token_field : Provider → Text
token_field turnstile = text "cf-turnstile-response"
token_field hcaptcha = text "h-captcha-response"

-- one digit of `{:02X}`
abbrev pub upper_hex : ℕ → ℕ
upper_hex n = if ltb n 10 then 48 + n else 55 + n

-- the bytes that `urlenc` leaves as they are
unfoldable pub is_unreserved : ℕ → Bool
is_unreserved b =
    (leb b'A' b && leb b b'Z')
    || ((leb b'a' b && leb b b'z')
        || ((leb b'0' b && leb b b'9')
            || ((b == b'-') || ((b == b'_') || ((b == b'.') || (b == b'~'))))))

-- `urlenc`
unfoldable pub urlenc : Text → Text
urlenc [] = []
urlenc (b ∷ s) =
    let rest = urlenc s in
    if is_unreserved b then b ∷ rest else b'%' ∷ upper_hex (b / 16) ∷ upper_hex (b % 16) ∷ rest

-- the form of `do_verify`
unfoldable pub form_body : Text → Text → Text → Text
form_body secret token remote_ip =
    text "secret="
    ++ (urlenc secret
        ++ (text "&response=" ++ (urlenc token ++ (text "&remoteip=" ++ urlenc remote_ip))))

abbrev line : Text → Text
line s = s ++ (13 ∷ 10 ∷ [])

-- the request of `do_verify`
unfoldable pub request_text : Provider → Text → Text
request_text p body =
    line (text "POST " ++ (path p ++ text " HTTP/1.1"))
    ++ (line (text "Host: " ++ host p)
        ++ (line (text "User-Agent: 2t1-waf")
            ++ (line (text "Content-Type: application/x-www-form-urlencoded")
                ++ (line (text "Content-Length: " ++ decimal (length body))
                    ++ (line (text "Connection: close")
                        ++ (line (text "Accept: application/json") ++ (line [] ++ body)))))))

-- the loop that reads the answer: up to its end, or past 16 KiB
unfoldable pub read_reply : Text → List Text → Text
read_reply buf [] = buf
read_reply buf (chunk ∷ chunks) =
    let rest = read_reply (buf ++ chunk) chunks in
    if length chunk == 0
    then buf
    else if ltb 16_384 (length (buf ++ chunk))
    then buf ++ chunk
    else rest

module _ (exchange : Provider → Text → Option (List Text))
    (parse_success : Text → Option Bool) where
  -- `do_verify`; `none` is an error
  unfoldable pub do_verify : Provider → Text → Text → Text → Option Bool
  do_verify p secret token remote_ip =
      elim (exchange p (request_text p (form_body secret token remote_ip))) [
        | none ↦ none
        | some chunks ↦
            let buf = read_reply [] chunks in
            elim (find_double_crlf buf) [ none ↦ none | some i ↦ parse_success (drop (i + 4) buf) ]
      ]

  -- `verify`: an error counts as a refusal
  unfoldable pub verify : Provider → Text → Text → Text → Bool
  verify p secret token remote_ip =
      if is_empty secret || is_empty token
      then false
      else or_else (do_verify p secret token remote_ip) false
