-- ===== src/Proxy/Endpoints.antt =====
-- The handlers of crates/waf-proxy/src/proxy.rs that answer requests themselves: the three endpoints that take
-- the result of a challenge, and the answers to a decision. A page is named by its kind; the JSON reader is a
-- parameter, and so is the check of a captcha.
pub mod Solved
use t1_waf.Prelude.{
  Text, text, decimal, text_beq, nat_eq, text_eq, Eq, is_some, or_else, ltb, leb, ◌==◌,
  if◌then◌else◌, ltb→lt, lt→ltb, leb→le, le→leb, lt→leb_false, le→ltb_false, ==_iff, Bool-cases,
  Option-cases, length, get_elem?, set, length-append, length-set, get_elem?-set_self,
  get_elem?-set_ne, get_or, take, drop, replicate, take-append-drop, length-take, length-drop,
  length-replicate, length-map, u32_max, u64_mod, sat_add, add64, add32, ℕ, zero, suc, ◌+◌, ◌-◌,
  ◌*◌, ◌/◌, ◌%◌, ◌^◌, ◌≤◌, ◌<◌, min, max, ◌≡◌, refl, sym, ap, ◌∙◌, subst, ◌≢◌, ◌↔◌, ◌⊎◌, inl, inr,
  Bool, true, false, ◌&&◌, ◌||◌, not, Option, none, some, List, [], ◌∷◌, ◌++◌, map, arith, dec_lt,
  dec_le, ℕ_discrete,
}
use t1_waf.Request.{IpAddr}
use t1_waf.Action.{Action}
use t1_waf.Decision.{Decision}
use t1_waf.Challenge
use t1_waf.Challenge.{Challenger, mint_clearance}
use t1_waf.Bic
use t1_waf.Bic.{bic_cookie_name, verify_proof, mint}
use t1_waf.Turnstile
use t1_waf.Turnstile.{Provider}
use t1_waf.BotScore.{is_empty}
use t1_waf.Events.{first_reason}
use t1_waf.Engine.{Env}
use t1_waf.Engine.Pipeline.{Core}
use t1_waf.Proxy.{Page, bic_page, captcha_page, pow_page, serve_challenge}

-- the bodies that the endpoints take: `Submit` of `handle_verify` and of `handle_bic_verify`
pub record PowSubmit : Type 0 where
  pub c : Text
  pub n : Text
  pub s : Text
  pub e : ℕ

pub record BicSubmit : Type 0 where
  pub c : Text
  pub e : ℕ
  pub s : Text
  pub p : Text

-- `serde_json::from_slice` at the three kinds of body, and `turnstile::verify` with its network
pub record Readers : Type 0 where
  pub pow_submit : Text → Option PowSubmit
  pub bic_submit : Text → Option BicSubmit
  pub captcha_token : Text → Option Text
  pub captcha_ok : Provider → Text → Text → Text → Bool

-- what `write_response` sends; `extra` are the headers of the caller
pub data Content : Type 0 where
  nothing : Content
  plain error_json : Text → Content
  page : Page → Content
  -- the id of the request and the first rule of a block
  blocked : Text → Option Text → Content

pub record Reply : Type 0 where
  pub status : ℕ
  pub ctype : Text
  pub content : Content
  pub extra : List (Text × Text)

-- the loop that reads a body, until it holds `limit` bytes or the session gives no more
unfoldable pub read_upto : ℕ → Text → List Text → Text
read_upto limit buf [] = buf
read_upto limit buf (chunk ∷ chunks) =
    let rest = read_upto limit (buf ++ chunk) chunks in if ltb (length buf) limit then rest else buf

-- the cookie that a handler sets
unfoldable pub cookie_header : Text → Text → ℕ → Text
cookie_header name value ttl =
    name
    ++ (text "="
        ++ (value
            ++ (text "; Path=/; Max-Age=" ++ (decimal ttl ++ text "; HttpOnly; SameSite=Lax"))))

unfoldable pub with_cookie : Text → Text → ℕ → Reply
with_cookie name value ttl = record {
  status = 204;
  ctype = text "text/plain";
  content = nothing;
  extra = (text "set-cookie", cookie_header name value ttl) ∷ [];
}

unfoldable pub refuse : ℕ → Text → Reply
refuse status message = record {
  status = status;
  ctype = text "application/json";
  content = error_json message;
  extra = [];
}

-- `is_ok` of a verdict
abbrev pub is_ok {ℓ} : {A : Type ℓ} → Option A → Bool
is_ok none = true
is_ok (some _) = false

module _ (env : Env) (readers : Readers) where
  open env use {crypto, ip_text}

  -- `handle_verify`
  unfoldable pub handle_verify : Core env → List Text → ℕ → Reply
  handle_verify e chunks now =
      let c = e.challenger in
      let ok : Bool = elim (readers.pow_submit (read_upto 4096 [] chunks)) [
        | none ↦ false
        | some s ↦ is_ok (Challenge.verify crypto c s.c s.n s.s s.e now)
      ] in
      if ok
      then with_cookie c.cookie_name (mint_clearance crypto c now) c.cookie_ttl
      else refuse 400 (text "verification failed")

  -- `handle_bic_verify`, with the resolved address of the client
  unfoldable pub handle_bic_verify : Core env → List Text → IpAddr → ℕ → Reply
  handle_bic_verify e chunks client_ip now =
      let ok : Bool = elim (readers.bic_submit (read_upto 1024 [] chunks)) [
        | none ↦ false
        | some s ↦ is_ok (verify_proof crypto e.bic_secret s.c s.e s.s s.p now)
      ] in
      if ok
      then with_cookie bic_cookie_name (mint crypto e.bic_secret client_ip now) Bic.cookie_ttl_secs
      else refuse 400 (text "bic verification failed")

  -- `handle_turnstile_verify`
  unfoldable pub handle_turnstile_verify : Core env → List Text → IpAddr → ℕ → Reply
  handle_turnstile_verify e chunks client_ip now =
      let token = or_else (readers.captcha_token (read_upto 8192 [] chunks)) [] in
      let secret = e.runtime.turnstile_secret in
      let provider = Turnstile.from_str e.runtime.turnstile_provider in
      if is_empty secret
      then refuse 503 (text "captcha not configured")
      else if readers.captcha_ok provider secret token (ip_text client_ip)
      then with_cookie e.challenger.cookie_name (mint_clearance crypto e.challenger now)
          e.challenger.cookie_ttl
      else refuse 403 (text "captcha verification failed")

  -- `serve_block`
  unfoldable pub serve_block : Decision → Reply
  serve_block d = record {
    status = d.status;
    ctype = text "application/json";
    content =
        blocked d.request_id
          (elim (first_reason d.reasons) [ none ↦ none | some r ↦ some r.rule_id ]);
    extra = (if d.status == 429 then (text "retry-after", text "10") ∷ [] else []);
  }

  abbrev page_reply : ℕ → Page → Text → Reply
  page_reply status kind action = record {
    status = status;
    ctype = text "text/html; charset=utf-8";
    content = page kind;
    extra = (text "cache-control", text "no-store, private") ∷ (text "x-waf-action", action) ∷ [];
  }

  -- the answer of `serve_challenge`
  unfoldable pub challenge_reply : Core env → List (Text × Text) → IpAddr → ℕ → Reply
  challenge_reply e cookies socket_ip now = elim (serve_challenge env e cookies socket_ip now) [
    | bic_page ↦ page_reply 200 bic_page (text "bic")
    | captcha_page ↦ page_reply 403 captcha_page (text "captcha")
    | pow_page ↦ page_reply 403 pow_page (text "challenge")
  ]

-- the payload of `serve_tarpit`, and what it has sent when the client stays for `n` pauses of four seconds
unfoldable pub tarpit_payload : Text
tarpit_payload = text "please-wait-please-wait-please" ++ (10 ∷ [])

unfoldable pub drip : ℕ → Text
drip n = take n tarpit_payload
