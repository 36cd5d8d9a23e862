-- ===== src/Bic.antt =====
-- crates/waf-core/src/bic.rs: the silent browser check, whose cookie is bound to the subnet of the
-- address. The page that is rendered is not modelled; the random challenge is an argument of `issue`.
pub mod Cookie
use t1_waf.Prelude.{
  Text, text, decimal, text_beq, nat_eq, text_eq, Eq, is_some, or_else, ltb, leb, ◌==◌,
  if◌then◌else◌, ltb→lt, lt→ltb, leb→le, le→leb, lt→leb_false, le→ltb_false, ==_iff, Bool-cases,
  Option-cases, length, get_elem?, set, length-append, length-set, get_elem?-set_self,
  get_elem?-set_ne, get_or, take, drop, replicate, take-append-drop, length-take, length-drop,
  length-replicate, length-map, u32_max, u64_mod, sat_add, add64, add32, ℕ, zero, suc, ◌+◌, ◌-◌,
  ◌*◌, ◌/◌, ◌%◌, ◌^◌, ◌≤◌, ◌<◌, min, max, ◌≡◌, refl, sym, ap, ◌∙◌, subst, ◌≢◌, ◌↔◌, ◌⊎◌, inl, inr,
  Bool, true, false, ◌&&◌, ◌||◌, not, Option, none, some, List, [], ◌∷◌, ◌++◌, map, arith, dec_lt,
  dec_le, ℕ_discrete,
}
use t1_waf.Strings.{split_once, parse_u64, ct_eq}
use t1_waf.Request.{IpAddr, v4, v6}
use t1_waf.Crypto.{Crypto}
use t1_waf.Challenge.{sign}

abbrev pub cookie_ttl_secs : ℕ
cookie_ttl_secs = 1800

abbrev pub token_ttl_secs : ℕ
token_ttl_secs = 60

-- `BIC_COOKIE_NAME`
unfoldable pub bic_cookie_name : Text
bic_cookie_name = text "__2t1_bic"

pub record Token : Type 0 where
  pub challenge : Text
  pub expires_at : ℕ
  pub signature : Text

pub data BicError : Type 0 where
  bad_format expired bad_sig bad_proof : BicError

-- one digit of `{:02x}`
abbrev pub hex_digit : ℕ → ℕ
hex_digit n = if ltb n 10 then 48 + n else 87 + n

-- `{:02x}` of a byte in front of a text, and `{:04x}` of a 16-bit segment
abbrev pub hex2 : ℕ → Text → Text
hex2 b s = hex_digit (b / 16) ∷ hex_digit (b % 16) ∷ s

abbrev pub hex4 : ℕ → Text → Text
hex4 n s = hex2 (n / 256) (hex2 (n % 256) s)

-- `subnet_marker`
unfoldable pub subnet_marker : IpAddr → Text
subnet_marker (v4 a b c d) = b'4' ∷ hex2 a (hex2 b (hex2 c []))
subnet_marker (v6 a b c d e f g h) = b'6' ∷ hex4 a (hex4 b (hex4 c (hex4 d [])))

module _ (crypto : Crypto) where
  -- `Bic::issue`
  unfoldable pub issue : Text → Text → ℕ → Token
  issue secret challenge now =
      let expires_at = add64 now token_ttl_secs in
      record {
        challenge = challenge;
        expires_at = expires_at;
        signature = sign crypto secret challenge expires_at;
      }

  -- the proof that the page's script computes
  unfoldable pub proof_of : Text → Text
  proof_of challenge = crypto.hex_encode (take 8 (crypto.sha256 (challenge ++ text "2t1bic")))

  -- `Bic::verify_proof`; `none` is `Ok(())`
  unfoldable pub verify_proof : Text → Text → ℕ → Text → Text → ℕ → Option BicError
  verify_proof secret challenge exp sig proof now =
      if ltb exp now
      then some expired
      else if not (ct_eq (sign crypto secret challenge exp) sig)
      then some bad_sig
      else if not (ct_eq (proof_of challenge) proof)
      then some bad_proof
      else none

  -- the signature of a cookie: `HMAC(secret, "bic|{exp}|{subnet}")`
  unfoldable pub cookie_sig : Text → ℕ → Text → Text
  cookie_sig secret exp subnet =
      crypto.mac secret (text "bic|" ++ decimal exp ++ text "|" ++ subnet)

  -- `Bic::mint`, the value of the cookie
  unfoldable pub mint : Text → IpAddr → ℕ → Text
  mint secret ip now =
      let exp = add64 now cookie_ttl_secs in
      let subnet = subnet_marker ip in
      decimal exp ++ (b'.' ∷ (subnet ++ (b'.' ∷ cookie_sig secret exp subnet)))

  -- the checks of `verify_cookie` on the three parts of a cookie
  unfoldable pub verify_parts : Text → Text → Text → Text → IpAddr → ℕ → Bool
  verify_parts secret exp_s subnet sig ip now = elim (parse_u64 exp_s) [
    | none ↦ false
    | some exp ↦
        if leb exp now
        then false
        else if not (text_beq subnet (subnet_marker ip))
        then false
        else ct_eq (cookie_sig secret exp subnet) sig
  ]

  -- `Bic::verify_cookie`: `splitn(3, '.')` is two splits at the first dot.
  unfoldable pub verify_cookie : Text → Text → IpAddr → ℕ → Bool
  verify_cookie secret value ip now = elim (split_once b'.' value) [
    | none ↦ false
    | some (exp_s, rest) ↦ elim (split_once b'.' rest) [
      | none ↦ false
      | some (subnet, sig) ↦ verify_parts secret exp_s subnet sig ip now
    ]
  ]
