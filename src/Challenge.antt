-- ===== src/Challenge.antt =====
-- crates/waf-core/src/challenge.rs: the proof-of-work challenge and the clearance cookie. The random
-- challenge text is an argument of `issue`; the page that is rendered is not modelled.
pub mod Pow
pub mod Clearance
use t1_waf.Prelude.{
  Text, text, decimal, text_beq, nat_eq, text_eq, Eq, is_some, or_else, ltb, leb, ◌==◌,
  if◌then◌else◌, ltb→lt, lt→ltb, leb→le, le→leb, lt→leb_false, le→ltb_false, ==_iff, Bool-cases,
  Option-cases, length, get_elem?, set, length-append, length-set, get_elem?-set_self,
  get_elem?-set_ne, get_or, take, drop, replicate, take-append-drop, length-take, length-drop,
  length-replicate, length-map, u32_max, u64_mod, sat_add, add64, add32, ℕ, zero, suc, ◌+◌, ◌-◌,
  ◌*◌, ◌/◌, ◌%◌, ◌^◌, ◌≤◌, ◌<◌, min, max, ◌≡◌, refl, sym, ap, ◌∙◌, subst, ◌≢◌, ◌↔◌, ◌⊎◌, inl, inr,
  Bool, true, false, ◌&&◌, ◌||◌, not, Option, none, some, List, [], ◌∷◌, ◌++◌, map, arith, dec_lt,
  dec_le, ℕ_discrete,
}
use t1_waf.Strings.{split_once, parse_u64, ct_eq}
use t1_waf.Crypto.{Crypto}

pub record Challenger : Type 0 where
  pub secret : Text
  pub cookie_name : Text
  pub cookie_ttl : ℕ
  pub pow_difficulty : ℕ

pub record Token : Type 0 where
  pub challenge : Text
  pub expires_at : ℕ
  pub signature : Text
  pub difficulty : ℕ

pub data ChallengeError : Type 0 where
  bad_format expired bad_sig bad_pow : ChallengeError

-- `Challenger::new`: the difficulty is clamped to 1..8.
unfoldable pub new : Text → Text → ℕ → ℕ → Challenger
new secret cookie_name cookie_ttl pow_difficulty = record {
  secret = secret;
  cookie_name = cookie_name;
  cookie_ttl = cookie_ttl;
  pow_difficulty = min (max pow_difficulty 1) 8;
}

-- `for i in 0..n { if digest[i] != 0 { return false } }`
unfoldable pub zero_prefix : ℕ → List ℕ → Bool
zero_prefix zero digest = true
zero_prefix (suc n) [] = true
zero_prefix (suc n) (b ∷ digest) = (b == 0) && zero_prefix n digest

-- the test of `verify_pow` on the digest
unfoldable pub leading_zeros : List ℕ → ℕ → Bool
unfolding zero_prefix
leading_zeros digest need =
    zero_prefix (need / 2) digest
    && (if need % 2 == 1 then get_or digest (need / 2) 0 / 16 == 0 else true)

module _ (crypto : Crypto) where
  -- `verify_pow`
  unfoldable pub verify_pow : Text → Text → ℕ → Bool
  verify_pow challenge nonce difficulty =
      leading_zeros (crypto.sha256 (challenge ++ nonce)) difficulty

  -- `sign`, of challenge.rs and of bic.rs
  unfoldable pub sign : Text → Text → ℕ → Text
  sign secret challenge exp = crypto.mac secret (challenge ++ text "|" ++ decimal exp)

  -- `issue`
  unfoldable pub issue : Challenger → Text → ℕ → Token
  issue c challenge now =
      let expires_at = add64 now 120 in
      record {
        challenge = challenge;
        expires_at = expires_at;
        signature = sign c.secret challenge expires_at;
        difficulty = c.pow_difficulty;
      }

  -- `verify`; `none` is `Ok(())`
  unfoldable pub verify : Challenger → Text → Text → Text → ℕ → ℕ → Option ChallengeError
  verify c challenge nonce signature expires_at now =
      if ltb expires_at now
      then some expired
      else if not (ct_eq (sign c.secret challenge expires_at) signature)
      then some bad_sig
      else if not (verify_pow challenge nonce c.pow_difficulty)
      then some bad_pow
      else none

  -- the signature of a clearance cookie: `HMAC(secret, "clr|{exp}")`
  unfoldable pub clearance_sig : Text → ℕ → Text
  clearance_sig secret exp = crypto.mac secret (text "clr|" ++ decimal exp)

  -- `mint_clearance`
  unfoldable pub mint_clearance : Challenger → ℕ → Text
  mint_clearance c now =
      let exp = add64 now c.cookie_ttl in decimal exp ++ (b'.' ∷ clearance_sig c.secret exp)

  -- `verify_clearance`
  unfoldable pub verify_clearance : Challenger → Text → ℕ → Bool
  verify_clearance c value now = elim (split_once b'.' value) [
    | none ↦ false
    | some (exp_s, sig) ↦ elim (parse_u64 exp_s) [
      | none ↦ false
      | some exp ↦ if leb exp now then false else ct_eq (clearance_sig c.secret exp) sig
    ]
  ]
