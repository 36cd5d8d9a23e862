-- ===== src/Proxy/Endpoints/Solved.antt =====
-- A client that solves its challenge gets through.
use t1_waf.Challenge.{verify_clearance}
use t1_waf.Challenge.{Challenger}
use t1_waf.Prelude.{
  Text, nat_eq, text_eq, ltb, lt→ltb, u64_mod, ℕ, ◌+◌, ◌/◌, ◌≤◌, ◌<◌, ◌≡◌, refl, sym, ap, ◌∙◌,
  subst, ◌⊎◌, Bool, true, false, Option, none, some, List, [], arith,
}
use t1_waf.Action
use t1_waf.Crypto.{CryptoLaws}
use t1_waf.Request.{RequestCtx, cookie}
use t1_waf.Challenge.{issue, mint_clearance, verify_pow}
use t1_waf.Challenge.Clearance.{verify-issue, verify_clearance-mint}
use t1_waf.Engine.{Env}
use t1_waf.Engine.Cleared.{evaluate-cleared}
use t1_waf.Engine.Pipeline.{Core, evaluate, is_cleared}
use t1_waf.Proxy.Endpoints.{Readers, PowSubmit, Reply, handle_verify, read_upto, with_cookie}

module _ (env : Env) (readers : Readers) where
  open env use {crypto}

  -- the body of a client that has found a nonce for the challenge that it was given
  abbrev pub solution : Core env → Text → Text → ℕ → PowSubmit
  solution e challenge nonce now =
      let t = issue crypto e.challenger challenge now in
      record { c = t.challenge; n = nonce; s = t.signature; e = t.expires_at }

  -- `is_cleared`, from the challenger alone
  abbrev cleared_with : Challenger → RequestCtx → ℕ → Bool
  cleared_with c ctx t = elim (cookie ctx c.cookie_name) [
    | none ↦ false
    | some v ↦ verify_clearance crypto c v (t / 1000)
  ]

  is_cleared-mint :
      (laws : CryptoLaws crypto) (c : Challenger) (ctx : RequestCtx) (minted t : ℕ)
      → cookie ctx c.cookie_name ≡ some (mint_clearance crypto c minted)
      → minted + c.cookie_ttl < u64_mod
      → t / 1000 < minted + c.cookie_ttl
      → cleared_with c ctx t ≡ true
  is_cleared-mint laws c ctx minted t shown fits fresh =
      let valid = verify_clearance-mint crypto laws c minted (t / 1000) fits in
      ap
        (λ (o : Option Text). elim o [
          | none ↦ false
          | some v ↦ verify_clearance crypto c v (t / 1000)
        ])
        shown
      ∙ (valid ∙ lt→ltb (t / 1000) (minted + c.cookie_ttl) fresh)

  -- the answer with the clearance cookie of that time
  abbrev pub cleared_reply : Core env → ℕ → Reply
  cleared_reply e later =
      with_cookie e.challenger.cookie_name (mint_clearance crypto e.challenger later)
        e.challenger.cookie_ttl

  handle_verify-issue :
      (laws : CryptoLaws crypto) (e : Core env) (chunks : List Text) (challenge nonce : Text)
      (now later : ℕ)
      → readers.pow_submit (read_upto 4096 [] chunks) ≡ some (solution e challenge nonce now)
      → verify_pow crypto challenge nonce e.challenger.pow_difficulty ≡ true
      → now + 120 < u64_mod
      → later ≤ now + 120
      → handle_verify env readers e chunks later ≡ cleared_reply e later
  unfolding handle_verify
  handle_verify-issue laws e chunks challenge nonce now later sent solved fits soon =
      let checked = verify-issue crypto laws e.challenger challenge nonce now later fits in
      let in_time : ltb (now + 120) later ≡ false = ground arith in
      rw (sent, checked, in_time, solved) refl

  -- A client that sends back the challenge it was given, within the 120 seconds and with a nonce that meets
  -- the difficulty, is given the clearance cookie. From then on, until the cookie runs out, every request
  -- that shows it is let through or blocked, by whatever the engine has become with the same secret: it is
  -- never challenged or held in the tarpit. The body is assumed to be read as it was written.
  pub evaluate-handle_verify :
      (laws : CryptoLaws crypto) (e : Core env) (chunks : List Text) (challenge nonce : Text)
      (now later : ℕ) (e' : Core env) (ctx : RequestCtx) (t : ℕ)
      → readers.pow_submit (read_upto 4096 [] chunks) ≡ some (solution e challenge nonce now)
      → verify_pow crypto challenge nonce e.challenger.pow_difficulty ≡ true
      → now + 120 < u64_mod
      → later ≤ now + 120
      → later + e.challenger.cookie_ttl < u64_mod
      → e'.challenger ≡ e.challenger
      → cookie ctx e.challenger.cookie_name ≡ some (mint_clearance crypto e.challenger later)
      → t / 1000 < later + e.challenger.cookie_ttl
      → (handle_verify env readers e chunks later ≡ cleared_reply e later)
        × (((evaluate env e' ctx t).1.action ≡ Action.allow)
            ⊎ ((evaluate env e' ctx t).1.action ≡ Action.block))
  unfolding is_cleared
  evaluate-handle_verify laws e chunks challenge nonce now later e' ctx t sent solved fits soon room
        same shown fresh =
      (
        handle_verify-issue laws e chunks challenge nonce now later sent solved fits soon,
        evaluate-cleared env e' ctx t (
            subst (λ c. cleared_with c ctx t ≡ true) (sym same)
              (is_cleared-mint laws e.challenger ctx later t shown room fresh)),
      )
