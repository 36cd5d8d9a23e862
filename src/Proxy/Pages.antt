-- ===== src/Proxy/Pages.antt =====
-- Which page a client that has passed the integrity check is sent.
use t1_waf.Prelude.{
  Text, nat_eq, text_eq, if◌then◌else◌, Bool-cases, u64_mod, ℕ, ◌+◌, ◌<◌, ◌≡◌, refl, ◌↔◌, inl, inr,
  Bool, true, false, some, List, arith,
}
use t1_waf.Prelude.Assoc.{lookup}
use t1_waf.Request.{IpAddr}
use t1_waf.Crypto.{CryptoLaws}
use t1_waf.Bic.{bic_cookie_name, mint, verify_cookie, cookie_ttl_secs}
use t1_waf.Bic.Cookie.{verify_cookie-mint}
use t1_waf.Subnet.Keys.{InRange, SameSubnet}
use t1_waf.Engine.{Env}
use t1_waf.Engine.Pipeline.{Core}
use t1_waf.Proxy.{serve_challenge, bic_page, captcha_page, pow_page}

not_bic : {P : Type 0} (b : Bool) → (if b then captcha_page else pow_page) ≡ bic_page → P
not_bic true h = absurd (ground arith)
not_bic false h = absurd (ground arith)

module _ (env : Env) where
  open env use {crypto}

  -- With the integrity check on, a client that shows the cookie it was given is sent on to the next page
  -- exactly if the cookie has not run out and the address of the socket lies in one /24, or one /64, with
  -- the address that the cookie was given to. Behind a trusted proxy these are the addresses of the proxy
  -- and of the client, and the check comes again.
  pub serve_challenge-mint :
      (laws : CryptoLaws crypto) (e : Core env) (cookies : List (Text × Text))
      (client_ip socket_ip : IpAddr) (now later : ℕ)
      → e.runtime.defenses.bic ≡ true
      → lookup bic_cookie_name cookies ≡ some (mint crypto e.bic_secret client_ip now)
      → InRange client_ip
      → InRange socket_ip
      → now + cookie_ttl_secs < u64_mod
      → (serve_challenge env e cookies socket_ip later ≡ bic_page)
        ↔ ¬ ((later < now + cookie_ttl_secs) × SameSubnet client_ip socket_ip)
  unfolding serve_challenge
  serve_challenge-mint laws e cookies client_ip socket_ip now later on held p q fits =
      let passed =
        verify_cookie-mint crypto laws e.bic_secret client_ip socket_ip now later p q fits in
      elim (Bool-cases (
        verify_cookie crypto e.bic_secret (mint crypto e.bic_secret client_ip now) socket_ip
          later)) [
            | inl good ↦ (
              (λ same. not_bic _ (rw (held, good, on) at same)),
              (λ far. absurd (far (passed.0 good))),
            )
            | inr bad ↦ (
              (λ same ok. absurd (ground (arith, passed.1 ok))),
              (λ far. rw (held, bad, on) refl),
            )
          ]
