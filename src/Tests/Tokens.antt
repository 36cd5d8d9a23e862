-- ===== src/Tests/Tokens.antt =====
-- The theorems on cookies, tokens and texts at sample values.
use t1_waf.Prelude.Texts.{decimal, decimal_from}
use t1_waf.Admin.{strip_prefix}
use t1_waf.Strings.{starts_with}
use t1_waf.Challenge.Clearance.{verify_clearance_sound}
use t1_waf.Challenge.{clearance_sig}
use t1_waf.Prelude.{
  Text, text, text_beq, nat_eq, text_eq, or_else, ltb, length, ℕ, ◌+◌, ◌≤◌, ◌<◌, ◌≡◌, refl, ◌↔◌,
  ◌⊎◌, true, some, List, [], ◌∷◌, ◌++◌, arith,
}
use t1_waf.Strings.{parse_u64, split}
use t1_waf.Strings.Compare.{Bytes}
use t1_waf.Strings.Numbers.{parse_u64-decimal}
use t1_waf.Request.{IpAddr, v4}
use t1_waf.Challenge
use t1_waf.Challenge.{verify_clearance, mint_clearance, clearance_sig, verify_pow, expired, bad_pow}
use t1_waf.Challenge.Clearance.{verify_clearance_sound, verify_clearance-mint, verify-issue}
use t1_waf.Bic.{verify_cookie, mint, bic_cookie_name}
use t1_waf.Bic.Cookie.{verify_cookie-mint}
use t1_waf.Subnet.Keys.{SameSubnet}
use t1_waf.Proxy.{serve_challenge, bic_page, resolve_client_ip}
use t1_waf.Proxy.Pages.{serve_challenge-mint}
use t1_waf.Proxy.Client.{resolve_client_ip-forged}
use t1_waf.Admin.{ParsedReq, auth_ok}
use t1_waf.Admin.Auth.{auth_ok_sound}
use t1_waf.Prelude.Assoc.{lookup}
use t1_waf.Tests.Samples.{
  checksums, checksum_laws, sample_challenger, sample_env, sample_engine, home,
}

verify_clearance-mint_example :
    verify_clearance checksums sample_challenger
      (mint_clearance checksums sample_challenger 100)
      1899
    ≡ ltb 1899 (100 + 1800)
verify_clearance-mint_example =
    verify_clearance-mint checksums checksum_laws sample_challenger 100 1899 (omega arith)

abbrev cookie_text : Text
cookie_text = mint_clearance checksums sample_challenger 100

cookie_text-Bytes : Bytes cookie_text
unfolding mint_clearance clearance_sig decimal decimal_from
cookie_text-Bytes = ground arith

cookie_text-fresh : verify_clearance checksums sample_challenger cookie_text 1899 ≡ true
cookie_text-fresh =
    verify_clearance-mint checksums checksum_laws sample_challenger 100 1899 (omega arith)

verify_clearance_sound_example :
    (exp : ℕ) × (exp_s : Text) × (1899 < exp)
    × (parse_u64 exp_s ≡ some exp)
    × (cookie_text ≡ exp_s ++ (b'.' ∷ clearance_sig checksums sample_challenger.secret exp))
verify_clearance_sound_example =
    verify_clearance_sound checksums checksum_laws sample_challenger cookie_text 1899
      cookie_text-Bytes cookie_text-fresh

verify-issue_example :
    Challenge.verify checksums sample_challenger
      (5 ∷ [])
      (6 ∷ [])
      (Challenge.issue checksums sample_challenger (5 ∷ []) 100).signature
      (Challenge.issue checksums sample_challenger (5 ∷ []) 100).expires_at
      221
    ≡ some expired
unfolding Challenge.issue
verify-issue_example =
    verify-issue checksums checksum_laws sample_challenger (5 ∷ []) (6 ∷ []) 100 221 (omega arith)

neighbour : IpAddr
neighbour = v4 10 1 2 200

verify_cookie-mint_example :
    (verify_cookie checksums
        (7 ∷ [])
        (mint checksums (7 ∷ []) (v4 10 1 2 3) 100)
        (v4 10 1 2 200)
        1000
      ≡ true)
    ↔ ((1000 < 100 + 1800) × SameSubnet (v4 10 1 2 3) (v4 10 1 2 200))
verify_cookie-mint_example =
    verify_cookie-mint checksums checksum_laws (7 ∷ []) (v4 10 1 2 3) (v4 10 1 2 200) 100 1000
      (omega arith, omega arith, omega arith, omega arith)
      (omega arith, omega arith, omega arith, omega arith) (omega arith)

abbrev shown : List (Text × Text)
shown = (bic_cookie_name, mint checksums (1 ∷ 2 ∷ 3 ∷ []) (v4 10 1 2 3) 100) ∷ []

shows_cookie :
    lookup bic_cookie_name shown ≡ some (mint checksums (1 ∷ 2 ∷ 3 ∷ []) (v4 10 1 2 3) 100)
unfolding lookup text_beq bic_cookie_name text
shows_cookie = refl

-- the client's address, and a proxy's
serve_challenge-mint_example :
    (serve_challenge sample_env sample_engine shown (v4 192 0 2 1) 200 ≡ bic_page)
    ↔ ¬ ((200 < 100 + 1800) × SameSubnet (v4 10 1 2 3) (v4 192 0 2 1))
serve_challenge-mint_example =
    serve_challenge-mint sample_env checksum_laws sample_engine shown (v4 10 1 2 3) (v4 192 0 2 1)
      100 200 refl shows_cookie (omega arith, omega arith, omega arith, omega arith)
      (omega arith, omega arith, omega arith, omega arith) (omega arith)

abbrev one_two : Text
one_two = 1 ∷ 2 ∷ []

abbrev one_three : Text
one_three = 1 ∷ 3 ∷ []

parse_u64-decimal_example : parse_u64 (decimal 1805) ≡ some 1805
parse_u64-decimal_example = parse_u64-decimal 1805 (omega arith)

one_part : 1 ≤ length (split b',' (9 ∷ []))
unfolding split
one_part = omega arith

resolve_client_ip-forged_example :
    resolve_client_ip (λ s. some (v4 1 1 1 1)) home 1 (some (8 ∷ b',' ∷ 9 ∷ []))
    ≡ resolve_client_ip (λ s. some (v4 1 1 1 1)) home 1 (some (9 ∷ []))
resolve_client_ip-forged_example =
    resolve_client_ip-forged (λ s. some (v4 1 1 1 1)) home 1 (8 ∷ []) (9 ∷ []) one_part

abbrev call : ParsedReq
call = record {
  method = text "GET";
  path = text "/api/state";
  body = [];
  query = (text "token", b't' ∷ []) ∷ [];
  headers = [];
}

call_ok : auth_ok call (b't' ∷ []) ≡ true
unfolding auth_ok strip_prefix starts_with text lookup text_beq
call_ok = refl

auth_ok_sound_example :
    (or_else (lookup (text "authorization") call.headers) [] ≡ text "Bearer " ++ (b't' ∷ []))
    ⊎ ((or_else (lookup (text "authorization") call.headers) [] ≡ text "bearer " ++ (b't' ∷ []))
        ⊎ (lookup (text "token") call.query ≡ some (b't' ∷ [])))
auth_ok_sound_example = auth_ok_sound call (b't' ∷ []) refl call_ok
