-- ===== src/Tests/Codecs.antt =====
-- The theorems on the captcha's form, the fingerprint, the metrics and the proof of work.
use t1_waf.Prelude.Assoc.{lookup}
use t1_waf.Challenge.{leading_zeros}
use t1_waf.Prelude.{
  Text, text, text_beq, nat_eq, text_eq, ◌+◌, ◌≡◌, refl, ◌⊎◌, true, false, none, some, [], ◌∷◌,
  arith,
}
use mathlib.Core.List.{Permᴰ}
use t1_waf.Turnstile.{form_body}
use t1_waf.Turnstile.Form.{read_form, read_form-form_body}
use t1_waf.Fingerprint.{compute}
use t1_waf.Fingerprint.Order.{compute-perm}
use t1_waf.Action.{Action}
use t1_waf.Metrics.Bounds.{Call, IsBounded, records, records-IsBounded}
use t1_waf.Request.{RequestCtx, cookie}
use t1_waf.Challenge.{verify_pow, mint_clearance}
use t1_waf.Engine.Pipeline.{evaluate}
use t1_waf.Proxy.Endpoints.{Readers, handle_verify}
use t1_waf.Proxy.Endpoints.Solved.{solution, cleared_reply, evaluate-handle_verify}
use t1_waf.Tests.Samples.{
  checksums, checksum_laws, plain, sample_challenger, sample_env, sample_engine, no_metrics,
}

read_form-form_body_example :
    read_form (form_body (1 ∷ 2 ∷ []) (38 ∷ 61 ∷ []) (49 ∷ []))
    ≡ (text "secret", 1 ∷ 2 ∷ [])
      ∷ (text "response", 38 ∷ 61 ∷ [])
      ∷ (text "remoteip", 49 ∷ [])
      ∷ []
read_form-form_body_example =
    read_form-form_body (1 ∷ 2 ∷ []) (38 ∷ 61 ∷ []) (49 ∷ []) (omega arith, (omega arith, tt))
      (omega arith, (omega arith, tt)) (omega arith, tt)

abbrev tea : Text
tea = b't' ∷ []

abbrev sid : Text
sid = b's' ∷ []

compute-perm_example :
    compute checksums
      (text "GET")
      (text "HTTP/1.1")
      []
      []
      (tea ∷ sid ∷ [])
      ((tea, []) ∷ (sid, tea) ∷ [])
    ≡ compute checksums
        (text "GET")
        (text "HTTP/1.1")
        []
        []
        (sid ∷ tea ∷ [])
        ((sid, tea) ∷ (tea, []) ∷ [])
compute-perm_example =
    compute-perm checksums (text "GET") (text "HTTP/1.1") [] [] (tea ∷ sid ∷ []) (sid ∷ tea ∷ [])
      ((tea, []) ∷ (sid, tea) ∷ []) ((sid, tea) ∷ (tea, []) ∷ []) (Permᴰ.swap refl refl)
      (Permᴰ.swap refl refl)

abbrev one_call : Call
one_call = record {
  action = Action.block;
  ip = tea;
  path = sid;
  country = none;
  rule = some tea;
  now = 1000;
}

no_metrics-IsBounded : IsBounded 0 no_metrics
no_metrics-IsBounded = record {
  ips = (tt, omega arith);
  paths = (tt, omega arith);
  countries = (tt, omega arith);
  rules = (tt, omega arith);
}

records-IsBounded_example : IsBounded (0 + 1) (records no_metrics (one_call ∷ []))
records-IsBounded_example =
    records-IsBounded 0 no_metrics (one_call ∷ []) (omega arith) no_metrics-IsBounded

abbrev no_readers : Readers
no_readers = record {
  pow_submit = λ _. none;
  bic_submit = λ _. none;
  captcha_token = λ _. none;
  captcha_ok = λ p secret token ip. false;
}

-- every body is the solution of the challenge that was given at second 1000
abbrev sample_readers : Readers
sample_readers = record no_readers {
  pow_submit = λ _. some (solution sample_env no_readers sample_engine [] (16 ∷ []) 1000);
}

abbrev cleared_ctx : RequestCtx
cleared_ctx = record plain {
  cookies = (sample_challenger.cookie_name, mint_clearance checksums sample_challenger 1010) ∷ [];
}

solved : verify_pow checksums [] (16 ∷ []) 4 ≡ true
unfolding verify_pow leading_zeros
solved = refl

shown :
    cookie cleared_ctx sample_challenger.cookie_name
    ≡ some (mint_clearance checksums sample_challenger 1010)
unfolding cookie lookup text_beq
shown = refl

evaluate-handle_verify_example :
    (handle_verify sample_env sample_readers sample_engine ([] ∷ []) 1010
      ≡ cleared_reply sample_env sample_readers sample_engine 1010)
    × (((evaluate sample_env sample_engine cleared_ctx 1_020_000).1.action ≡ Action.allow)
        ⊎ ((evaluate sample_env sample_engine cleared_ctx 1_020_000).1.action ≡ Action.block))
evaluate-handle_verify_example =
    evaluate-handle_verify sample_env sample_readers checksum_laws sample_engine ([] ∷ []) []
      (16 ∷ []) 1000 1010 sample_engine cleared_ctx 1_020_000 refl solved (omega arith)
      (omega arith) (omega arith) refl shown (omega arith)
