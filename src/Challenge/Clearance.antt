-- ===== src/Challenge/Clearance.antt =====
-- Tokens and clearance cookies: what the server issues it accepts until it runs out, and what it
-- accepts carries its own code.
use t1_waf.Prelude.{
  Text, decimal, nat_eq, text_eq, ltb, leb, ◌==◌, if◌then◌else◌, Option-cases, u64_mod, add64, ℕ,
  ◌+◌, ◌<◌, ◌≡◌, refl, sym, ap, ◌∙◌, subst, inl, inr, true, false, not, none, some, [], ◌∷◌, ◌++◌,
  arith,
}
use t1_waf.Strings.{split_once, parse_u64, ct_eq, is_digit, all_bytes}
use t1_waf.Strings.Numbers.{
  parse_u64-decimal, split_once-append, split_once_sound, all_bytes_mono, all_digits-decimal,
}
use t1_waf.Strings.Compare.{Bytes, ct_eq_iff}
use t1_waf.Crypto.{Crypto, CryptoLaws}
use t1_waf.Challenge.{
  Challenger, expired, bad_pow, verify_pow, sign, issue, verify, clearance_sig, mint_clearance,
  verify_clearance,
}

-- a number has no dot in it
pub no_dot : (n : ℕ) → all_bytes (λ a. not (a == b'.')) (decimal n) ≡ true
no_dot n = all_bytes_mono is_digit _ (decimal n) (λ a h. ground arith) (all_digits-decimal n)

Bytes-tail : (s : Text) (c : ℕ) (t : Text) → Bytes (s ++ (c ∷ t)) → Bytes t
Bytes-tail [] c t h = h.1
Bytes-tail (a ∷ s) c t h = Bytes-tail s c t h.1

module _ (crypto : Crypto) (laws : CryptoLaws crypto) (c : Challenger) where
  sig-Bytes : (secret : Text) (exp : ℕ) → Bytes (clearance_sig crypto secret exp)
  unfolding clearance_sig
  sig-Bytes secret exp = laws.mac_bytes secret _

  unsplit :
      (value : Text) (now : ℕ)
      → split_once b'.' value ≡ none
      → verify_clearance crypto c value now ≡ true
      → ⊥
  unfolding verify_clearance
  unsplit value now h ok = ground arith

  unparsed :
      (value : Text) (t : Text × Text) (now : ℕ)
      → split_once b'.' value ≡ some t
      → parse_u64 t.0 ≡ none
      → verify_clearance crypto c value now ≡ true
      → ⊥
  unfolding verify_clearance
  unparsed value t now h e ok = ground arith

  -- A token that was issued is accepted with a nonce exactly until it runs out, 120 seconds later,
  -- and exactly if the nonce proves the work; the reasons for a refusal are these two.
  pub verify-issue :
      (challenge nonce : Text) (now later : ℕ)
      → now + 120 < u64_mod
      → let t = issue crypto c challenge now in
        verify crypto c t.challenge nonce t.signature t.expires_at later ≡ (
          if ltb (now + 120) later
          then some expired
          else if verify_pow crypto challenge nonce c.pow_difficulty
          then none
          else some bad_pow)
  unfolding verify issue sign
  verify-issue challenge nonce now later fits =
      let s = sign crypto c.secret challenge (now + 120) in
      let e : add64 now 120 ≡ now + 120 = omega arith in
      rw e (ground (arith, ct_eq_iff s s (laws.mac_bytes _ _) (laws.mac_bytes _ _)))

  verify_clearance_parts :
      (value exp_s sig : Text) (exp now : ℕ)
      → split_once b'.' value ≡ some (exp_s, sig)
      → parse_u64 exp_s ≡ some exp
      → verify_clearance crypto c value now
        ≡ (if leb exp now then false else ct_eq (clearance_sig crypto c.secret exp) sig)
  unfolding verify_clearance
  verify_clearance_parts value exp_s sig exp now h e = ground arith

  self_eq :
      (secret : Text) (exp : ℕ)
      → ct_eq (clearance_sig crypto secret exp) (clearance_sig crypto secret exp) ≡ true
  unfolding clearance_sig
  self_eq secret exp = (ct_eq_iff _ _ (laws.mac_bytes secret _) (laws.mac_bytes secret _)).1 refl

  -- A minted clearance cookie is accepted exactly until its time to live has passed.
  pub verify_clearance-mint :
      (now later : ℕ)
      → now + c.cookie_ttl < u64_mod
      → verify_clearance crypto c (mint_clearance crypto c now) later
        ≡ ltb later (now + c.cookie_ttl)
  unfolding mint_clearance
  verify_clearance-mint now later fits =
      let exp = now + c.cookie_ttl in
      let s = clearance_sig crypto c.secret exp in
      let e : add64 now c.cookie_ttl ≡ exp = omega arith in
      rw e (
        verify_clearance_parts (decimal exp ++ (b'.' ∷ s)) (decimal exp) s exp later
          (split_once-append b'.' (decimal exp) s (no_dot exp)) (parse_u64-decimal exp fits)
        ∙ ground (arith, self_eq c.secret exp))

  -- Every cookie that is accepted is a time in the future and the server's code of that time.
  pub verify_clearance_sound :
      (value : Text) (now : ℕ)
      → Bytes value
      → verify_clearance crypto c value now ≡ true
      → (exp : ℕ) × (exp_s : Text) × (now < exp)
        × (parse_u64 exp_s ≡ some exp)
        × (value ≡ exp_s ++ (b'.' ∷ clearance_sig crypto c.secret exp))
  verify_clearance_sound value now bytes ok = elim (Option-cases (split_once b'.' value)) [
    | inl miss ↦ absurd (unsplit value now miss ok)
    | inr (t, found) ↦ elim (Option-cases (parse_u64 t.0)) [
      | inl miss ↦ absurd (unparsed value t now found miss ok)
      | inr (exp, read) ↦
          let whole : value ≡ t.0 ++ (b'.' ∷ t.1) = split_once_sound b'.' value t.0 t.1 found in
          let checked : (if leb exp now
                then false
                else ct_eq (clearance_sig crypto c.secret exp) t.1)
              ≡ true =
            sym (verify_clearance_parts value t.0 t.1 exp now found read) ∙ ok in
          let tail : Bytes t.1 = Bytes-tail t.0 b'.' t.1 (subst Bytes whole bytes) in
          let same =
            ct_eq_iff (clearance_sig crypto c.secret exp) t.1 (sig-Bytes c.secret exp) tail in
          (exp, t.0, ground arith, read, whole ∙ ap (λ q. t.0 ++ (b'.' ∷ q)) (ground (arith, same)))
    ]
  ]
