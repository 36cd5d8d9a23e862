-- ===== src/Bic/Cookie.antt =====
-- A cookie serves the subnet that it was minted for, until it runs out, and no other.
use t1_waf.Prelude.{
  Text, decimal, text_beq, nat_eq, text_eq, leb, ◌==◌, if◌then◌else◌, u64_mod, add64, ℕ, ◌+◌, ◌/◌,
  ◌%◌, ◌<◌, ◌≡◌, refl, ◌∙◌, ◌↔◌, Bool, true, false, not, some, [], ◌∷◌, ◌++◌, arith,
}
use t1_waf.Strings.{split_once, parse_u64, ct_eq, all_bytes}
use t1_waf.Strings.Numbers.{parse_u64-decimal, split_once-append}
use t1_waf.Strings.Compare.{ct_eq_iff}
use t1_waf.Prelude.Texts.{text_beq_iff}
use t1_waf.Request.{IpAddr, v4, v6}
use t1_waf.Subnet.Keys.{InRange, SameSubnet}
use t1_waf.Crypto.{Crypto, CryptoLaws}
use t1_waf.Challenge.Clearance.{no_dot}
use t1_waf.Bic.{
  cookie_ttl_secs, hex_digit, hex2, hex4, subnet_marker, cookie_sig, mint, verify_parts,
  verify_cookie,
}

hex_digit_inj : (a b : ℕ) → a < 16 → b < 16 → hex_digit a ≡ hex_digit b → a ≡ b
hex_digit_inj a b p q e = ground arith

hex2_inj : (a b : ℕ) (s t : Text) → a < 256 → b < 256 → hex2 a s ≡ hex2 b t → (a ≡ b) × (s ≡ t)
hex2_inj a b s t p q e =
    let hi = hex_digit_inj (a / 16) (b / 16) (omega arith) (omega arith) (cc) in
    let lo = hex_digit_inj (a % 16) (b % 16) (omega arith) (omega arith) (cc) in (omega arith, cc)

hex4_inj : (a b : ℕ) (s t : Text) → a < 65536 → b < 65536 → hex4 a s ≡ hex4 b t → (a ≡ b) × (s ≡ t)
hex4_inj a b s t p q e =
    let (hi, rest) = hex2_inj (a / 256) (b / 256) _ _ (omega arith) (omega arith) e in
    let (lo, same) = hex2_inj (a % 256) (b % 256) s t (omega arith) (omega arith) rest in
    (omega arith, same)

-- Two addresses have the same marker exactly when they lie in one /24, or one /64.
pub subnet_marker_iff :
    (x y : IpAddr) → InRange x → InRange y → (subnet_marker x ≡ subnet_marker y) ↔ SameSubnet x y
unfolding subnet_marker
subnet_marker_iff (v4 a b c d) (v4 a' b' c' d') p q = (
  (λ e.
      let (e0, r0) = hex2_inj a a' (hex2 b (hex2 c [])) (hex2 b' (hex2 c' [])) p.0 q.0 (cc) in
      let (e1, r1) = hex2_inj b b' (hex2 c []) (hex2 c' []) p.1 q.1 r0 in
      let (e2, r2) = hex2_inj c c' [] [] p.2 q.2 r1 in (e0, e1, e2)),
  (λ s. cc),
)
subnet_marker_iff (v4 a b c d) (v6 a' b' c' d' e' f' g' h') p q =
    ((λ e. absurd (ground arith)), (λ s. absurd s))
subnet_marker_iff (v6 a b c d e f g h) (v4 a' b' c' d') p q =
    ((λ e'. absurd (ground arith)), (λ s. absurd s))
subnet_marker_iff (v6 a b c d e f g h) (v6 a' b' c' d' e' f' g' h') p q = (
  (λ m.
      let (e0, r0) =
        hex4_inj a a' (hex4 b (hex4 c (hex4 d []))) (hex4 b' (hex4 c' (hex4 d' []))) p.0 q.0 (cc) in
      let (e1, r1) = hex4_inj b b' (hex4 c (hex4 d [])) (hex4 c' (hex4 d' [])) p.1 q.1 r0 in
      let (e2, r2) = hex4_inj c c' (hex4 d []) (hex4 d' []) p.2 q.2 r1 in
      let (e3, r3) = hex4_inj d d' [] [] p.3 q.3 r2 in (e0, e1, e2, e3)),
  (λ s. cc),
)

abbrev dotless : Text → Bool
dotless = all_bytes (λ a. not (a == b'.'))

hex2_no_dot : (b : ℕ) (s : Text) → b < 256 → dotless s ≡ true → dotless (hex2 b s) ≡ true
hex2_no_dot b s p h = ground arith

hex4_no_dot : (n : ℕ) (s : Text) → n < 65536 → dotless s ≡ true → dotless (hex4 n s) ≡ true
hex4_no_dot n s p h =
    hex2_no_dot (n / 256) (hex2 (n % 256) s) (omega arith) (hex2_no_dot (n % 256) s (omega arith) h)

marker_no_dot : (x : IpAddr) → InRange x → dotless (subnet_marker x) ≡ true
unfolding subnet_marker
marker_no_dot (v4 a b c d) p =
    hex2_no_dot a (hex2 b (hex2 c [])) p.0
      (hex2_no_dot b (hex2 c []) p.1 (hex2_no_dot c [] p.2 refl))
marker_no_dot (v6 a b c d e f g h) p = hex4_no_dot a (hex4 b (hex4 c (hex4 d []))) p.0 (
    hex4_no_dot b (hex4 c (hex4 d [])) p.1
      (hex4_no_dot c (hex4 d []) p.2 (hex4_no_dot d [] p.3 refl)))

module _ (crypto : Crypto) (laws : CryptoLaws crypto) (secret : Text) where
  verify_cookie_parts :
      (value rest exp_s subnet sig : Text) (ip : IpAddr) (now : ℕ)
      → split_once b'.' value ≡ some (exp_s, rest)
      → split_once b'.' rest ≡ some (subnet, sig)
      → verify_cookie crypto secret value ip now
        ≡ verify_parts crypto secret exp_s subnet sig ip now
  unfolding verify_cookie
  verify_cookie_parts value rest exp_s subnet sig ip now h k = ground arith

  verify_parts_read :
      (exp_s subnet sig : Text) (ip : IpAddr) (exp now : ℕ)
      → parse_u64 exp_s ≡ some exp
      → verify_parts crypto secret exp_s subnet sig ip now ≡ (
          if leb exp now
          then false
          else if not (text_beq subnet (subnet_marker ip))
          then false
          else ct_eq (cookie_sig crypto secret exp subnet) sig)
  unfolding verify_parts
  verify_parts_read exp_s subnet sig ip exp now h = ground arith

  self_eq :
      (exp : ℕ) (m : Text)
      → ct_eq (cookie_sig crypto secret exp m) (cookie_sig crypto secret exp m) ≡ true
  unfolding cookie_sig
  self_eq exp m = (ct_eq_iff _ _ (laws.mac_bytes secret _) (laws.mac_bytes secret _)).1 refl

  -- A cookie minted for one address is accepted from another exactly while it has not run out, 1800
  -- seconds after it was minted, and if both addresses lie in one /24, or one /64.
  pub verify_cookie-mint :
      (ip jp : IpAddr) (now later : ℕ)
      → InRange ip
      → InRange jp
      → now + cookie_ttl_secs < u64_mod
      → (verify_cookie crypto secret (mint crypto secret ip now) jp later ≡ true)
        ↔ ((later < now + cookie_ttl_secs) × SameSubnet ip jp)
  unfolding mint
  verify_cookie-mint ip jp now later p q fits =
      let exp = now + cookie_ttl_secs in
      let m = subnet_marker ip in
      let s = cookie_sig crypto secret exp m in
      let e : add64 now cookie_ttl_secs ≡ exp = omega arith in
      let run : verify_cookie crypto secret (decimal exp ++ (b'.' ∷ (m ++ (b'.' ∷ s)))) jp later ≡ (
          if leb exp later
          then false
          else if not (text_beq m (subnet_marker jp))
          then false
          else ct_eq s s) =
        verify_cookie_parts _ (m ++ (b'.' ∷ s)) (decimal exp) m s jp later
          (split_once-append b'.' (decimal exp) (m ++ (b'.' ∷ s)) (no_dot exp))
          (split_once-append b'.' m s (marker_no_dot ip p))
        ∙ verify_parts_read (decimal exp) m s jp exp later (parse_u64-decimal exp fits) in
      let same = subnet_marker_iff ip jp p q in
      let texts = text_beq_iff m (subnet_marker jp) in
      rw (e, run)
        (
          (λ ok. (ground arith, same.0 (ground arith))),
          (λ good. let eq = same.1 good.1 in ground (arith, self_eq exp m)),
        )
