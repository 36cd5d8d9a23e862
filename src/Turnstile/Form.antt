-- ===== src/Turnstile/Form.antt =====
-- The form that is sent to the provider says what it is meant to say.
use t1_waf.Strings.Numbers.{split_once-append, all_bytes_mono}
use t1_waf.Turnstile.{form_body}
use t1_waf.Prelude.{
  Text, text, nat_eq, text_eq, leb, ◌==◌, if◌then◌else◌, ==_iff, ℕ, ◌+◌, ◌-◌, ◌*◌, ◌/◌, ◌%◌, ◌<◌,
  ◌≡◌, refl, ap, ◌∙◌, Bool, true, false, ◌||◌, not, none, some, List, [], ◌∷◌, ◌++◌, map, arith,
}
use t1_waf.Prelude.Cases.{if-ind}
use t1_waf.Strings.{split, split_once, all_bytes}
use t1_waf.Strings.Compare.{Bytes}
use t1_waf.Turnstile.{upper_hex, is_unreserved, urlenc}

abbrev hex_value : ℕ → ℕ
hex_value c = if leb c 57 then c - 48 else c - 55

-- The decoder of forms: a percent sign stands for the byte of the two digits after it.
unfoldable pub decode : Text → Text
decode [] = []
decode (a ∷ []) = a ∷ []
decode (a ∷ b ∷ []) = a ∷ b ∷ []
decode (a ∷ b ∷ c ∷ s) =
    let after = decode s in
    let next = decode (b ∷ c ∷ s) in
    if a == b'%' then (hex_value b * 16 + hex_value c) ∷ after else a ∷ next

unfoldable pub field_of : Text → Text × Text
field_of s = elim (split_once b'=' s) [ none ↦ (s, []) | some (k, v) ↦ (decode k, decode v) ]

-- what a server reads in a form
unfoldable pub read_form : Text → List (Text × Text)
read_form s = map field_of (split b'&' s)

hex_value-upper_hex : (n : ℕ) → n < 16 → hex_value (upper_hex n) ≡ n
hex_value-upper_hex n h = ground arith

decode-plain : (a : ℕ) (s : Text) → (a == b'%') ≡ false → decode (a ∷ s) ≡ a ∷ decode s
unfolding decode
decode-plain a [] h = refl
decode-plain a (b ∷ []) h = refl
decode-plain a (b ∷ c ∷ s) h = rw h refl

plain_byte : (b : ℕ) → is_unreserved b ≡ true → (b == b'%') ≡ false
unfolding is_unreserved
plain_byte b h = ground arith

upper_hex_safe : (n : ℕ) → n < 16 → is_unreserved (upper_hex n) ≡ true
unfolding is_unreserved
upper_hex_safe n h = ground arith

decode-urlenc : (s : Text) → Bytes s → decode (urlenc s) ≡ s
unfolding urlenc decode
decode-urlenc [] h = refl
decode-urlenc (b ∷ s) h =
    let Back = λ (out : Text). decode out ≡ b ∷ s in
    if-ind Back (is_unreserved b)
      (λ plain.
        decode-plain b (urlenc s) (plain_byte b plain) ∙ ap (λ z. b ∷ z) (decode-urlenc s h.1))
      (λ other.
        let high = hex_value-upper_hex (b / 16) (omega (arith, h.0)) in
        let low = hex_value-upper_hex (b % 16) (omega arith) in
        rw (high, low, decode-urlenc s h.1) (ap (λ z. z ∷ s) (omega arith)))

-- the bytes of an encoded text
abbrev safe : ℕ → Bool
safe c = is_unreserved c || (c == b'%')

all_bytes-urlenc : (s : Text) → Bytes s → all_bytes safe (urlenc s) ≡ true
unfolding urlenc
all_bytes-urlenc [] h = refl
all_bytes-urlenc (b ∷ s) h =
    let Safe = λ (out : Text). all_bytes safe out ≡ true in
    if-ind Safe (is_unreserved b) (λ plain. ground (arith, plain, all_bytes-urlenc s h.1))
      (λ other.
        let high = upper_hex_safe (b / 16) (omega (arith, h.0)) in
        let low = upper_hex_safe (b % 16) (omega arith) in
        rw (high, low) (ground (arith, all_bytes-urlenc s h.1)))

-- no byte of the text is `c`
abbrev free_of : ℕ → Text → Bool
free_of c s = all_bytes (λ a. not (a == c)) s

urlenc-free_amp : (s : Text) → Bytes s → free_of b'&' (urlenc s) ≡ true
unfolding is_unreserved
urlenc-free_amp s h =
    all_bytes_mono safe (λ a. not (a == b'&')) (urlenc s) (λ a ok. ground arith)
      (all_bytes-urlenc s h)

split-append : (c : ℕ) (p q : Text) → free_of c p ≡ true → split c (p ++ (c ∷ q)) ≡ p ∷ split c q
unfolding split
split-append c [] q h = ground (arith, ==_iff c c)
split-append c (a ∷ p) q h =
    let rest = split-append c p q (ground arith) in
    let other : (a == c) ≡ false = ground arith in rw (other, rest) refl

split_one : (c : ℕ) (p : Text) → free_of c p ≡ true → split c p ≡ p ∷ []
unfolding split
split_one c [] h = refl
split_one c (a ∷ p) h =
    let other : (a == c) ≡ false = ground arith in rw (other, split_one c p (ground arith)) refl

abbrev pair_text : Text → Text → Text
pair_text k v = k ++ (b'=' ∷ urlenc v)

field_of-pair :
    (k v : Text)
    → free_of b'=' k ≡ true
    → decode k ≡ k
    → Bytes v
    → field_of (pair_text k v) ≡ (k, v)
unfolding field_of
field_of-pair k v free plain h =
    rw (field_of, split_once-append b'=' k (urlenc v) free, plain, decode-urlenc v h) refl

pair-free_amp : (k v : Text) → free_of b'&' k ≡ true → Bytes v → free_of b'&' (pair_text k v) ≡ true
pair-free_amp [] v f h = urlenc-free_amp v h
pair-free_amp (a ∷ k) v f h = ground (arith, pair-free_amp k v)

form_body-pairs :
    (secret token ip : Text)
    → form_body secret token ip
      ≡ pair_text (text "secret") secret
        ++ (b'&' ∷ (pair_text (text "response") token ++ (b'&' ∷ pair_text (text "remoteip") ip)))
unfolding form_body text
form_body-pairs secret token ip = refl

-- Whatever bytes the secret, the token and the address consist of, the form that is sent to the captcha's
-- provider is read there as three fields with exactly these values: no token can add or change a field.
pub read_form-form_body :
    (secret token ip : Text)
    → Bytes secret
    → Bytes token
    → Bytes ip
    → read_form (form_body secret token ip)
      ≡ (text "secret", secret) ∷ (text "response", token) ∷ (text "remoteip", ip) ∷ []
unfolding read_form text decode
read_form-form_body secret token ip hs ht hi =
    let p1 = pair_text (text "secret") secret in
    let p2 = pair_text (text "response") token in
    let p3 = pair_text (text "remoteip") ip in
    rw
      (
        form_body-pairs secret token ip,
        split-append b'&' p1 (p2 ++ (b'&' ∷ p3)) (pair-free_amp (text "secret") secret refl hs),
        split-append b'&' p2 p3 (pair-free_amp (text "response") token refl ht),
        split_one b'&' p3 (pair-free_amp (text "remoteip") ip refl hi),
        field_of-pair (text "secret") secret refl refl hs,
        field_of-pair (text "response") token refl refl ht,
        field_of-pair (text "remoteip") ip refl refl hi,
      )
      refl
