-- ===== src/Fingerprint/Shape.antt =====
-- The fingerprint has one length.
use t1_waf.Strings.{lower_byte}
use t1_waf.Prelude.Cases.{if-ind}
use t1_waf.Strings.{contains}
use t1_waf.Prelude.Assoc.{lookup}
use t1_waf.Prelude.{
  Text, text, nat_eq, text_eq, or_else, ltb, length, length-append, take, replicate, length-take,
  length-replicate, length-map, ℕ, ◌-◌, ◌*◌, ◌≤◌, ◌≡◌, refl, ◌∙◌, Bool, true, List, [], ◌∷◌, ◌++◌,
  map, arith,
}
use t1_waf.Strings.{take_chars, lowercase, all_bytes}
use t1_waf.Crypto.{Crypto, CryptoLaws}
use t1_waf.Fingerprint.{
  included, dedup, sort, pair_texts, method_two, version_two, ja4_lang, head_part, hex_bytes,
  sha_12hex, digest_of, compute, keep_letters, primary_tag,
}

length-pad : (n : ℕ) (s : Text) → length s ≤ n → length (s ++ replicate (n - length s) 48) ≡ n
length-pad n s h =
    let zeros : Text = replicate (n - length s) 48 in
    let more : length zeros ≡ n - length s = length-replicate {0} (n - length s) 48 in
    omega (arith, length-append {0} s zeros, more, h)

-- texts of ASCII
abbrev is_ascii : ℕ → Bool
is_ascii c = ltb c 128

length-take_chars : (n : ℕ) (s : Text) → all_bytes is_ascii s ≡ true → length (take_chars n s) ≤ n
unfolding take_chars
length-take_chars n [] h = omega arith
length-take_chars n (b ∷ s) h = ground (arith, length-take_chars (n - 1) s, length-take_chars n s)

length-method_two : (m : Text) → all_bytes is_ascii m ≡ true → length (method_two m) ≡ 2
unfolding method_two lowercase
length-method_two m h =
    length-pad 2 (map lower_byte (take_chars 2 m))
      (omega (arith, length-map {0, 0} (take_chars 2 m) lower_byte, length-take_chars 2 m h))

length-version_two : (v : Text) → length (version_two v) ≡ 2
unfolding version_two text
length-version_two v =
    let Two = λ (out : Text). length out ≡ 2 in
    if-ind Two (contains v (51 ∷ [])) (λ _. refl)
      (λ _.
        if-ind Two (contains v (50 ∷ [])) (λ _. refl)
          (λ _. if-ind Two (contains v (49 ∷ 46 ∷ 48 ∷ [])) (λ _. refl) (λ _. refl)))

length-ja4_lang : (l : Text) → length (ja4_lang l) ≡ 4
unfolding ja4_lang lowercase
length-ja4_lang l =
    let letters = take 4 (keep_letters (primary_tag l)) in
    length-pad 4 (map lower_byte letters) (
      omega (
        arith,
        length-map {0, 0} letters lower_byte,
        length-take {0} 4 (keep_letters (primary_tag l)),
      ))

module _ (crypto : Crypto) (laws : CryptoLaws crypto) where
  length-hex_bytes : (bs : List ℕ) → length (hex_bytes bs) ≡ 2 * length bs
  unfolding hex_bytes
  length-hex_bytes [] = refl
  length-hex_bytes (b ∷ bs) = omega (arith, length-hex_bytes bs)

  length-digest_of : (ss : List Text) → length (digest_of crypto ss) ≡ 12
  unfolding digest_of sha_12hex
  length-digest_of [] = refl
  length-digest_of (s ∷ ss) = omega (
    arith,
    length-hex_bytes (take 6 (crypto.sha256 _)),
    length-take {0} 6 (crypto.sha256 _),
    laws.sha256_len _,
  )

  length-head_part :
      (method http_version : Text) (header_order : List Text) (headers cookies : List (Text × Text))
      → all_bytes is_ascii method ≡ true
      → length (head_part method http_version header_order headers cookies) ≡ 12
  unfolding head_part
  length-head_part method http_version header_order headers cookies h =
      let lang = ja4_lang (or_else (lookup (text "accept-language") headers) []) in
      let e1 : length (method_two method) ≡ 2 = length-method_two method h in
      let e2 : length (version_two http_version) ≡ 2 = length-version_two http_version in
      let e3 : length lang ≡ 4 = length-ja4_lang _ in
      length-append {0} (method_two method) _
      ∙ omega (arith, e1, e2, e3, length-append {0} (version_two http_version) _)

  -- The fingerprint of a request whose method is ASCII is 51 bytes long: twelve for the head and for each of
  -- the three digests, and three underscores.
  pub length-compute :
      (method http_version : Text) (header_order : List Text) (headers : List (Text × Text))
      (cookie_order : List Text) (cookies : List (Text × Text))
      → all_bytes is_ascii method ≡ true
      → length (compute crypto method http_version header_order headers cookie_order cookies) ≡ 51
  unfolding compute
  length-compute method http_version header_order headers cookie_order cookies h =
      let a = head_part method http_version header_order headers cookies in
      let b = digest_of crypto (included header_order) in
      let c = digest_of crypto (dedup (sort cookie_order)) in
      let d = digest_of crypto (sort (pair_texts cookies)) in
      omega (
        arith,
        length-head_part method http_version header_order headers cookies h,
        length-digest_of (included header_order),
        length-digest_of (dedup (sort cookie_order)),
        length-digest_of (sort (pair_texts cookies)),
        length-append {0} a (b'_' ∷ (b ++ (b'_' ∷ (c ++ (b'_' ∷ d))))),
        length-append {0} b (b'_' ∷ (c ++ (b'_' ∷ d))),
        length-append {0} c (b'_' ∷ d),
      )
