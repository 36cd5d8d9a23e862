-- ===== src/Fingerprint.antt =====
-- crates/waf-core/src/fingerprint.rs: the JA4H text of a request.
pub mod Shape
pub mod Order
use t1_waf.Prelude.{
  Text, text, decimal, text_beq, nat_eq, text_eq, Eq, is_some, or_else, ltb, leb, ◌==◌,
  if◌then◌else◌, ltb→lt, lt→ltb, leb→le, le→leb, lt→leb_false, le→ltb_false, ==_iff, Bool-cases,
  Option-cases, length, get_elem?, set, length-append, length-set, get_elem?-set_self,
  get_elem?-set_ne, get_or, take, drop, replicate, take-append-drop, length-take, length-drop,
  length-replicate, length-map, u32_max, u64_mod, sat_add, add64, add32, ℕ, zero, suc, ◌+◌, ◌-◌,
  ◌*◌, ◌/◌, ◌%◌, ◌^◌, ◌≤◌, ◌<◌, min, max, ◌≡◌, refl, sym, ap, ◌∙◌, subst, ◌≢◌, ◌↔◌, ◌⊎◌, inl, inr,
  Bool, true, false, ◌&&◌, ◌||◌, not, Option, none, some, List, [], ◌∷◌, ◌++◌, map, arith, dec_lt,
  dec_le, ℕ_discrete,
}
use t1_waf.Prelude.Assoc.{lookup, contains_key}
use t1_waf.Prelude.Sorting.{sort_by}
use t1_waf.Strings.{contains, lowercase, starts_with, take_chars, split}
use t1_waf.Bic.{hex2}
use t1_waf.Crypto.{Crypto}

-- the order of `sort` on strings: byte by byte
unfoldable pub text_lt : Text → Text → Bool
text_lt [] [] = false
text_lt [] (b ∷ t) = true
text_lt (a ∷ s) [] = false
text_lt (a ∷ s) (b ∷ t) = ltb a b || ((a == b) && text_lt s t)

-- `sort`, `dedup` and `join(",")`
unfoldable pub sort : List Text → List Text
sort ss = sort_by text_lt ss

unfoldable pub dedup : List Text → List Text
dedup [] = []
dedup (s ∷ []) = s ∷ []
dedup (s ∷ t ∷ ts) = let rest = dedup (t ∷ ts) in if text_beq s t then rest else s ∷ rest

unfoldable pub join_comma : List Text → Text
join_comma [] = []
join_comma (s ∷ []) = s
join_comma (s ∷ t ∷ ts) = s ++ (b',' ∷ join_comma (t ∷ ts))

-- `while out.len() < n { out.push('0') }`
abbrev pub pad : ℕ → Text → Text
pad n s = s ++ replicate (n - length s) b'0'

-- `method_two`
unfoldable pub method_two : Text → Text
method_two m = pad 2 (lowercase (take_chars 2 m))

-- `version_two`
unfoldable pub version_two : Text → Text
version_two v =
    if contains v (text "3")
    then text "30"
    else if contains v (text "2")
    then text "20"
    else if contains v (text "1.0")
    then text "10"
    else text "11"

-- the primary tag of `ja4_lang`: what stands before the first comma or semicolon
unfoldable pub primary_tag : Text → Text
primary_tag [] = []
primary_tag (c ∷ s) =
    let rest = primary_tag s in if (c == b',') || (c == b';') then [] else c ∷ rest

abbrev pub is_alphabetic : ℕ → Bool
is_alphabetic c = (leb b'A' c && leb c b'Z') || (leb b'a' c && leb c b'z')

unfoldable pub keep_letters : Text → Text
keep_letters [] = []
keep_letters (c ∷ s) = let rest = keep_letters s in if is_alphabetic c then c ∷ rest else rest

-- `ja4_lang`
unfoldable pub ja4_lang : Text → Text
ja4_lang lang = pad 4 (lowercase (take 4 (keep_letters (primary_tag lang))))

-- the headers that are not counted
unfoldable pub is_excluded : Text → Bool
is_excluded h =
    text_beq h (text "cookie") || (text_beq h (text "referer") || starts_with h (text ":"))

unfoldable pub included : List Text → List Text
included [] = []
included (h ∷ hs) = let rest = included hs in if is_excluded h then rest else h ∷ rest

-- `{:02}` of a number below 100
abbrev pub two_digits : ℕ → Text
two_digits n = (48 + n / 10) ∷ (48 + n % 10) ∷ []

abbrev pub no_digest : Text
no_digest = replicate 12 b'0'

-- `{k}={v}` of every cookie
unfoldable pub pair_texts : List (Text × Text) → List Text
pair_texts [] = []
pair_texts ((k, v) ∷ m) = (k ++ (b'=' ∷ v)) ∷ pair_texts m

unfoldable pub hex_bytes : List ℕ → Text
hex_bytes [] = []
hex_bytes (b ∷ bs) = hex2 b (hex_bytes bs)

-- the part `ja4h_a`
unfoldable pub head_part : Text → Text → List Text → List (Text × Text) → List (Text × Text) → Text
head_part method http_version header_order headers cookies =
    method_two method
    ++ (version_two http_version
        ++ ((if length cookies == 0 then b'n' else b'c')
            ∷ (if contains_key (text "referer") headers then b'r' else b'n')
            ∷ (two_digits (min (length (included header_order)) 99)
                ++ ja4_lang (or_else (lookup (text "accept-language") headers) []))))

module _ (crypto : Crypto) where
  -- `sha_12hex`
  unfoldable pub sha_12hex : Text → Text
  sha_12hex input = hex_bytes (take 6 (crypto.sha256 input))

  -- the digest of texts, twelve zeros for none
  unfoldable pub digest_of : List Text → Text
  digest_of [] = no_digest
  digest_of (s ∷ ss) = sha_12hex (join_comma (s ∷ ss))

  -- `compute`
  unfoldable pub compute :
      Text → Text → List Text → List (Text × Text) → List Text → List (Text × Text) → Text
  compute method http_version header_order headers cookie_order cookies =
      head_part method http_version header_order headers cookies
      ++ (b'_'
          ∷ (digest_of (included header_order)
              ++ (b'_'
                  ∷ (digest_of (dedup (sort cookie_order))
                      ++ (b'_' ∷ digest_of (sort (pair_texts cookies)))))))
