-- ===== src/Strings.antt =====
-- The operations of Rust's `str` that the source uses, over texts as bytes. Case and white space are
-- those of ASCII: header values are visible ASCII where the proxy reads them.
pub mod Numbers
pub mod Compare
use t1_waf.Prelude.{
  Text, text, decimal, text_beq, nat_eq, text_eq, Eq, is_some, or_else, ltb, leb, ◌==◌,
  if◌then◌else◌, ltb→lt, lt→ltb, leb→le, le→leb, lt→leb_false, le→ltb_false, ==_iff, Bool-cases,
  Option-cases, length, get_elem?, set, length-append, length-set, get_elem?-set_self,
  get_elem?-set_ne, get_or, take, drop, replicate, take-append-drop, length-take, length-drop,
  length-replicate, length-map, u32_max, u64_mod, sat_add, add64, add32, ℕ, zero, suc, ◌+◌, ◌-◌,
  ◌*◌, ◌/◌, ◌%◌, ◌^◌, ◌≤◌, ◌<◌, min, max, ◌≡◌, refl, sym, ap, ◌∙◌, subst, ◌≢◌, ◌↔◌, ◌⊎◌, inl, inr,
  Bool, true, false, ◌&&◌, ◌||◌, not, Option, none, some, List, [], ◌∷◌, ◌++◌, map, arith, dec_lt,
  dec_le, ℕ_discrete,
}
use mathlib.Core.List.{reverse}
use Prim.Native.Nat.{bit_or, bit_xor}

-- `starts_with`
unfoldable pub starts_with : Text → Text → Bool
starts_with s [] = true
starts_with [] (b ∷ p) = false
starts_with (a ∷ s) (b ∷ p) = (a == b) && starts_with s p

-- `ends_with`
unfoldable pub ends_with : Text → Text → Bool
unfolding starts_with
ends_with s p = starts_with (reverse s) (reverse p)

-- `contains`
unfoldable pub contains : Text → Text → Bool
unfolding starts_with
contains [] p = starts_with [] p
contains (a ∷ s) p = starts_with (a ∷ s) p || contains s p

-- `contains` of one byte, and the number of times that it stands in the text
unfoldable pub count_byte : ℕ → Text → ℕ
count_byte c [] = 0
count_byte c (a ∷ s) = (if a == c then 1 else 0) + count_byte c s

abbrev pub lower_byte : ℕ → ℕ
lower_byte c = if leb b'A' c && leb c b'Z' then c + 32 else c

abbrev pub upper_byte : ℕ → ℕ
upper_byte c = if leb b'a' c && leb c b'z' then c - 32 else c

-- `to_ascii_lowercase`, `to_ascii_uppercase`, `eq_ignore_ascii_case`
unfoldable pub lowercase : Text → Text
lowercase s = map lower_byte s

unfoldable pub uppercase : Text → Text
uppercase s = map upper_byte s

unfoldable pub eq_ignore_case : Text → Text → Bool
unfolding lowercase text_beq
eq_ignore_case s t = text_beq (lowercase s) (lowercase t)

abbrev pub is_space : ℕ → Bool
is_space c = (c == 32) || (leb 9 c && leb c 13)

unfoldable pub drop_while : (ℕ → Bool) → Text → Text
drop_while p [] = []
drop_while p (a ∷ s) = if p a then drop_while p s else a ∷ s

-- `trim`, and `trim_matches` of one byte
unfoldable pub trim_by : (ℕ → Bool) → Text → Text
unfolding drop_while
trim_by p s = reverse (drop_while p (reverse (drop_while p s)))

abbrev pub trim : Text → Text
trim = trim_by is_space

-- `chars().take(n)`: a byte from 128 to 191 goes on with the character before it.
unfoldable pub take_chars : ℕ → Text → Text
take_chars n [] = []
take_chars n (b ∷ s) =
    let inner = leb 128 b && ltb b 192 in
    let rest = take_chars (if inner then n else n - 1) s in
    if inner || ltb 0 n then b ∷ rest else []

-- `split_once`
unfoldable pub split_once : ℕ → Text → Option (Text × Text)
split_once c [] = none
split_once c (a ∷ s) =
    if a == c
    then some ([], s)
    else elim (split_once c s) [ none ↦ none | some (p, q) ↦ some (a ∷ p, q) ]

-- `windows(4).position(|w| w == b"\r\n\r\n")`
unfoldable pub find_double_crlf : Text → Option ℕ
unfolding starts_with
find_double_crlf [] = none
find_double_crlf (b ∷ s) =
    let rest = find_double_crlf s in
    if starts_with (b ∷ s) (13 ∷ 10 ∷ 13 ∷ 10 ∷ [])
    then some 0
    else elim rest [ none ↦ none | some p ↦ some (suc p) ]

-- `split`: the pieces between the bytes `c`, never none
unfoldable pub split : ℕ → Text → List Text
split c [] = [] ∷ []
split c (a ∷ s) =
    let rest = split c s in
    if a == c then [] ∷ rest else elim rest [ [] ↦ (a ∷ []) ∷ [] | p ∷ ps ↦ (a ∷ p) ∷ ps ]

-- `parse::<u64>()`: an optional plus sign and at least one digit, below 2^64
abbrev pub is_digit : ℕ → Bool
is_digit c = leb b'0' c && leb c b'9'

abbrev pub all_bytes : (ℕ → Bool) → Text → Bool
all_bytes p [] = true
all_bytes p (a ∷ s) = p a && all_bytes p s

unfoldable pub digits_value : ℕ → Text → ℕ
digits_value v [] = v
digits_value v (d ∷ s) = digits_value (v * 10 + (d - 48)) s

unfoldable pub parse_digits : Text → Option ℕ
unfolding digits_value
parse_digits [] = none
parse_digits (d ∷ s) =
    if all_bytes is_digit (d ∷ s) && ltb (digits_value 0 (d ∷ s)) u64_mod
    then some (digits_value 0 (d ∷ s))
    else none

unfoldable pub parse_u64 : Text → Option ℕ
unfolding parse_digits
parse_u64 [] = none
parse_u64 (c ∷ s) = if c == b'+' then parse_digits s else parse_digits (c ∷ s)

-- the loop of `ct_eq`: `diff |= a[i] ^ b[i]`
unfoldable pub diff_from : ℕ → Text → Text → ℕ
diff_from d [] b = d
diff_from d (x ∷ a) [] = d
diff_from d (x ∷ a) (y ∷ b) = diff_from (bit_or d (bit_xor x y)) a b

-- `ct_eq` of challenge.rs and bic.rs
unfoldable pub ct_eq : Text → Text → Bool
unfolding diff_from
ct_eq a b = if length a == length b then diff_from 0 a b == 0 else false
