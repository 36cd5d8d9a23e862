-- ===== src/Admin/Input.antt =====
-- `read_request`, `parse_query` and `find_double_crlf` of crates/waf-proxy/src/admin.rs: a request of the
-- dashboard, from the bytes of its socket.
pub mod Reading
use t1_waf.Prelude.{
  Text, text, decimal, text_beq, nat_eq, text_eq, Eq, is_some, or_else, ltb, leb, ◌==◌,
  if◌then◌else◌, ltb→lt, lt→ltb, leb→le, le→leb, lt→leb_false, le→ltb_false, ==_iff, Bool-cases,
  Option-cases, length, get_elem?, set, length-append, length-set, get_elem?-set_self,
  get_elem?-set_ne, get_or, take, drop, replicate, take-append-drop, length-take, length-drop,
  length-replicate, length-map, u32_max, u64_mod, sat_add, add64, add32, ℕ, zero, suc, ◌+◌, ◌-◌,
  ◌*◌, ◌/◌, ◌%◌, ◌^◌, ◌≤◌, ◌<◌, min, max, ◌≡◌, refl, sym, ap, ◌∙◌, subst, ◌≢◌, ◌↔◌, ◌⊎◌, inl, inr,
  Bool, true, false, ◌&&◌, ◌||◌, not, Option, none, some, List, [], ◌∷◌, ◌++◌, map, arith, dec_lt,
  dec_le, ℕ_discrete,
}
use t1_waf.Prelude.Assoc.{insert}
use t1_waf.Strings.{find_double_crlf, split, split_once, trim, lowercase, parse_u64, is_space}
use t1_waf.Admin.{ParsedReq}
use t1_waf.BotScore.{is_empty}

-- What the socket still delivers: each piece is what one `read` into a large buffer returns. The end of the
-- list is the end of the stream, and so is an empty piece, which reads as zero bytes.
abbrev pub Socket : Type 0
Socket = List Text

-- `read` into a buffer of `size` bytes
unfoldable pub read : ℕ → Socket → Text × Socket
read size [] = ([], [])
read size (p ∷ ps) = if leb (length p) size then (p, ps) else (take size p, drop size p ∷ ps)

abbrev pub cons_first : ℕ → List Text → List Text
cons_first b [] = (b ∷ []) ∷ []
cons_first b (l ∷ ls) = (b ∷ l) ∷ ls

-- `split("\r\n")`
unfoldable pub split_lines : Text → List Text
split_lines [] = [] ∷ []
split_lines (a ∷ []) = (a ∷ []) ∷ []
split_lines (a ∷ b ∷ s) =
    let after = split_lines s in
    let next = split_lines (b ∷ s) in
    if (a == 13) && (b == 10) then [] ∷ after else cons_first a next

abbrev pub push_word : Text → List Text → List Text
push_word [] ws = ws
push_word (b ∷ w) ws = (b ∷ w) ∷ ws

-- `split_whitespace`, with the bytes of the word that has begun
unfoldable pub words : Text → Text → List Text
words w [] = push_word w []
words w (b ∷ s) = if is_space b then push_word w (words [] s) else words (w ++ (b ∷ [])) s

-- how the loop over the head ends; `starved` says that its fuel has run out
pub data Head : Type 0 where
  closed too_large starved : Head
  found : Text → ℕ → Socket → Head

-- the loop that reads up to the empty line, 64 KiB at most
unfoldable pub read_head : ℕ → Text → Socket → Head
unfolding read
read_head zero buf s = starved
read_head (suc fuel) buf s =
    let (chunk, s') = read 4096 s in
    let buf' = buf ++ chunk in
    elim (length chunk == 0) [
      | true ↦ closed
      | false ↦ elim (ltb 65_536 (length buf')) [
        | true ↦ too_large
        | false ↦ elim (find_double_crlf buf') [
          | some p ↦ found buf' p s'
          | none ↦ read_head fuel buf' s'
        ]
      ]
    ]

-- the loop that reads the body, 8 KiB at a time
unfoldable pub read_body : ℕ → ℕ → Text → Socket → Text
unfolding read
read_body zero content_length buf s = buf
read_body (suc fuel) content_length buf s = elim (ltb (length buf) content_length) [
  | false ↦ buf
  | true ↦
      let (chunk, s') = read (min (content_length - length buf) 8192) s in
      elim (length chunk == 0) [
        | true ↦ buf
        | false ↦ read_body fuel content_length (buf ++ chunk) s'
      ]
]

-- the loop over the header lines, with the content length found so far
unfoldable pub parse_headers : List Text → ℕ → List (Text × Text) → List (Text × Text) × ℕ
parse_headers [] cl hs = (hs, cl)
parse_headers (h ∷ lines) cl hs = elim (split_once b':' h) [
  | none ↦ parse_headers lines cl hs
  | some (k0, v0) ↦
      let k = lowercase (trim k0) in
      let v = trim v0 in
      parse_headers lines
        (if text_beq k (text "content-length") then min (or_else (parse_u64 v) 0) (2 ^ 20) else cl)
        (insert k v hs)
]

module _ (percent_decode : Text → Text) where
  -- the loop of `parse_query`
  unfoldable pub parse_pairs : List Text → List (Text × Text) → List (Text × Text)
  parse_pairs [] m = m
  parse_pairs (kv ∷ kvs) m = if is_empty kv then parse_pairs kvs m else elim (split_once b'=' kv) [
    | some (k, v) ↦ parse_pairs kvs (insert (percent_decode k) (percent_decode v) m)
    | none ↦ parse_pairs kvs (insert (percent_decode kv) [] m)
  ]

  -- `parse_query`
  unfoldable pub parse_query : Text → List (Text × Text)
  parse_query s = parse_pairs (split b'&' s) []

  -- the request of a head and a body, with the content length that the head declares
  unfoldable pub parse_head : Text → (ℕ → Text) → ParsedReq
  parse_head head body =
      let lines = split_lines head in
      let parts = words [] (get_or lines 0 []) in
      let target = get_or parts 1 (text "/") in
      let halves : Text × Text = elim (split_once b'?' target) [
        | none ↦ (target, [])
        | some pq ↦ pq
      ] in
      let (headers, content_length) = parse_headers (drop 1 lines) 0 [] in
      record {
        method = get_or parts 0 [];
        path = halves.0;
        query = parse_query halves.1;
        headers = headers;
        body = body content_length;
      }

  -- `read_request`, with the test of `str::from_utf8`; `none` is `Ok(None)`
  unfoldable pub read_request : (Text → Bool) → Socket → Option ParsedReq
  read_request is_utf8 s = elim (read_head 65_537 [] s) [
    | closed ↦ none
    | too_large ↦ none
    | starved ↦ none
    | found buf p s' ↦
        let raw = take p buf in
        some (
          parse_head (if is_utf8 raw then raw else [])
            (λ cl. take cl (read_body cl cl (drop (p + 4) buf) s')))
  ]
