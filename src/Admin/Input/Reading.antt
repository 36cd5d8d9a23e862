-- ===== src/Admin/Input/Reading.antt =====
-- The loops of `read_request` end, and what they read does not depend on how the bytes arrive.
use t1_waf.Prelude.{
  Text, nat_eq, text_eq, ltb, leb, ◌==◌, length, length-append, take, drop, take-append-drop,
  length-take, length-drop, ℕ, zero, suc, ◌+◌, ◌-◌, ◌≤◌, ◌<◌, min, ◌≡◌, refl, sym, ap, ◌∙◌, ◌≢◌,
  false, [], ◌∷◌, ◌++◌, arith,
}
use t1_waf.Prelude.Cases.{if-ind, bool-ind, option-ind}
use mathlib.Core.List.{append_assoc, append-nil}
use t1_waf.Strings.{find_double_crlf}
use t1_waf.Admin.Input.{Socket, read, Head, starved, read_head, read_body}

-- all that a socket delivers
abbrev pub flatten : Socket → Text
flatten [] = []
flatten (p ∷ ps) = p ++ flatten ps

-- No piece is empty: the stream goes on until it ends.
abbrev pub IsFull : Socket → Type 0
IsFull [] = Unit
IsFull (p ∷ ps) = (0 < length p) × IsFull ps

nonzero : (n : ℕ) → (n == 0) ≡ false → 0 < n
nonzero n h = ground arith

not_above : (m n : ℕ) → ltb m n ≡ false → n ≤ m
not_above m n h = ground arith

-- The loop over the head of a request ends within 65537 reads, however the bytes arrive: each read that
-- goes on adds a byte, and the loop stops past 65536.
pub read_head-ends :
    (fuel : ℕ) (buf : Text) (s : Socket)
    → length buf ≤ 65_536
    → 65_536 < length buf + fuel
    → read_head fuel buf s ≢ starved
unfolding read_head
read_head-ends zero buf s small enough = absurd (omega arith)
read_head-ends (suc fuel) buf s small enough =
    let chunk = (read 4096 s).0 in
    let buf' = buf ++ chunk in
    let Ends = λ (out : Head). out ≢ starved in
    bool-ind Ends (length chunk == 0) (λ _. λ e. ground arith)
      (λ more.
        bool-ind Ends (ltb 65_536 (length buf')) (λ _. λ e. ground arith)
          (λ room.
            option-ind Ends (find_double_crlf buf')
              (λ _.
                read_head-ends fuel buf' (read 4096 s).1
                  (omega (arith, not_above 65_536 (length buf') room))
                  (omega (
                    arith,
                    small,
                    enough,
                    nonzero (length chunk) more,
                    length-append {0} buf chunk,
                  )))
              (λ p _. λ e. ground arith)))

read-flatten : (size : ℕ) (s : Socket) → (read size s).0 ++ flatten (read size s).1 ≡ flatten s
unfolding read
read-flatten size [] = refl
read-flatten size (p ∷ ps) =
    let Whole = λ (out : Text × Socket). out.0 ++ flatten out.1 ≡ p ++ flatten ps in
    if-ind Whole (leb (length p) size) (λ _. refl)
      (λ _.
        sym (append_assoc (take size p) (drop size p) (flatten ps))
        ∙ ap (λ z. z ++ flatten ps) (take-append-drop size p))

read-IsFull : (size : ℕ) (s : Socket) → IsFull s → IsFull (read size s).1
unfolding read
read-IsFull size [] h = tt
read-IsFull size (p ∷ ps) h =
    let Full = λ (out : Text × Socket). IsFull out.1 in
    if-ind Full (leb (length p) size) (λ _. h.1)
      (λ long. (ground (arith, length-drop {0} size p), h.1))

read_end :
    (size : ℕ) (s : Socket) → 0 < size → IsFull s → (length (read size s).0 ≡ 0) → flatten s ≡ []
unfolding read
read_end size [] pos h e = refl
read_end size (p ∷ ps) pos h e = absurd (ground (arith, h.0, length-take {0} size p))

take-append_le : (n : ℕ) (xs ys : Text) → n ≤ length xs → take n (xs ++ ys) ≡ take n xs
take-append_le zero xs ys h = refl
take-append_le (suc n) [] ys h = absurd (omega arith)
take-append_le (suc n) (x ∷ xs) ys h = ap (λ z. x ∷ z) (take-append_le n xs ys (omega arith))

-- The body that the loop delivers is the bytes after the head, as many as the content length says, however
-- they arrive, if no read returns an empty piece before the end of the stream.
pub read_body-flatten :
    (fuel cl : ℕ) (buf : Text) (s : Socket)
    → IsFull s
    → cl ≤ length buf + fuel
    → take cl (read_body fuel cl buf s) ≡ take cl (buf ++ flatten s)
unfolding read_body
read_body-flatten zero cl buf s full enough = sym (take-append_le cl buf (flatten s) (omega arith))
read_body-flatten (suc fuel) cl buf s full enough =
    let size = min (cl - length buf) 8192 in
    let chunk = (read size s).0 in
    let Same = λ (out : Text). take cl out ≡ take cl (buf ++ flatten s) in
    bool-ind Same (ltb (length buf) cl)
      (λ short.
        bool-ind Same (length chunk == 0)
          (λ ended.
            let nothing : flatten s ≡ [] = read_end size s (ground arith) full (ground arith) in
            rw nothing (ap (take cl) (sym (append-nil buf))))
          (λ more.
            read_body-flatten fuel cl (buf ++ chunk) (read size s).1 (read-IsFull size s full)
              (omega (arith, enough, nonzero (length chunk) more, length-append {0} buf chunk))
            ∙ ap (take cl) (
                append_assoc buf chunk (flatten (read size s).1)
                ∙ ap (λ z. buf ++ z) (read-flatten size s))))
      (λ long. sym (take-append_le cl buf (flatten s) (ground arith)))
