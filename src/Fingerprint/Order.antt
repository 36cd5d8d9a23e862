-- ===== src/Fingerprint/Order.antt =====
-- The fingerprint does not depend on the order in which the cookies are stored.
use t1_waf.Prelude.{
  Text, nat_eq, text_eq, if◌then◌else◌, Bool-cases, length, suc, ◌≡◌, refl, sym, ap, ◌∙◌, inl, inr,
  true, false, List, [], ◌∷◌, ◌++◌, arith,
}
use t1_waf.Prelude.Cases.{if-ind}
use t1_waf.Prelude.Sorting.{insert_sorted, sort_by}
use mathlib.Core.List.{Permᴰ}
use t1_waf.Fingerprint.{text_lt, sort, pair_texts, compute, head_part}
use t1_waf.Crypto.{Crypto}

abbrev pair_text : Text × Text → Text
pair_text kv = kv.0 ++ (61 ∷ kv.1)

text_lt_irrefl : (s : Text) → text_lt s s ≡ false
unfolding text_lt
text_lt_irrefl [] = refl
text_lt_irrefl (a ∷ s) = ground (arith, text_lt_irrefl s)

text_lt_trans : (s t u : Text) → text_lt s t ≡ true → text_lt t u ≡ true → text_lt s u ≡ true
unfolding text_lt
text_lt_trans [] [] u h g = absurd (ground arith)
text_lt_trans [] (b ∷ t) [] h g = absurd (ground arith)
text_lt_trans [] (b ∷ t) (c ∷ u) h g = refl
text_lt_trans (a ∷ s) [] u h g = absurd (ground arith)
text_lt_trans (a ∷ s) (b ∷ t) [] h g = absurd (ground arith)
text_lt_trans (a ∷ s) (b ∷ t) (c ∷ u) h g = ground (arith, text_lt_trans s t u)

text_lt_total : (s t : Text) → text_lt s t ≡ false → text_lt t s ≡ false → s ≡ t
unfolding text_lt
text_lt_total [] [] h g = refl
text_lt_total [] (b ∷ t) h g = absurd (ground arith)
text_lt_total (a ∷ s) [] h g = absurd (ground arith)
text_lt_total (a ∷ s) (b ∷ t) h g = ground (arith, text_lt_total s t)

text_lt_asymm : (s t : Text) → text_lt s t ≡ true → text_lt t s ≡ false
text_lt_asymm s t h = elim (Bool-cases (text_lt t s)) [
  | inr after ↦ after
  | inl both ↦ absurd (ground (arith, text_lt_trans s t s h both, text_lt_irrefl s))
]

text_lt-le_lt : (s t u : Text) → text_lt t s ≡ false → text_lt t u ≡ true → text_lt s u ≡ true
text_lt-le_lt s t u h g = elim (Bool-cases (text_lt s t)) [
  | inl below ↦ text_lt_trans s t u below g
  | inr same ↦ rw (text_lt_total s t same h) g
]

-- two texts in front of a list, in order
front :
    (x y : Text) (l : List Text)
    → (if text_lt y x then y ∷ x ∷ l else x ∷ y ∷ l)
      ≡ (if text_lt x y then x ∷ y ∷ l else y ∷ x ∷ l)
front x y l = elim (Bool-cases (text_lt y x)) [
  | inl above ↦ rw (above, text_lt_asymm y x above) refl
  | inr not_above ↦ elim (Bool-cases (text_lt x y)) [
    | inl below ↦ rw (not_above, below) refl
    | inr not_below ↦
        let same : x ≡ y = text_lt_total x y not_below not_above in
        rw (not_above, not_below) (ap (λ z. z ∷ y ∷ l) same ∙ ap (λ z. y ∷ z ∷ l) (sym same))
  ]
]

insert_sorted_past :
    (x z : Text) (l : List Text)
    → text_lt z x ≡ true
    → insert_sorted text_lt x (z ∷ l) ≡ z ∷ insert_sorted text_lt x l
unfolding insert_sorted
insert_sorted_past x z l h =
    if-ind (λ out. out ≡ z ∷ insert_sorted text_lt x l) (text_lt z x) (λ _. refl)
      (λ g. absurd (ground arith))

insert_sorted_here :
    (x z : Text) (l : List Text) → text_lt z x ≡ false → insert_sorted text_lt x (z ∷ l) ≡ x ∷ z ∷ l
unfolding insert_sorted
insert_sorted_here x z l h =
    if-ind (λ out. out ≡ x ∷ z ∷ l) (text_lt z x) (λ g. absurd (ground arith)) (λ _. refl)

insert_sorted_two :
    (x y z : Text) (l : List Text)
    → text_lt z x ≡ false
    → insert_sorted text_lt x (y ∷ z ∷ l) ≡ (if text_lt y x then y ∷ x ∷ z ∷ l else x ∷ y ∷ z ∷ l)
insert_sorted_two x y z l h = elim (Bool-cases (text_lt y x)) [
  | inl below ↦ insert_sorted_past x y (z ∷ l) below ∙ rw (below, insert_sorted_here x z l h) refl
  | inr above ↦ insert_sorted_here x y (z ∷ l) above ∙ rw above refl
]

insert_sorted_one :
    (x y : Text)
    → insert_sorted text_lt x (insert_sorted text_lt y [])
      ≡ (if text_lt y x then y ∷ x ∷ [] else x ∷ y ∷ [])
unfolding insert_sorted
insert_sorted_one x y = refl

-- two insertions, in either order
insert_sorted_comm :
    (x y : Text) (l : List Text)
    → insert_sorted text_lt x (insert_sorted text_lt y l)
      ≡ insert_sorted text_lt y (insert_sorted text_lt x l)
insert_sorted_comm x y [] = insert_sorted_one x y ∙ (front x y [] ∙ sym (insert_sorted_one y x))
insert_sorted_comm x y (z ∷ l) = elim (Bool-cases (text_lt z x)) [
  | inl zx ↦ elim (Bool-cases (text_lt z y)) [
    | inl zy ↦
        rw
          (
            insert_sorted_past y z l zy,
            insert_sorted_past x z l zx,
            insert_sorted_past x z (insert_sorted text_lt y l) zx,
            insert_sorted_past y z (insert_sorted text_lt x l) zy,
          )
          (ap (λ m. z ∷ m) (insert_sorted_comm x y l))
    | inr zy ↦
        rw
          (
            insert_sorted_here y z l zy,
            insert_sorted_past x y (z ∷ l) (text_lt-le_lt y z x zy zx),
            insert_sorted_past x z l zx,
            insert_sorted_here y z (insert_sorted text_lt x l) zy,
          )
          refl
  ]
  | inr zx ↦ elim (Bool-cases (text_lt z y)) [
    | inl zy ↦
        rw
          (
            insert_sorted_past y z l zy,
            insert_sorted_here x z (insert_sorted text_lt y l) zx,
            insert_sorted_here x z l zx,
            insert_sorted_past y x (z ∷ l) (text_lt-le_lt x z y zx zy),
            insert_sorted_past y z l zy,
          )
          refl
    | inr zy ↦
        rw (insert_sorted_here y z l zy, insert_sorted_here x z l zx)
          (insert_sorted_two x y z l zx ∙ (front x y (z ∷ l) ∙ sym (insert_sorted_two y x z l zy)))
  ]
]

sort-perm : {xs ys : List Text} → Permᴰ xs ys → sort xs ≡ sort ys
unfolding sort sort_by
sort-perm Permᴰ.nil = refl
sort-perm (Permᴰ.cons {a} {b} {l₁ = xs} e p) =
    ap (λ z. insert_sorted text_lt z (sort xs)) e ∙ ap (insert_sorted text_lt b) (sort-perm p)
sort-perm (Permᴰ.swap {a} {b} {a'} {b'} {l} e f) =
    insert_sorted_comm a b (sort l)
    ∙ (ap (λ z. insert_sorted text_lt z (insert_sorted text_lt a (sort l))) f
        ∙ ap (λ z. insert_sorted text_lt a' (insert_sorted text_lt z (sort l))) e)
sort-perm (Permᴰ.trans p q) = sort-perm p ∙ sort-perm q

pair_texts-perm : {m n : List (Text × Text)} → Permᴰ m n → Permᴰ (pair_texts m) (pair_texts n)
unfolding pair_texts
pair_texts-perm Permᴰ.nil = Permᴰ.nil
pair_texts-perm (Permᴰ.cons e p) = Permᴰ.cons (ap pair_text e) (pair_texts-perm p)
pair_texts-perm (Permᴰ.swap e f) = Permᴰ.swap (ap pair_text e) (ap pair_text f)
pair_texts-perm (Permᴰ.trans p q) = Permᴰ.trans (pair_texts-perm p) (pair_texts-perm q)

length-perm : {m n : List (Text × Text)} → Permᴰ m n → length m ≡ length n
length-perm Permᴰ.nil = refl
length-perm (Permᴰ.cons e p) = ap suc (length-perm p)
length-perm (Permᴰ.swap e f) = refl
length-perm (Permᴰ.trans p q) = length-perm p ∙ length-perm q

-- The fingerprint of a request is the same in whatever order the map of its cookies iterates, and in
-- whatever order it names them in its header.
pub compute-perm :
    (crypto : Crypto) (method http_version : Text) (header_order : List Text)
    (headers : List (Text × Text)) (order order' : List Text)
    (cookies cookies' : List (Text × Text))
    → Permᴰ order order'
    → Permᴰ cookies cookies'
    → compute crypto method http_version header_order headers order cookies
      ≡ compute crypto method http_version header_order headers order' cookies'
unfolding compute head_part
compute-perm crypto method http_version header_order headers order order' cookies cookies' p q =
    rw (length-perm q, sort-perm (pair_texts-perm q), sort-perm p) refl
