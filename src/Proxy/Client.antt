-- ===== src/Proxy/Client.antt =====
-- The address that `resolve_client_ip` takes from a forwarded header.
use t1_waf.Prelude.{
  Text, nat_eq, text_eq, ◌==◌, ==_iff, Bool-cases, length, get_elem?, length-append, length-map, ℕ,
  suc, ◌+◌, ◌-◌, ◌≤◌, ◌≡◌, refl, ap, ◌∙◌, inl, inr, Option, some, List, [], ◌∷◌, ◌++◌, map, arith,
}
use t1_waf.Strings.{split, trim}
use t1_waf.Request.{IpAddr}
use t1_waf.Proxy.{resolve_client_ip}

split-IsCons : (c : ℕ) (s : Text) → (p : Text) × (ps : List Text) × (split c s ≡ p ∷ ps)
unfolding split
split-IsCons c [] = ([], [], refl)
split-IsCons c (a ∷ s) =
    let (p, ps, e) = split-IsCons c s in
    elim (Bool-cases (a == c)) [
      | inl stop ↦ ([], split c s, ground arith)
      | inr go ↦ (a ∷ p, ps, rw (go, e) refl)
    ]

split-append : (c : ℕ) (s t : Text) → split c (s ++ (c ∷ t)) ≡ split c s ++ split c t
unfolding split
split-append c [] t = ground (arith, ==_iff c c)
split-append c (a ∷ s) t =
    let (p, ps, e) = split-IsCons c s in
    elim (Bool-cases (a == c)) [
      | inl stop ↦ rw (stop, split-append c s t) refl
      | inr go ↦ rw (go, split-append c s t, e) refl
    ]

map-append : (f : Text → Text) (xs ys : List Text) → map f (xs ++ ys) ≡ map f xs ++ map f ys
map-append f [] ys = refl
map-append f (x ∷ xs) ys = ap (λ zs. f x ∷ zs) (map-append f xs ys)

get_elem?-append :
    {A : Type 0} (xs ys : List A) (i : ℕ) → get_elem? (xs ++ ys) (length xs + i) ≡ get_elem? ys i
get_elem?-append [] ys i = ap (get_elem? ys) (omega arith)
get_elem?-append (x ∷ xs) ys i =
    let at : length (x ∷ xs) + i ≡ suc (length xs + i) = omega arith in
    rw at (get_elem?-append xs ys i)

pub resolve_client_ip-forged :
    (parse_ip : Text → Option IpAddr) (socket_ip : IpAddr) (hops : ℕ) (forged attested : Text)
    → hops ≤ length (split b',' attested)
    → resolve_client_ip parse_ip socket_ip hops (some (forged ++ (b',' ∷ attested)))
      ≡ resolve_client_ip parse_ip socket_ip hops (some attested)
unfolding resolve_client_ip
resolve_client_ip-forged parse_ip socket_ip hops forged attested enough =
    let xs = map trim (split b',' forged) in
    let ys = map trim (split b',' attested) in
    let parts : map trim (split b',' (forged ++ (b',' ∷ attested))) ≡ xs ++ ys =
      ap (map trim) (split-append b',' forged attested)
      ∙ map-append trim (split b',' forged) (split b',' attested) in
    let same : length ys ≡ length (split b',' attested) = length-map (split b',' attested) trim in
    let at : length (xs ++ ys) - hops ≡ length xs + (length ys - hops) =
      ground (arith, length-append xs ys) in
    rw (parts, at, get_elem?-append xs ys (length ys - hops)) refl
