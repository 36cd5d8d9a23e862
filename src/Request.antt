-- ===== src/Request.antt =====
-- `RequestCtx` of crates/waf-core/src/request.rs: a request as the engine sees it.
use t1_waf.Prelude.{
  Text, nat_eq, text_eq, Eq, ◌==◌, ℕ, ◌≡◌, ◌↔◌, Bool, true, false, ◌&&◌, Option, List, arith,
}
use t1_waf.Prelude.Assoc.{lookup}

-- `std::net::IpAddr`: four bytes, or eight 16-bit segments
pub data IpAddr : Type 0 where
  v4 : ℕ → ℕ → ℕ → ℕ → IpAddr
  v6 : ℕ → ℕ → ℕ → ℕ → ℕ → ℕ → ℕ → ℕ → IpAddr

abbrev pub is_ipv4 : IpAddr → Bool
is_ipv4 (v4 _ _ _ _) = true
is_ipv4 (v6 _ _ _ _ _ _ _ _) = false

unfoldable pub ip_beq : IpAddr → IpAddr → Bool
ip_beq (v4 a b c d) (v4 a' b' c' d') = (a == a') && ((b == b') && ((c == c') && (d == d')))
ip_beq (v4 _ _ _ _) (v6 _ _ _ _ _ _ _ _) = false
ip_beq (v6 _ _ _ _ _ _ _ _) (v4 _ _ _ _) = false
ip_beq (v6 a b c d e f g h) (v6 a' b' c' d' e' f' g' h') =
    (a == a')
    && ((b == b')
        && ((c == c') && ((d == d') && ((e == e') && ((f == f') && ((g == g') && (h == h')))))))

pub ip_beq_iff : (x y : IpAddr) → (ip_beq x y ≡ true) ↔ (x ≡ y)
unfolding ip_beq
ip_beq_iff (v4 a b c d) (v4 a' b' c' d') = ground arith
ip_beq_iff (v4 _ _ _ _) (v6 _ _ _ _ _ _ _ _) = ground arith
ip_beq_iff (v6 _ _ _ _ _ _ _ _) (v4 _ _ _ _) = ground arith
ip_beq_iff (v6 a b c d e f g h) (v6 a' b' c' d' e' f' g' h') = ground arith

instance abbrev pub ip_eq : Eq IpAddr
ip_eq = record { beq = ip_beq; beq_iff = ip_beq_iff }

-- Header and cookie maps are association lists, keys in lower case as the proxy stores them.
pub record RequestCtx : Type 0 where
  pub request_id : Text
  pub client_ip : IpAddr
  pub method : Text
  pub uri : Text
  pub path : Text
  pub query : Text
  pub host : Text
  pub user_agent : Text
  pub http_version : Text
  pub headers : List (Text × Text)
  pub header_order : List Text
  pub cookie_order : List Text
  pub cookies : List (Text × Text)
  pub body_preview : List ℕ
  pub content_length : Option ℕ
  pub country : Option Text
  pub ja4h : Text

-- `RequestCtx::cookie`
unfoldable pub cookie : RequestCtx → Text → Option Text
cookie ctx name = lookup name ctx.cookies
