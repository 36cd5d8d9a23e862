-- ===== src/Subnet/Keys.antt =====
-- Two addresses share a key exactly when they lie in one subnet.
use t1_waf.Prelude.{nat_eq, text_eq, ◌<◌, ◌≡◌, ◌↔◌, arith}
use t1_waf.Request.{IpAddr, v4, v6}
use t1_waf.Subnet.{subnet_key}

-- the fields of an address are in their range
abbrev pub InRange : IpAddr → Type 0
InRange (v4 a b c d) = (a < 256) × (b < 256) × (c < 256) × (d < 256)
InRange (v6 a b c d e f g h) =
    (a < 65536)
    × (b < 65536)
    × (c < 65536)
    × (d < 65536)
    × (e < 65536)
    × (f < 65536)
    × (g < 65536)
    × (h < 65536)

-- one /24 of IPv4, or one /64 of IPv6
abbrev pub SameSubnet : IpAddr → IpAddr → Type 0
SameSubnet (v4 a b c _) (v4 a' b' c' _) = (a ≡ a') × (b ≡ b') × (c ≡ c')
SameSubnet (v4 _ _ _ _) (v6 _ _ _ _ _ _ _ _) = ⊥
SameSubnet (v6 _ _ _ _ _ _ _ _) (v4 _ _ _ _) = ⊥
SameSubnet (v6 a b c d _ _ _ _) (v6 a' b' c' d' _ _ _ _) = (a ≡ a') × (b ≡ b') × (c ≡ c') × (d ≡ d')

-- Two addresses have the same key exactly when they are of one family and agree in the first three
-- bytes, or the first four segments.
pub subnet_key_iff :
    (x y : IpAddr) → InRange x → InRange y → (subnet_key x ≡ subnet_key y) ↔ SameSubnet x y
unfolding subnet_key
subnet_key_iff (v4 a b c d) (v4 a' b' c' d') p q = ((λ e. omega arith), (λ s. omega arith))
subnet_key_iff (v4 a b c d) (v6 a' b' c' d' e' f' g' h') p q = ((λ e. omega arith), (λ s. absurd s))
subnet_key_iff (v6 a b c d e f g h) (v4 a' b' c' d') p q = ((λ e'. omega arith), (λ s. absurd s))
subnet_key_iff (v6 a b c d e f g h) (v6 a' b' c' d' e' f' g' h') p q =
    ((λ s. omega arith), (λ s. omega arith))
