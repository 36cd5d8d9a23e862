-- ===== src/Challenge/Pow.antt =====
-- The server's test of a proof of work is the one that the page's script runs: the hex form of the
-- digest starts with as many zeros as the difficulty says.
use t1_waf.Prelude.{
  Text, nat_eq, text_eq, ◌==◌, length, ℕ, zero, suc, ◌*◌, ◌/◌, ◌%◌, ◌≤◌, min, max, ◌≡◌, refl, ◌∙◌,
  Bool, true, false, ◌&&◌, List, [], ◌∷◌, ◌++◌, arith,
}
use t1_waf.Strings.Compare.{Bytes}
use t1_waf.Crypto.{Crypto, CryptoLaws}
use t1_waf.Challenge.{new, leading_zeros, verify_pow}

-- the hex digits of bytes, as numbers
abbrev pub nibbles : List ℕ → List ℕ
nibbles [] = []
nibbles (b ∷ bs) = b / 16 ∷ b % 16 ∷ nibbles bs

-- the first `n` are zero
abbrev pub zeros : ℕ → List ℕ → Bool
zeros zero xs = true
zeros (suc n) [] = false
zeros (suc n) (x ∷ xs) = (x == 0) && zeros n xs

-- one byte more, two digits more
leading_zeros-cons :
    (b : ℕ) (digest : List ℕ) (need : ℕ)
    → leading_zeros (b ∷ digest) (suc (suc need)) ≡ ((b == 0) && leading_zeros digest need)
unfolding leading_zeros
leading_zeros-cons b digest need = rw (half, parity) (ground arith)
  where
    half : suc (suc need) / 2 ≡ suc (need / 2)
    half = omega arith

    parity : suc (suc need) % 2 ≡ need % 2
    parity = omega arith

leading_zeros-nibbles :
    (need : ℕ) (digest : List ℕ)
    → Bytes digest
    → need ≤ 2 * length digest
    → leading_zeros digest need ≡ zeros need (nibbles digest)
unfolding leading_zeros
leading_zeros-nibbles zero [] p h = refl
leading_zeros-nibbles (suc need) [] p h = absurd (omega arith)
leading_zeros-nibbles zero (b ∷ digest) p h = refl
leading_zeros-nibbles (suc zero) (b ∷ digest) p h = ground arith
leading_zeros-nibbles (suc (suc need)) (b ∷ digest) p h =
    leading_zeros-cons b digest need
    ∙ ground (arith, leading_zeros-nibbles need digest p.1 (omega arith))

-- With the difficulty that `new` clamps, the server accepts a nonce exactly when the digest of
-- challenge and nonce starts with that many zero hex digits.
pub verify_pow-zeros :
    (crypto : Crypto) (secret cookie_name challenge nonce : Text) (ttl difficulty : ℕ)
    → CryptoLaws crypto
    → let d = (new secret cookie_name ttl difficulty).pow_difficulty in
      (verify_pow crypto challenge nonce d ≡ zeros d (nibbles (crypto.sha256 (challenge ++ nonce))))
      × (1 ≤ d)
      × (d ≤ 8)
unfolding verify_pow new
verify_pow-zeros crypto secret cookie_name challenge nonce ttl difficulty laws =
    let digest = crypto.sha256 (challenge ++ nonce) in
    (
      leading_zeros-nibbles (min (max difficulty 1) 8) digest
          (laws.sha256_bytes (challenge ++ nonce))
          (omega (arith, laws.sha256_len (challenge ++ nonce))),
      omega arith,
      omega arith,
    )
