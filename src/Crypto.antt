-- ===== src/Crypto.antt =====
-- The cryptography that the program calls and does not implement: the `sha2`, `hmac`, `base64` and
-- `hex` crates, taken as a parameter with the facts about their results that the code relies on.
use t1_waf.Prelude.{Text, nat_eq, text_eq, length, ℕ, ◌≡◌, List}
use t1_waf.Strings.Compare.{Bytes}

pub record Crypto : Type 0 where
  -- `Sha256::digest`
  pub sha256 : Text → List ℕ
  -- `URL_SAFE_NO_PAD.encode(HmacSha256(secret, payload))`
  pub mac : Text → Text → Text
  -- `hex::encode`
  pub hex_encode : List ℕ → Text

-- A digest is 32 bytes; an encoded code consists of bytes.
pub record CryptoLaws (c : Crypto) : Type 0 where
  pub sha256_len : (s : Text) → length (c.sha256 s) ≡ 32
  pub sha256_bytes : (s : Text) → Bytes (c.sha256 s)
  pub mac_bytes : (k s : Text) → Bytes (c.mac k s)
