-- ===== src/Runtime/Restart.antt =====
-- What the file brings back.
use t1_waf.Prelude.{
  Text, nat_eq, text_eq, or_else, if◌then◌else◌, ℕ, ◌≤◌, min, ◌≡◌, refl, false, none, some, List,
  [], ◌∷◌, map, arith,
}
use t1_waf.Strings.{uppercase}
use t1_waf.Net.{NetApi, parse_net}
use t1_waf.BotScore.{is_empty}
use t1_waf.Runtime.{Runtime, parse_all, apply_persisted, snapshot, persisted, token_or}

-- settings that the file can hold: the levels are in range, the countries are in capitals, and there is a
-- token; the program leaves them such, but for the countries of the configuration, which it takes as written
pub record IsValid {Net : Type 0} (r : Runtime Net) : Type 0 where
  pub level : r.uam_level ≤ 4
  pub mode : r.challenge_mode ≤ 2
  pub capitals : map uppercase r.blocked_countries ≡ r.blocked_countries
  pub token : is_empty r.auth_token ≡ false

min_low : (a b : ℕ) → a ≤ b → min a b ≡ a
min_low a b h = omega arith

kept_secret : (s f : Text) → f ≡ [] → or_else (if is_empty s then none else some s) f ≡ s
kept_secret [] f h = h
kept_secret (x ∷ s) f h = refl

kept_token : (s f : Text) → is_empty s ≡ false → token_or (some s) f ≡ s
kept_token s f h = rw h refl

module _ (api : NetApi) where
  open api use {Net, show}

  parse_all-show :
      ((n : Net) → parse_net api (show n) ≡ some n)
      → (ns : List Net) → parse_all api (map show ns) ≡ ns
  unfolding parse_all
  parse_all-show back [] = refl
  parse_all-show back (n ∷ ns) = rw (parse_all, back n, parse_all-show back ns) refl

  -- Settings with a level of 4 at most, a mode of 2 at most, countries in capitals and a token that is not
  -- empty, once written to the file and read into a process that has no captcha secret of its own, come
  -- back as they were, the secret of the captcha provider included, if a block that is printed parses to
  -- itself.
  pub apply_persisted-persisted :
      (r fresh : Runtime Net)
      → ((n : Net) → parse_net api (show n) ≡ some n)
      → IsValid r
      → fresh.turnstile_secret ≡ []
      → apply_persisted api (persisted api r) fresh ≡ r
  unfolding apply_persisted persisted snapshot
  apply_persisted-persisted r fresh back valid empty =
      rw
        (
          min_low r.uam_level 4 valid.level,
          min_low r.challenge_mode 2 valid.mode,
          parse_all-show back r.allow,
          parse_all-show back r.deny,
          valid.capitals,
          valid.token,
          kept_secret r.turnstile_secret fresh.turnstile_secret empty,
        )
        refl
