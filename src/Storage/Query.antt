-- ===== src/Storage/Query.antt =====
-- `query_readonly`, `series_readonly` and `TimeBucket` of crates/waf-core/src/storage.rs. `Storage::query` and
-- `Storage::series` do the same with another connection.
use t1_waf.Prelude.{
  Text, text, text_beq, nat_eq, text_eq, ◌==◌, if◌then◌else◌, sat_add, ℕ, ◌%◌, ◌^◌, min, Option,
  none, some, List, [], ◌∷◌,
}
use t1_waf.Events.{Event}
use t1_waf.Storage.Writer.{Database}

pub record TimeBucket : Type 0 where
  pub sec : ℕ
  pub allowed : ℕ
  pub challenged : ℕ
  pub blocked : ℕ
  pub tarpit : ℕ

abbrev pub empty_at : ℕ → TimeBucket
empty_at sec = record { sec = sec; allowed = 0; challenged = 0; blocked = 0; tarpit = 0 }

-- `TimeBucket::add`
unfoldable pub add : TimeBucket → Text → ℕ → TimeBucket
add b action n =
    if text_beq action (text "allow")
    then record b { allowed = sat_add b.allowed n }
    else if text_beq action (text "challenge")
    then record b { challenged = sat_add b.challenged n }
    else if text_beq action (text "block")
    then record b { blocked = sat_add b.blocked n }
    else if text_beq action (text "tarpit")
    then record b { tarpit = sat_add b.tarpit n }
    else b

-- the loop of `series` with the last bucket apart; `count as u32` wraps
unfoldable pub fold_rows : TimeBucket → List (ℕ × Text × ℕ) → List TimeBucket
fold_rows b [] = b ∷ []
fold_rows b ((sec, action, count) ∷ rows) =
    if b.sec == sec
    then fold_rows (add b action (count % 2 ^ 32)) rows
    else b ∷ fold_rows (add (empty_at sec) action (count % 2 ^ 32)) rows

unfoldable pub series_of : List (ℕ × Text × ℕ) → List TimeBucket
series_of [] = []
series_of ((sec, action, count) ∷ rows) =
    fold_rows (add (empty_at sec) action (count % 2 ^ 32)) rows

module _ (base : Database) where
  open base use {Db, select, select_series, from_json}

  -- the rows that parse
  unfoldable pub parse_rows : List Text → List Event
  parse_rows [] = []
  parse_rows (s ∷ ss) =
      let rest = parse_rows ss in elim (from_json s) [ none ↦ rest | some ev ↦ ev ∷ rest ]

  -- `Storage::query` and `Storage::series`, on the handle that is open
  unfoldable pub query : Db → ℕ → ℕ → ℕ → Option (List Event)
  query d since_ms until_ms limit =
      let capped = min limit 5000 in
      elim (select d since_ms until_ms capped) [ none ↦ none | some rows ↦ some (parse_rows rows) ]

  unfoldable pub series : Db → ℕ → ℕ → Option (List TimeBucket)
  series d since_ms until_ms = elim (select_series d since_ms until_ms) [
    | none ↦ none
    | some rows ↦ some (series_of rows)
  ]

  -- `query_readonly`
  unfoldable pub query_readonly : Db → ℕ → ℕ → ℕ → Option (List Event)
  query_readonly d since_ms until_ms limit = elim (select d since_ms until_ms (min limit 5000)) [
    | none ↦ none
    | some rows ↦ some (parse_rows rows)
  ]

  -- `series_readonly`
  unfoldable pub series_readonly : Db → ℕ → ℕ → Option (List TimeBucket)
  series_readonly d since_ms until_ms = elim (select_series d since_ms until_ms) [
    | none ↦ none
    | some rows ↦ some (series_of rows)
  ]
