-- ===== src/Storage/Writer.antt =====
-- `writer_loop` and `flush` of crates/waf-core/src/storage.rs, each branch of the loop as a step.
use t1_waf.Prelude.{
  Text, text, nat_eq, text_eq, or_else, leb, if◌then◌else◌, length, ℕ, ◌+◌, ◌-◌, false, Option,
  none, some, List, [], ◌∷◌, ◌++◌,
}
use t1_waf.Action.{Action}
use t1_waf.Events.{Event}
use t1_waf.Storage.{Sink}

abbrev pub flush_batch : ℕ
flush_batch = 512

-- a row of the table `events`, without its number
pub record Row : Type 0 where
  pub ts_ms : ℕ
  pub ip : Text
  pub action : Text
  pub status : ℕ
  pub score : ℕ
  pub rule_id : Option Text
  pub body : Text

-- What the program calls of SQLite, and of `serde_json` for an event. `none` is an error.
pub record Database : Type 1 where
  pub Db : Type 0
  -- `transaction`, the `INSERT` of a row, `commit`
  pub transaction : Db → Option Db
  pub insert : Db → Row → Option Db
  pub commit : Db → Option Db
  -- `DELETE FROM events WHERE ts_ms < ?1`, an error of which is ignored
  pub delete_before : Db → ℕ → Db
  -- `SELECT body … WHERE ts_ms >= ?1 AND ts_ms <= ?2 ORDER BY ts_ms DESC LIMIT ?3`
  pub select : Db → ℕ → ℕ → ℕ → Option (List Text)
  -- `SELECT sec, action, COUNT(*) … GROUP BY sec, action ORDER BY sec ASC`
  pub select_series : Db → ℕ → ℕ → Option (List (ℕ × Text × ℕ))
  pub to_json : Event → Text
  pub from_json : Text → Option Event

-- the name of an action in the table
unfoldable pub action_name : Action → Text
action_name Action.allow = text "allow"
action_name Action.challenge = text "challenge"
action_name Action.block = text "block"
action_name Action.tarpit = text "tarpit"

module _ (base : Database) where
  open base use {Db, transaction, insert, commit, delete_before, to_json}

  -- the writer task with the queue that feeds it
  pub record Store : Type 0 where
    pub sink : Sink
    pub buf : List Event
    pub db : Db
    pub written : ℕ

  unfoldable pub row_of : Event → Row
  row_of ev = record {
    ts_ms = ev.ts_ms;
    ip = ev.ip;
    action = action_name ev.action;
    status = ev.status;
    score = ev.score;
    rule_id = ev.rule_id;
    body = to_json ev;
  }

  -- the loop of `flush`: a row that is refused is left out
  unfoldable pub insert_all : Db → List Event → Db
  insert_all d [] = d
  insert_all d (ev ∷ evs) = insert_all (or_else (insert d (row_of ev)) d) evs

  -- the task has ended with an error: the receiver is gone, and what it held
  unfoldable pub stop : Store → Store
  stop w = record w { sink = record w.sink { channel = []; is_open = false }; buf = [] }

  -- `flush`, with the end of the task where it fails
  unfoldable pub flush : Store → Store
  flush w =
      let n = length w.buf in
      elim (transaction w.db) [
        | none ↦ stop w
        | some t ↦ elim (commit (insert_all t w.buf)) [
          | none ↦ stop w
          | some d ↦ record {
            sink = record w.sink { drained = w.sink.drained + n };
            buf = [];
            db = d;
            written = w.written + n;
          }
        ]
      ]

  -- `retention_tick.tick()`: the last 24 hours are kept
  unfoldable pub sweep : Store → ℕ → Store
  sweep w now_ms = record w { db = delete_before w.db (now_ms - 86_400_000) }

  -- `tick.tick()`
  unfoldable pub tick : Store → Store
  tick w = elim w.buf [ [] ↦ w | ev ∷ evs ↦ flush w ]

  unfoldable pub flush_full : Store → Store
  flush_full w = if leb flush_batch (length w.buf) then flush w else w

  -- `rx.recv()`; an empty channel is waited for
  unfoldable pub receive : Store → Store
  receive w = elim w.sink.channel [
    | [] ↦ w
    | ev ∷ evs ↦
        flush_full (record w { sink = record w.sink { channel = evs }; buf = w.buf ++ (ev ∷ []) })
  ]
