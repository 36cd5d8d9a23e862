-- ===== src/Storage/Journal.antt =====
-- What can happen to the event store, and what is relied on of SQLite.
pub mod Bounds
pub mod Merge
pub mod Kept
use t1_waf.Prelude.{
  Text, text, decimal, text_beq, nat_eq, text_eq, Eq, is_some, or_else, ltb, leb, ◌==◌,
  if◌then◌else◌, ltb→lt, lt→ltb, leb→le, le→leb, lt→leb_false, le→ltb_false, ==_iff, Bool-cases,
  Option-cases, length, get_elem?, set, length-append, length-set, get_elem?-set_self,
  get_elem?-set_ne, get_or, take, drop, replicate, take-append-drop, length-take, length-drop,
  length-replicate, length-map, u32_max, u64_mod, sat_add, add64, add32, ℕ, zero, suc, ◌+◌, ◌-◌,
  ◌*◌, ◌/◌, ◌%◌, ◌^◌, ◌≤◌, ◌<◌, min, max, ◌≡◌, refl, sym, ap, ◌∙◌, subst, ◌≢◌, ◌↔◌, ◌⊎◌, inl, inr,
  Bool, true, false, ◌&&◌, ◌||◌, not, Option, none, some, List, [], ◌∷◌, ◌++◌, map, arith, dec_lt,
  dec_le, ℕ_discrete,
}
use t1_waf.Events.{Event}
use t1_waf.Storage.{Sink, submit, is_full, max_queue}
use t1_waf.Storage.Writer.{
  Row, Database, Store, insert_all, stop, flush, sweep, tick, flush_full, receive, flush_batch,
  row_of,
}

-- the rows from a time on
unfoldable pub since_of : ℕ → List Row → List Row
since_of cutoff [] = []
since_of cutoff (r ∷ rs) =
    let rest = since_of cutoff rs in if ltb r.ts_ms cutoff then rest else r ∷ rest

since_of-append :
    (c : ℕ) (rs ss : List Row) → since_of c (rs ++ ss) ≡ since_of c rs ++ since_of c ss
unfolding since_of
since_of-append c [] ss = refl
since_of-append c (r ∷ rs) ss = ground (arith, since_of-append c rs ss)

since_of_older : (b c : ℕ) (rs : List Row) → b ≤ c → since_of c (since_of b rs) ≡ since_of c rs
unfolding since_of
since_of_older b c [] h = refl
since_of_older b c (r ∷ rs) h = ground (arith, since_of_older b c rs h)

-- What is relied on of SQLite, with the rows that a database holds: an `INSERT` that succeeds adds its row, a
-- transaction that begins and one that is committed show what its connection has written, and a sweep
-- removes the older rows, or none if it fails. Each call may fail.
pub record DatabaseLaws (base : Database) : Type 0 where
  pub rows : base.Db → List Row
  pub insert_rows :
      (d e : base.Db) (r : Row) → base.insert d r ≡ some e → rows e ≡ rows d ++ (r ∷ [])
  pub transaction_rows : (d e : base.Db) → base.transaction d ≡ some e → rows e ≡ rows d
  pub commit_rows : (d e : base.Db) → base.commit d ≡ some e → rows e ≡ rows d
  pub delete_rows :
      (d : base.Db) (cutoff : ℕ)
      → (rows (base.delete_before d cutoff) ≡ since_of cutoff (rows d))
        ⊎ (rows (base.delete_before d cutoff) ≡ rows d)

-- the events that `submit` has put into the channel
unfoldable pub accept : Sink → Event → List Event → List Event
accept s ev evs = if is_full s then evs else if s.is_open then evs ++ (ev ∷ []) else evs

module _ (base : Database) where
  open base use {Db, transaction, insert}

  -- the rows of a batch whose `INSERT` fails
  unfoldable pub refused_in : Db → List Event → List Row
  refused_in d [] = []
  refused_in d (ev ∷ evs) =
      let r = row_of base ev in
      elim (insert d r) [ none ↦ r ∷ refused_in d evs | some e ↦ refused_in e evs ]

  -- and those of a `flush`, of a tick and of a receipt
  unfoldable pub flush_refused : Store base → List Row
  flush_refused w = elim (transaction w.db) [ none ↦ [] | some t ↦ refused_in t w.buf ]

  unfoldable pub tick_refused : Store base → List Row
  tick_refused w = elim w.buf [ [] ↦ [] | ev ∷ evs ↦ flush_refused w ]

  unfoldable pub full_refused : Store base → List Row
  full_refused w = if leb flush_batch (length w.buf) then flush_refused w else []

  unfoldable pub receive_refused : Store base → List Row
  receive_refused w = elim w.sink.channel [
    | [] ↦ []
    | ev ∷ evs ↦
        full_refused (record w { sink = record w.sink { channel = evs }; buf = w.buf ++ (ev ∷ []) })
  ]

  abbrev pub feed : Store base → Event → Store base
  feed w ev = record w { sink = submit w.sink ev }

  -- What can happen to the store, with the events that have been accepted and the rows that were refused,
  -- when no sweep comes later than a day after `c`: events are submitted, and the writer's loop takes one
  -- of its branches.
  pub data Reach (d : Db) (c : ℕ) : Store base → List Event → List Row → Type 0 where
    start :
        Reach d c
          (record {
            sink = record { channel = []; is_open = true; queued = 0; drained = 0; dropped = 0 };
            buf = [];
            db = d;
            written = 0;
          })
          []
          []
    submits :
        {w : Store base} {evs : List Event} {lost : List Row} (ev : Event)
        → Reach d c w evs lost
        → Reach d c (feed w ev) (accept w.sink ev evs) lost
    receives :
        {w : Store base} {evs : List Event} {lost : List Row}
        → Reach d c w evs lost
        → Reach d c (receive base w) evs (lost ++ receive_refused w)
    ticks :
        {w : Store base} {evs : List Event} {lost : List Row}
        → Reach d c w evs lost
        → Reach d c (tick base w) evs (lost ++ tick_refused w)
    sweeps :
        {w : Store base} {evs : List Event} {lost : List Row} (now_ms : ℕ)
        → now_ms ≤ c + 86_400_000
        → Reach d c w evs lost
        → Reach d c (sweep base w now_ms) evs lost
