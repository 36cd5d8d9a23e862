-- ===== src/Storage/Journal/Kept.antt =====
-- No event is lost between the queue and the store.
use t1_waf.Storage.Writer.{row_of}
use t1_waf.Prelude.{
  nat_eq, text_eq, leb, Bool-cases, Option-cases, none, some, Option, or_else, length, ℕ, ◌+◌, ◌-◌,
  ◌≤◌, ◌≡◌, refl, sym, ap, subst, ◌∙◌, inl, inr, true, List, [], ◌∷◌, ◌++◌, map, arith,
}
use mathlib.Core.List.{append_assoc, append-nil, map-append}
use t1_waf.Prelude.Cases.{if-ind, option-ind, if-ind2, option-ind2, list-ind2}
use t1_waf.Storage.Journal.{
  since_of, since_of-append, since_of_older, accept, DatabaseLaws, feed, Reach, start, submits,
  receives, ticks, sweeps, refused_in, flush_refused, tick_refused, full_refused, receive_refused,
}
use t1_waf.Events.{Event}
use t1_waf.Storage.{Sink, submit, is_full}
use t1_waf.Storage.Writer.{
  Row, Database, Store, insert_all, stop, flush, sweep, tick, flush_full, receive, flush_batch,
}
use t1_waf.Storage.Journal.Merge.{Merge, nil, left, right, Merge-all, Merge-append, Merge-since_of}

module _ (base : Database) (laws : DatabaseLaws base) where
  open base use {Db}
  open laws use {rows}

  -- the rows that the events in the buffer and the channel will be
  abbrev pub waiting : Store base → List Row
  waiting w = map (row_of base) (w.buf ++ w.sink.channel)

  -- the rows of the store, and those that wait
  abbrev pub held : Store base → List Row
  held w = rows w.db ++ waiting w

  -- what a batch adds, and what is refused of it, make up the batch
  Merge-insert_all :
      (t : Db) (evs : List Event)
      → (added : List Row) × (rows (insert_all base t evs) ≡ rows t ++ added)
        × Merge added (refused_in base t evs) (map (row_of base) evs)
  unfolding insert_all refused_in
  Merge-insert_all t [] = ([], sym (append-nil (rows t)), nil)
  Merge-insert_all t (ev ∷ evs) =
      let r = row_of base ev in
      let Taken = λ (o : Option Db).
        (added : List Row) × (rows (insert_all base (or_else o t) evs) ≡ rows t ++ added)
        × Merge added (elim o [ none ↦ r ∷ refused_in base t evs | some e ↦ refused_in base e evs ])
            (r ∷ map (row_of base) evs) in
      elim (Option-cases (base.insert t r)) [
        | inl miss ↦
            let (added, grew, m) = Merge-insert_all t evs in
            subst Taken (sym miss) (added, grew, right m)
        | inr (e, hit) ↦
            let (added, grew, m) = Merge-insert_all e evs in
            subst Taken (sym hit) (
              r ∷ added,
              grew
                  ∙ (ap (λ rs. rs ++ added) (laws.insert_rows t e r hit)
                      ∙ append_assoc (rows t) (r ∷ []) added),
              left m,
            )
      ]

  -- A step after which the writer still runs: some of the rows that waited have been taken up, and
  -- of these the refused ones are missing.
  record Moved (w out : Store base) (lost : List Row) : Type 0 where
    taken : List Row
    added : List Row
    waited : waiting w ≡ taken ++ waiting out
    grew : rows out.db ≡ rows w.db ++ added
    merged : Merge added lost taken
    was_open : w.sink.is_open ≡ true

  abbrev Moves : Store base → Store base → List Row → Type 0
  Moves w out lost = out.sink.is_open ≡ true → Moved w out lost

  stays : (w : Store base) → Moves w w []
  stays w o = record {
    taken = [];
    added = [];
    waited = refl;
    grew = sym (append-nil (rows w.db));
    merged = nil;
    was_open = o;
  }

  flush-Moves : (w : Store base) → Moves w (flush base w) (flush_refused base w)
  unfolding flush stop flush_refused
  flush-Moves w =
      option-ind2 (Moves w) (base.transaction w.db) (λ _. λ o. absurd (ground arith))
        (λ t began.
          option-ind (λ (out : Store base). Moves w out (refused_in base t w.buf))
            (base.commit (insert_all base t w.buf)) (λ _. λ o. absurd (ground arith))
            (λ d done. λ o.
              let (added, grew, m) = Merge-insert_all t w.buf in
              record {
                taken = map (row_of base) w.buf;
                added = added;
                waited = map-append (row_of base) w.buf w.sink.channel;
                grew =
                    laws.commit_rows (insert_all base t w.buf) d done
                    ∙ (grew ∙ ap (λ rs. rs ++ added) (laws.transaction_rows w.db t began));
                merged = m;
                was_open = o;
              }))

  flush_full-Moves : (w : Store base) → Moves w (flush_full base w) (full_refused base w)
  unfolding flush_full full_refused
  flush_full-Moves w =
      if-ind2 (Moves w) (leb flush_batch (length w.buf)) (λ _. flush-Moves w) (λ _. stays w)

  tick-Moves : (w : Store base) → Moves w (tick base w) (tick_refused base w)
  unfolding tick tick_refused
  tick-Moves w = list-ind2 (Moves w) w.buf (λ _. stays w) (λ ev evs e. flush-Moves w)

  receive-Moves : (w : Store base) → Moves w (receive base w) (receive_refused base w)
  unfolding receive receive_refused
  receive-Moves w =
      list-ind2 (Moves w) w.sink.channel (λ _. stays w)
        (λ ev evs e o.
          let w' : Store base = record w {
            sink = record w.sink { channel = evs };
            buf = w.buf ++ (ev ∷ []);
          } in
          let m = flush_full-Moves w' o in
          record {
            taken = m.taken;
            added = m.added;
            waited =
                rw e (ap (map (row_of base)) (sym (append_assoc w.buf (ev ∷ []) evs)) ∙ m.waited);
            grew = m.grew;
            merged = m.merged;
            was_open = m.was_open;
          })

  -- Of the rows of the accepted events, those that no longer wait stand in the store, but for the refused.
  record Settled (d : Db) (c : ℕ) (w : Store base) (evs : List Event) (lost : List Row)
      : Type 0 where
    done : List Row
    split : since_of c (rows d ++ map (row_of base) evs) ≡ done ++ since_of c (waiting w)
    merged : Merge (since_of c (rows w.db)) (since_of c lost) done

  Moved-Settled :
      (d : Db) (c : ℕ) (w out : Store base) (evs : List Event) (lost more : List Row)
      → Moved w out more
      → Settled d c w evs lost
      → Settled d c out evs (lost ++ more)
  Moved-Settled d c w out evs lost more m h = record {
    done = h.done ++ since_of c m.taken;
    split =
        h.split
        ∙ (ap (λ rs. h.done ++ since_of c rs) m.waited
            ∙ (ap (λ rs. h.done ++ rs) (since_of-append c m.taken (waiting out))
                ∙ sym (append_assoc h.done (since_of c m.taken) (since_of c (waiting out)))));
    merged =
        rw (m.grew, since_of-append c (rows w.db) m.added, since_of-append c lost more)
          (Merge-append h.merged (Merge-since_of c m.merged));
  }

  submit-is_open : (s : Sink) (ev : Event) → (submit s ev).is_open ≡ s.is_open
  unfolding submit
  submit-is_open s ev =
      let Open = λ (out : Sink). out.is_open ≡ s.is_open in
      if-ind Open (is_full s) (λ _. refl) (λ _. if-ind Open s.is_open (λ _. refl) (λ _. refl))

  submit-Settled :
      (d : Db) (c : ℕ) (w : Store base) (ev : Event) (evs : List Event) (lost : List Row)
      → w.sink.is_open ≡ true
      → Settled d c w evs lost
      → Settled d c (feed base w ev) (accept w.sink ev evs) lost
  unfolding submit accept
  submit-Settled d c w ev evs lost run h =
      let added = row_of base ev ∷ [] in
      elim (Bool-cases (is_full w.sink)) [
        | inl full ↦ rw full (record { done = h.done; split = h.split; merged = h.merged })
        | inr room ↦ record {
          done = h.done;
          split =
              rw
                (
                  room,
                  run,
                  sym (append_assoc w.buf w.sink.channel (ev ∷ [])),
                  map-append (row_of base) (w.buf ++ w.sink.channel) (ev ∷ []),
                  map-append (row_of base) evs (ev ∷ []),
                  sym (append_assoc (rows d) (map (row_of base) evs) added),
                  since_of-append c (rows d ++ map (row_of base) evs) added,
                  since_of-append c (map (row_of base) (w.buf ++ w.sink.channel)) added,
                  h.split,
                )
                (append_assoc h.done (since_of c (waiting w)) (since_of c added));
          merged = h.merged;
        }
      ]

  sweep-Settled :
      (d : Db) (c now_ms : ℕ) (w : Store base) (evs : List Event) (lost : List Row)
      → now_ms ≤ c + 86_400_000
      → Settled d c w evs lost
      → Settled d c (sweep base w now_ms) evs lost
  unfolding sweep
  sweep-Settled d c now_ms w evs lost late h =
      let cutoff = now_ms - 86_400_000 in
      let same : since_of c (rows (base.delete_before w.db cutoff)) ≡ since_of c (rows w.db) =
        elim (laws.delete_rows w.db cutoff) [
          | inl swept ↦ ap (since_of c) swept ∙ since_of_older cutoff c (rows w.db) (omega arith)
          | inr failed ↦ ap (since_of c) failed
        ] in
      record { done = h.done; split = h.split; merged = rw same h.merged }

  Reach-Settled :
      {d : Db} {c : ℕ} {w : Store base} {evs : List Event} {lost : List Row}
      → Reach base d c w evs lost
      → w.sink.is_open ≡ true
      → Settled d c w evs lost
  unfolding since_of sweep
  Reach-Settled {d} {c} start o = record {
    done = since_of c (rows d);
    split = since_of-append c (rows d) [];
    merged = Merge-all (since_of c (rows d));
  }
  Reach-Settled {d} {c} (submits {w} {evs} {lost} ev r) o =
      let run = sym (submit-is_open w.sink ev) ∙ o in
      submit-Settled d c w ev evs lost run (Reach-Settled r run)
  Reach-Settled {d} {c} (receives {w} {evs} {lost} r) o =
      let m = receive-Moves w o in Moved-Settled d c w _ evs lost _ m (Reach-Settled r m.was_open)
  Reach-Settled {d} {c} (ticks {w} {evs} {lost} r) o =
      let m = tick-Moves w o in Moved-Settled d c w _ evs lost _ m (Reach-Settled r m.was_open)
  Reach-Settled {d} {c} (sweeps {w} {evs} {lost} now_ms late r) o =
      sweep-Settled d c now_ms w evs lost late (Reach-Settled r o)

  -- As long as the writer runs, the only accepted events that are lost are those whose `INSERT` SQLite has
  -- refused: of the rows not older than `c`, those of the store, the buffer and the channel, run together
  -- with the refused ones, are the rows that were there and one for each accepted event, in that order, if
  -- no sweep has come later than a day after `c`. An `INSERT` that fails leaves its transaction as it was.
  pub Reach-Kept :
      {d : Db} {c : ℕ} {w : Store base} {evs : List Event} {lost : List Row}
      → Reach base d c w evs lost
      → w.sink.is_open ≡ true
      → Merge (since_of c (held w)) (since_of c lost) (since_of c (rows d ++ map (row_of base) evs))
  Reach-Kept {d} {c} {w} {evs} {lost} r o =
      let h = Reach-Settled r o in
      rw (h.split, since_of-append c (rows w.db) (waiting w))
        (subst
          (λ ls.
            Merge (since_of c (rows w.db) ++ since_of c (waiting w)) ls
              (h.done ++ since_of c (waiting w)))
          (append-nil (since_of c lost))
          (Merge-append h.merged (Merge-all (since_of c (waiting w)))))
