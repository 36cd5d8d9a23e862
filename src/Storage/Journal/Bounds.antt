-- ===== src/Storage/Journal/Bounds.antt =====
-- How much the queue of events and the writer's buffer hold.
use t1_waf.Storage.Writer.{Row}
use t1_waf.Prelude.{
  nat_eq, text_eq, ltb, leb, length, length-append, ℕ, ◌+◌, ◌-◌, ◌≤◌, ◌<◌, ◌≡◌, refl, ap, ◌∙◌, true,
  false, List, [], ◌∷◌, ◌++◌, arith,
}
use t1_waf.Prelude.Cases.{if-ind, option-ind, list-ind}
use t1_waf.Storage.Journal.{feed, Reach, start, submits, receives, ticks, sweeps}
use t1_waf.Events.{Event}
use t1_waf.Storage.{Sink, submit, is_full, max_queue}
use t1_waf.Storage.Writer.{
  Database, Store, insert_all, stop, flush, sweep, tick, flush_full, receive, flush_batch,
}

module _ (base : Database) where
  open base use {Db}

  -- the counters tell the depth, the depth is bounded, and what is written is counted
  pub record IsFed (w : Store base) : Type 0 where
    pub depth :
        w.sink.is_open ≡ true
        → w.sink.drained + (length w.buf + length w.sink.channel) ≡ w.sink.queued
    pub bounded : length w.buf + length w.sink.channel ≤ max_queue + 1
    pub closed : w.sink.is_open ≡ false → (w.buf ≡ []) × (w.sink.channel ≡ [])
    pub counted : w.written ≡ w.sink.drained

  -- and the buffer of the writer is below a batch
  pub record IsQueue (w : Store base) : Type 0 where
    pub fed : IsFed w
    pub batch : length w.buf < flush_batch

  stop-IsQueue : (w : Store base) → IsFed w → IsQueue (stop base w)
  unfolding stop
  stop-IsQueue w h = record {
    fed = record {
      depth = λ e. ground arith;
      bounded = omega arith;
      closed = λ e. (refl, refl);
      counted = h.counted;
    };
    batch = omega arith;
  }

  flush-IsQueue : (w : Store base) → IsFed w → IsQueue (flush base w)
  unfolding flush
  flush-IsQueue w h =
      option-ind IsQueue (base.transaction w.db) (λ _. stop-IsQueue w h)
        (λ t began.
          option-ind IsQueue (base.commit (insert_all base t w.buf)) (λ _. stop-IsQueue w h)
            (λ d done. record {
              fed = record {
                depth = λ e. ground (arith, h.depth e);
                bounded = ground (arith, h.bounded);
                closed = λ e. (refl, (h.closed e).1);
                counted = ground (arith, h.counted);
              };
              batch = omega arith;
            }))

  tick-IsQueue : (w : Store base) → IsQueue w → IsQueue (tick base w)
  unfolding tick
  tick-IsQueue w h = list-ind IsQueue w.buf (λ _. h) (λ ev evs e. flush-IsQueue w h.fed)

  -- an event has moved from the channel to the buffer
  abbrev moved : Store base → Event → List Event → Store base
  moved w ev evs = record w { sink = record w.sink { channel = evs }; buf = w.buf ++ (ev ∷ []) }

  moved-IsFed :
      (w : Store base) (ev : Event) (evs : List Event)
      → w.sink.channel ≡ ev ∷ evs
      → IsFed w
      → IsFed (moved w ev evs)
  moved-IsFed w ev evs e h =
      let same : length w.sink.channel ≡ length evs + 1 = ap (length {0}) e ∙ omega arith in
      let more = length-append {0} w.buf (ev ∷ []) in
      record {
        depth = λ o. ground (arith, h.depth o, same, more);
        bounded = ground (arith, h.bounded, same, more);
        closed = λ o. absurd (ground (arith, ap (length {0}) (h.closed o).1, same));
        counted = h.counted;
      }

  flush_full-IsQueue : (w : Store base) → IsFed w → IsQueue (flush_full base w)
  unfolding flush_full
  flush_full-IsQueue w h =
      if-ind IsQueue (leb flush_batch (length w.buf)) (λ _. flush-IsQueue w h)
        (λ few. record { fed = h; batch = ground arith })

  receive-IsQueue : (w : Store base) → IsQueue w → IsQueue (receive base w)
  unfolding receive
  receive-IsQueue w h =
      list-ind IsQueue w.sink.channel (λ _. h)
        (λ ev evs e. flush_full-IsQueue (moved w ev evs) (moved-IsFed w ev evs e h.fed))

  submit-IsQueue : (w : Store base) (ev : Event) → IsQueue w → IsQueue (feed base w ev)
  unfolding submit is_full
  submit-IsQueue w ev h =
      let Fed = λ (out : Sink). IsQueue (record w { sink = out }) in
      let more = length-append {0} w.sink.channel (ev ∷ []) in
      if-ind Fed (ltb max_queue (w.sink.queued - w.sink.drained))
        (λ full. record {
          fed = record {
            depth = h.fed.depth;
            bounded = h.fed.bounded;
            closed = h.fed.closed;
            counted = h.fed.counted;
          };
          batch = h.batch;
        })
        (λ room.
          if-ind Fed w.sink.is_open
            (λ open_now. record {
              fed = record {
                depth = λ o. ground (arith, h.fed.depth o, more);
                bounded = ground (arith, h.fed.depth open_now, more);
                closed = λ o. absurd (ground arith);
                counted = h.fed.counted;
              };
              batch = h.batch;
            })
            (λ shut. record {
              fed = record {
                depth = λ o. absurd (ground arith);
                bounded = h.fed.bounded;
                closed = h.fed.closed;
                counted = h.fed.counted;
              };
              batch = h.batch;
            }))

  -- However events are submitted and written, the channel and the writer's buffer together never hold more
  -- than 16385 events and the buffer never 512; while the writer runs, the difference of the two counters is
  -- the number of events that wait; the events that are counted as written are those that were drained.
  pub Reach-IsQueue :
      {d : Db} {c : ℕ} {w : Store base} {evs : List Event} {lost : List Row}
      → Reach base d c w evs lost
      → IsQueue w
  unfolding sweep
  Reach-IsQueue start = record {
    fed = record {
      depth = λ o. refl;
      bounded = omega arith;
      closed = λ o. absurd (ground arith);
      counted = refl;
    };
    batch = omega arith;
  }
  Reach-IsQueue (submits {w} ev r) = submit-IsQueue w ev (Reach-IsQueue r)
  Reach-IsQueue (receives {w} r) = receive-IsQueue w (Reach-IsQueue r)
  Reach-IsQueue (ticks {w} r) = tick-IsQueue w (Reach-IsQueue r)
  Reach-IsQueue (sweeps {w} now_ms h r) =
      let q = Reach-IsQueue r in
      record {
        fed = record {
          depth = q.fed.depth;
          bounded = q.fed.bounded;
          closed = q.fed.closed;
          counted = q.fed.counted;
        };
        batch = q.batch;
      }
