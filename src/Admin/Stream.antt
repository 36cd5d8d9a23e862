-- ===== src/Admin/Stream.antt =====
-- `stream_events` of crates/waf-proxy/src/admin.rs: a frame of `/api/stream` each second, with the events that
-- have come since the last one. The JSON of a frame and the socket are not modelled.
use t1_waf.Prelude.{
  Text, nat_eq, ltb, lt→ltb, Bool-cases, take, drop, take-append-drop, false, ℕ, zero, suc, ◌≤◌,
  ◌<◌, ◌≡◌, refl, ap, ◌∙◌, sym, subst, ◌⊎◌, inl, inr, List, [], ◌∷◌, ◌++◌, arith,
}
use mathlib.Core.List.{append_assoc, append-nil}
use t1_waf.Events.{Event, newer, since}
use t1_waf.Conns
use t1_waf.Metrics
use t1_waf.Runtime.{PersistedRuntime, snapshot}
use t1_waf.Engine.{Env}
use t1_waf.Admin.Patch.{Patch}
use t1_waf.Admin.Routes.{Site, metrics_of}

-- `payload`
pub record Frame : Type 0 where
  pub metrics : Metrics.Snapshot
  pub runtime : PersistedRuntime
  pub in_flight_total : ℕ
  pub events : List Event
  pub ts_ms : ℕ

-- `last_event_ts` after a frame with these events
unfoldable pub mark : ℕ → List Event → ℕ
mark last [] = last
mark last (e ∷ es) = mark e.ts_ms es

-- events whose times grow, each past the one before it
abbrev pub Later : ℕ → List Event → Type 0
Later b [] = Unit
Later b (e ∷ es) = (b < e.ts_ms) × Later e.ts_ms es

Later-le : (a b : ℕ) (es : List Event) → a ≤ b → Later b es → Later a es
Later-le a b [] h l = tt
Later-le a b (e ∷ es) h l = (omega (arith, l.0), l.1)

newer_all : (s : ℕ) (es : List Event) → Later s es → newer s es ≡ es
unfolding newer
newer_all s [] l = refl
newer_all s (e ∷ es) l =
    let rest = newer_all s es (Later-le s e.ts_ms es (omega (arith, l.0)) l.1) in
    rw (lt→ltb s e.ts_ms l.0) (ap (λ zs. e ∷ zs) rest)

mark-take : (b n : ℕ) (es : List Event) → Later b es → b ≤ mark b (take n es)
unfolding mark
mark-take b zero es l = omega arith
mark-take b (suc n) [] l = omega arith
mark-take b (suc n) (e ∷ es) l = omega (arith, l.0, mark-take e.ts_ms n es l.1)

newer-drop : (b n : ℕ) (es : List Event) → Later b es → newer (mark b (take n es)) es ≡ drop n es
unfolding mark newer
newer-drop b zero es l = newer_all b es l
newer-drop b (suc n) [] l = refl
newer-drop b (suc n) (e ∷ es) l =
    let past = mark-take e.ts_ms n es l.1 in ground (arith, past, newer-drop e.ts_ms n es l.1)

newer-Later : (s b : ℕ) (es : List Event) → Later b es → Later s (newer s es)
unfolding newer
newer-Later s b [] l = tt
newer-Later s b (e ∷ es) l = elim (Bool-cases (ltb s e.ts_ms)) [
  | inl after ↦
      let same = newer_all s es (Later-le s e.ts_ms es (ground (arith, after)) l.1) in
      rw (after, same) (ground (arith, after), l.1)
  | inr before ↦ rw before (newer-Later s e.ts_ms es l.1)
]

drop_nil : (n : ℕ) → drop {A = Event} n [] ≡ []
drop_nil zero = refl
drop_nil (suc n) = refl

newer-skip :
    (s : ℕ) (e : Event) (es : List Event) → ltb s e.ts_ms ≡ false → newer s (e ∷ es) ≡ newer s es
unfolding newer
newer-skip s e es h = rw h refl

-- events that a mark has passed
abbrev pub Passed : ℕ → List Event → Type 0
Passed last [] = Unit
Passed last (e ∷ es) = (e.ts_ms ≤ last) × Passed last es

newer-Passed : (s : ℕ) (es : List Event) → Passed s es → newer s es ≡ []
unfolding newer
newer-Passed s [] p = refl
newer-Passed s (e ∷ es) p = ground (arith, p.0, newer-Passed s es p.1)

newer-append : (s : ℕ) (xs ys : List Event) → newer s (xs ++ ys) ≡ newer s xs ++ newer s ys
unfolding newer
newer-append s [] ys = refl
newer-append s (e ∷ es) ys = ground (arith, newer-append s es ys)

-- what is newer than the new mark is what the frame leaves out
newer-mark :
    (s b n : ℕ) (es : List Event)
    → Later b es
    → newer (mark s (take n (newer s es))) es ≡ drop n (newer s es)
unfolding newer
newer-mark s b n [] l = sym (drop_nil n)
newer-mark s b n (e ∷ es) l = elim (Bool-cases (ltb s e.ts_ms)) [
  | inl after ↦
      let all = newer_all s (e ∷ es) (ground (arith, after), l.1) in
      subst (λ z. newer (mark s (take n z)) (e ∷ es) ≡ drop n z) (sym all)
        (newer-drop s n (e ∷ es) (ground (arith, after), l.1))
  | inr before ↦
      let past = mark-take s n (newer s es) (newer-Later s e.ts_ms es l.1) in
      let m = mark s (take n (newer s es)) in
      subst (λ z. newer (mark s (take n z)) (e ∷ es) ≡ drop n z) (sym (newer-skip s e es before))
        (newer-skip m e es (ground (arith, before, past)) ∙ newer-mark s e.ts_ms n es l.1)
]

module _ (env : Env) (parse_patch : Text → Text ⊎ Patch) where
  open env use {net}

  -- a turn of the loop, with `last_event_ts`
  unfoldable pub stream_tick : Site env parse_patch → ℕ → ℕ → ℕ × Frame
  stream_tick s last now_ms =
      let e = s.proxy.engine in
      let evs = since e.events last 200 in
      (
        mark last evs,
        record {
          metrics = Metrics.snapshot (metrics_of env parse_patch s);
          runtime = snapshot net e.runtime;
          in_flight_total = Conns.total e.conns;
          events = evs;
          ts_ms = now_ms;
        },
      )

  abbrev pub ring : Site env parse_patch → List Event
  ring s = s.proxy.engine.events.inner

  -- The events that a frame shows, followed by those that are newer than the mark that it leaves, are those
  -- that are newer than the mark before it, if the times in the ring rise strictly.
  stream_tick-newer :
      (s : Site env parse_patch) (last now_ms b : ℕ)
      → Later b (ring s)
      → let out = stream_tick s last now_ms in
        out.1.events ++ newer out.0 (ring s) ≡ newer last (ring s)
  unfolding stream_tick since
  stream_tick-newer s last now_ms b l =
      let found = newer last (ring s) in
      ap (λ zs. take 200 found ++ zs) (newer-mark last b 200 (ring s) l)
      ∙ take-append-drop 200 found

  -- A stream that is being read. The indices are the mark and the ring before, the events that the frames
  -- show and those that come, in their order, and the mark and the ring after. Before a frame the ring drops
  -- its oldest events, of which each has been passed by the mark, and takes new ones, each past the mark.
  pub data Frames : ℕ → List Event → List Event → List Event → ℕ → List Event → Type 0 where
    none_yet : {last : ℕ} {before : List Event} → Frames last before [] [] last before
    frame :
        {last last' : ℕ} {shown came after : List Event} (s : Site env parse_patch) (now_ms b : ℕ)
        (gone kept new : List Event)
        → Passed last gone
        → Later last new
        → ring s ≡ kept ++ new
        → Later b (ring s)
        → Frames (stream_tick s last now_ms).0 (ring s) shown came last' after
        → Frames last
            (gone ++ kept)
            ((stream_tick s last now_ms).1.events ++ shown)
            (new ++ came)
            last'
            after

  -- Over any number of frames the stream shows each event once and in order: what the frames have shown,
  -- followed by what the ring holds past the last mark, is what the ring held past the first mark, followed
  -- by all events that have come. The times in the ring rise strictly at every frame, an event that comes is
  -- later than the mark, and the ring drops none before the mark has passed it.
  pub Frames-newer :
      {last last' : ℕ} {before shown came after : List Event}
      → Frames last before shown came last' after
      → shown ++ newer last' after ≡ newer last before ++ came
  Frames-newer {last} {before} none_yet = sym (append-nil (newer last before))
  Frames-newer
        (frame {last} {last'} {shown} {came} {after} s now_ms b gone kept new passed later r l f) =
      let out = stream_tick s last now_ms in
      let past : newer last (gone ++ kept) ≡ newer last kept =
        newer-append last gone kept
        ∙ ap (λ zs. zs ++ newer last kept) (newer-Passed last gone passed) in
      let held : newer last (ring s) ≡ newer last kept ++ new =
        ap (newer last) r
        ∙ (newer-append last kept new
            ∙ ap (λ zs. newer last kept ++ zs) (newer_all last new later)) in
      append_assoc out.1.events shown (newer last' after)
      ∙ (ap (λ zs. out.1.events ++ zs) (Frames-newer f)
          ∙ (sym (append_assoc out.1.events (newer out.0 (ring s)) came)
              ∙ (ap (λ zs. zs ++ came) (stream_tick-newer s last now_ms b l ∙ held)
                  ∙ (append_assoc (newer last kept) new came
                      ∙ ap (λ zs. zs ++ (new ++ came)) (sym past)))))
