-- ===== src/Storage.antt =====
-- crates/waf-core/src/storage.rs: the event store. This file holds `Sink`, the queue in front of it; the
-- children hold the writer task and the queries. The SQLite file is a parameter, `Database`.
pub mod Writer
pub mod Query
pub mod Journal
pub mod Buckets
pub mod Series
use t1_waf.Prelude.{
  Text, text, decimal, text_beq, nat_eq, text_eq, Eq, is_some, or_else, ltb, leb, ◌==◌,
  if◌then◌else◌, ltb→lt, lt→ltb, leb→le, le→leb, lt→leb_false, le→ltb_false, ==_iff, Bool-cases,
  Option-cases, length, get_elem?, set, length-append, length-set, get_elem?-set_self,
  get_elem?-set_ne, get_or, take, drop, replicate, take-append-drop, length-take, length-drop,
  length-replicate, length-map, u32_max, u64_mod, sat_add, add64, add32, ℕ, zero, suc, ◌+◌, ◌-◌,
  ◌*◌, ◌/◌, ◌%◌, ◌^◌, ◌≤◌, ◌<◌, min, max, ◌≡◌, refl, sym, ap, ◌∙◌, subst, ◌≢◌, ◌↔◌, ◌⊎◌, inl, inr,
  Bool, true, false, ◌&&◌, ◌||◌, not, Option, none, some, List, [], ◌∷◌, ◌++◌, map, arith, dec_lt,
  dec_le, ℕ_discrete,
}
use t1_waf.Events.{Event}

abbrev pub max_queue : ℕ
max_queue = 16_384

-- `Sink`: the channel, newest last, whether its receiver lives, and the counters, two of which tell the
-- number of events that have not been written
pub record Sink : Type 0 where
  pub channel : List Event
  pub is_open : Bool
  pub queued : ℕ
  pub drained : ℕ
  pub dropped : ℕ

-- whether `submit` turns an event away
unfoldable pub is_full : Sink → Bool
is_full s = ltb max_queue (s.queued - s.drained)

-- `Sink::submit`
unfoldable pub submit : Sink → Event → Sink
unfolding is_full
submit s ev =
    if is_full s
    then record s { dropped = s.dropped + 1 }
    else if s.is_open
    then record s { channel = s.channel ++ (ev ∷ []); queued = s.queued + 1 }
    else record s { queued = s.queued + 1; dropped = s.dropped + 1 }
