-- ===== src/Tests/Site.antt =====
-- The theorems on the dashboard's interface, the event store and the proxy at a sample site.
use t1_waf.Admin.{strip_prefix}
use t1_waf.Admin.Routes.{addr_of, bad_request_of, calls, lift_ban, route_post}
use t1_waf.Prelude.{
  Option, if◌then◌else◌, ltb, length, Text, text, text_beq, nat_eq, text_eq, or_else, take, ℕ, ◌≤◌,
  ◌≡◌, refl, sym, ap, ◌≢◌, ◌⊎◌, inl, true, false, none, some, List, [], ◌∷◌, ◌++◌, map, arith,
}
use t1_waf.Prelude.Assoc.{lookup}
use t1_waf.Prelude.Cases.{if-ind}
use t1_waf.Strings.{starts_with}
use t1_waf.Action.{Action}
use t1_waf.Net.{parse_net}
use t1_waf.Runtime.{PersistedRuntime, persisted, apply_persisted}
use t1_waf.Runtime.Restart.{IsValid}
use t1_waf.Storage.{submit}
use t1_waf.Storage.Writer.{
  Row, Database, Store, receive, tick, row_of, flush, flush_full, action_name,
}
use t1_waf.Storage.Query.{series_of}
use t1_waf.Storage.Journal.{DatabaseLaws, since_of, feed, accept, receive_refused, tick_refused}
use t1_waf.Storage.Journal
use t1_waf.Storage.Journal.Bounds.{IsQueue, Reach-IsQueue}
use t1_waf.Storage.Journal.Merge.{Merge}
use t1_waf.Storage.Journal.Kept.{held, Reach-Kept}
use t1_waf.Storage.Series.{rows_at, charted, Ascends, series_of-charted}
use t1_waf.Events.{Event, event_of, newer}
use t1_waf.Decision
use t1_waf.Proxy.{request_filter, logging}
use t1_waf.Proxy.Balance.{Balanced, logging-request_filter}
use t1_waf.Admin.{ParsedReq, auth_ok}
use t1_waf.Admin.Patch.{Patch}
use t1_waf.Admin.Input.{Socket, read_head, starved, read_body}
use t1_waf.Admin.Input.Reading.{flatten, read_head-ends, read_body-flatten}
use t1_waf.Admin.Routes.{Site, route_api, unauthorized_of}
use t1_waf.Admin.Routes.Refusal.{route_api-refused}
use t1_waf.Admin.Serve.{answer, handle}
use t1_waf.Admin.Stream
use t1_waf.Admin.Stream.{stream_tick, ring, Passed, Later, Frames-newer}
use t1_waf.Admin.Lifetime
use t1_waf.Admin.Lifetime.{handle-unauthorized, Reach-restart}
use t1_waf.Tests.Samples.{
  dotted, plain, probe, sample_env, sample_engine, sample_runtime, single_nets, no_metrics,
}

-- a body that is never JSON
abbrev no_patch : Text → Text ⊎ Patch
no_patch s = inl s

abbrev sample_site : Site sample_env no_patch
sample_site = record {
  proxy = record { engine = sample_engine; metrics = no_metrics };
  bound = true;
  file = some (persisted single_nets sample_runtime);
  disk = true;
}

-- a request to lift a ban, without an address and without the token
abbrev unban_call : ParsedReq
unban_call = record {
  method = text "POST";
  path = text "/api/unban";
  query = [];
  headers = [];
  body = [];
}

unban_status : (route_api sample_env no_patch sample_site unban_call 0).1.status ≡ 400
unfolding route_api text_beq text route_post calls lift_ban addr_of lookup bad_request_of
unban_status = refl

route_api-refused_example : (route_api sample_env no_patch sample_site unban_call 0).0 ≡ sample_site
route_api-refused_example =
    route_api-refused sample_env no_patch sample_site unban_call 0
      (λ e. absurd (ground (arith, unban_status, e)))
      (λ e. absurd (ground (arith, unban_status, e)))

-- a store whose database is the list of its rows, and is full with one row
abbrev row_list : Database
row_list = record {
  Db = List Row;
  transaction = λ d. some d;
  insert = λ d r. if ltb 0 (length d) then none else some (d ++ (r ∷ []));
  commit = λ d. some d;
  delete_before = λ d c. since_of c d;
  select = λ d s u l. some [];
  select_series = λ d s u. some [];
  to_json = λ ev. [];
  from_json = λ s. none;
}

insert_one : (d e : List Row) (r : Row) → row_list.insert d r ≡ some e → e ≡ d ++ (r ∷ [])
insert_one d e r =
    if-ind (λ (o : Option (List Row)). o ≡ some e → e ≡ d ++ (r ∷ [])) (ltb 0 (length d))
      (λ full h. absurd (ground arith)) (λ room h. sym (ap (λ o. or_else o d) h))

abbrev row_list_laws : DatabaseLaws row_list
row_list_laws = record {
  rows = λ d. d;
  insert_rows = insert_one;
  transaction_rows = λ d e h. sym (ap (λ o. or_else o d) h);
  commit_rows = λ d e h. sym (ap (λ o. or_else o d) h);
  delete_rows = λ d c. inl refl;
}

denied : auth_ok unban_call sample_engine.runtime.auth_token ≡ false
unfolding auth_ok strip_prefix starts_with text lookup
denied = refl

handle-unauthorized_example :
    handle sample_env no_patch row_list sample_site none unban_call 0
    ≡ (sample_site, answer unauthorized_of)
unfolding starts_with text
handle-unauthorized_example =
    handle-unauthorized sample_env no_patch row_list sample_site none unban_call 0 refl denied

sample_runtime-IsValid : IsValid sample_runtime
sample_runtime-IsValid = record {
  level = omega arith;
  mode = omega arith;
  capitals = refl;
  token = refl;
}

-- the site after the disk has failed and a request for a trap has come
abbrev after_probe : Site sample_env no_patch
after_probe = record sample_site {
  proxy = (request_filter sample_env sample_site.proxy probe 5_000).0;
  disk = false;
}

after_probe-Reach : Lifetime.Reach sample_env no_patch row_list false after_probe
after_probe-Reach = Lifetime.request probe 5_000 (
    Lifetime.disk_turns false (
      Lifetime.start {s = sample_site} (record {
        valid = sample_runtime-IsValid;
        works = λ on. refl;
        saved = λ on. (sample_runtime, sample_runtime-IsValid, refl, λ always. refl);
      })))

Reach-restart_example :
    (after_probe.proxy.engine.runtime.uam_level ≤ 4)
    × (after_probe.proxy.engine.runtime.challenge_mode ≤ 2)
    × (p : PersistedRuntime) × (after_probe.file ≡ some p)
    × IsValid (apply_persisted single_nets p (record sample_runtime { turnstile_secret = [] }))
    × ((false ≡ false)
        ⊎ (apply_persisted single_nets p (record sample_runtime { turnstile_secret = [] })
            ≡ after_probe.proxy.engine.runtime))
unfolding parse_net
Reach-restart_example =
    Reach-restart sample_env no_patch row_list (record sample_runtime { turnstile_secret = [] })
      (λ n. refl) refl refl after_probe-Reach

read_head-ends_example : read_head 65_537 [] ((1 ∷ 2 ∷ []) ∷ []) ≢ starved
read_head-ends_example = read_head-ends 65_537 [] ((1 ∷ 2 ∷ []) ∷ []) (omega arith) (omega arith)

abbrev pieces : Socket
pieces = (2 ∷ 3 ∷ []) ∷ (4 ∷ 5 ∷ []) ∷ []

read_body-flatten_example :
    take 4 (read_body 4 4 (1 ∷ []) pieces) ≡ take 4 ((1 ∷ []) ++ flatten pieces)
read_body-flatten_example =
    read_body-flatten 4 4 (1 ∷ []) pieces (omega arith, (omega arith, tt)) (omega arith)

abbrev first_event : Event
first_event = event_of dotted plain (Decision.allow []) 7

-- the site with an event in the ring
abbrev busy_site : Site sample_env no_patch
busy_site = record sample_site {
  proxy = record sample_site.proxy {
    engine = record sample_engine {
      events = record { inner = event_of dotted plain (Decision.allow []) 9 ∷ []; cap = 3 };
    };
  };
}

-- the events of the ring at the first frame, of which the first has been shown before, and a new one
abbrev second_event : Event
second_event = event_of dotted plain (Decision.allow []) 9

first-Passed : Passed 7 (first_event ∷ [])
unfolding event_of
first-Passed = (omega arith, tt)

second-Later : Later 7 (second_event ∷ [])
unfolding event_of
second-Later = (omega arith, tt)

second_rises : Later 8 (ring sample_env no_patch busy_site)
unfolding event_of
second_rises = (omega arith, tt)

Frames-newer_example :
    ((stream_tick sample_env no_patch busy_site 7 2000).1.events ++ [])
      ++ newer
          (stream_tick sample_env no_patch busy_site 7 2000).0
          (ring sample_env no_patch busy_site)
    ≡ newer 7 ((first_event ∷ []) ++ []) ++ ((second_event ∷ []) ++ [])
Frames-newer_example = Frames-newer sample_env no_patch (
    Stream.frame {last = 7} busy_site 2000 8 (first_event ∷ []) [] (second_event ∷ []) first-Passed
      second-Later refl second_rises Stream.none_yet)

abbrev new_store : Store row_list
new_store = record {
  sink = record { channel = []; is_open = true; queued = 0; drained = 0; dropped = 0 };
  buf = [];
  db = [];
  written = 0;
}

-- two events are submitted and received, and the batch is written
abbrev fed : Store row_list
fed = feed row_list new_store first_event

abbrev fed_twice : Store row_list
fed_twice = feed row_list fed first_event

abbrev received : Store row_list
received = receive row_list fed_twice

abbrev buffered : Store row_list
buffered = receive row_list received

abbrev stored : Store row_list
stored = tick row_list buffered

abbrev accepted : List Event
accepted = accept fed.sink first_event (accept new_store.sink first_event [])

abbrev missing : List Row
missing =
    (([] ++ receive_refused row_list fed_twice) ++ receive_refused row_list received)
    ++ tick_refused row_list buffered

stored-Reach : Journal.Reach row_list [] 0 stored accepted missing
stored-Reach = Journal.ticks (
    Journal.receives
      (Journal.receives (Journal.submits first_event (Journal.submits first_event Journal.start))))

Reach-IsQueue_example : IsQueue row_list stored
Reach-IsQueue_example = Reach-IsQueue row_list stored-Reach

stored-is_open : stored.sink.is_open ≡ true
unfolding tick receive submit flush_full flush
stored-is_open = refl

Reach-Kept_example :
    Merge
      (since_of 0 (held row_list row_list_laws stored))
      (since_of 0 missing)
      (since_of 0 ([] ++ map (row_of row_list) accepted))
Reach-Kept_example = Reach-Kept row_list row_list_laws stored-Reach stored-is_open

-- the second event is refused
missing_one : length missing ≡ 1
unfolding receive_refused submit Journal.full_refused receive flush_full tick_refused
    Journal.flush_refused Journal.refused_in
missing_one = refl

abbrev sample_rows : List (ℕ × Text × ℕ)
sample_rows = (1, text "allow", 2) ∷ (1, text "block", 3) ∷ (4, text "allow", 1) ∷ []

sample_total : rows_at Action.allow 1 sample_rows ≡ 2
unfolding rows_at text_beq text action_name
sample_total = refl

series_of-charted_example :
    Ascends (series_of sample_rows)
    × (charted Action.allow 1 (series_of sample_rows) ≡ rows_at Action.allow 1 sample_rows)
series_of-charted_example =
    series_of-charted sample_rows Action.allow 1 (omega arith, (omega arith, (omega arith, tt)))
      (omega (arith, sample_total))

logging-request_filter_example : Balanced sample_env sample_site.proxy (
    logging sample_env
      (request_filter sample_env sample_site.proxy plain 5_000).0
      (request_filter sample_env sample_site.proxy plain 5_000).1
      false)
logging-request_filter_example =
    logging-request_filter sample_env sample_site.proxy plain 5_000 false tt
