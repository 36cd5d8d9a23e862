-- ===== src/Admin/Routes.antt =====
-- `route_api` of crates/waf-proxy/src/admin.rs: the calls of the dashboard, with what they change and what they
-- answer. An answer's body is the value that `serde_json` prints.
pub mod Refusal
pub mod Settled
use t1_waf.Admin.{parse_u64}
use t1_waf.Prelude.{
  Text, text, decimal, text_beq, nat_eq, text_eq, Eq, is_some, or_else, ltb, leb, ◌==◌,
  if◌then◌else◌, ltb→lt, lt→ltb, leb→le, le→leb, lt→leb_false, le→ltb_false, ==_iff, Bool-cases,
  Option-cases, length, get_elem?, set, length-append, length-set, get_elem?-set_self,
  get_elem?-set_ne, get_or, take, drop, replicate, take-append-drop, length-take, length-drop,
  length-replicate, length-map, u32_max, u64_mod, sat_add, add64, add32, ℕ, zero, suc, ◌+◌, ◌-◌,
  ◌*◌, ◌/◌, ◌%◌, ◌^◌, ◌≤◌, ◌<◌, min, max, ◌≡◌, refl, sym, ap, ◌∙◌, subst, ◌≢◌, ◌↔◌, ◌⊎◌, inl, inr,
  Bool, true, false, ◌&&◌, ◌||◌, not, Option, none, some, List, [], ◌∷◌, ◌++◌, map, arith, dec_lt,
  dec_le, ℕ_discrete,
}
use t1_waf.Prelude.Assoc.{lookup}
use t1_waf.Strings.{starts_with}
use t1_waf.Request.{IpAddr}
use t1_waf.Conns
use t1_waf.Subnet.{tracked}
use t1_waf.GoodBot
use t1_waf.GoodBot.{VerifyEntry}
use t1_waf.Reputation.{unban, banned_state}
use t1_waf.Events.{Event, recent, since}
use t1_waf.Metrics
use t1_waf.Metrics.{Metrics}
use t1_waf.Storage.Query.{TimeBucket}
use t1_waf.Runtime.{
  Runtime, PersistedRuntime, snapshot, persisted, add_allow, add_deny, remove_allow, remove_deny,
}
use t1_waf.Engine.{Env, Engine}
use t1_waf.Engine.Pipeline.{Core}
use t1_waf.Proxy.{Proxy}
use t1_waf.Admin.{ParsedReq, auth_ok, parse_range, number_of}
use t1_waf.Admin.Patch.{Patch, apply_patch}

-- what an answer shows
pub data Body : Type 0 where
  empty ok unauthorized not_found : Body
  -- the message of `bad_request`, and that of a block that does not parse
  bad_request : Text → Body
  bad_cidr : Body
  state_body : Metrics.Snapshot → PersistedRuntime → ℕ → ℕ → Body
  events_body : List Event → Body
  bots_body : List VerifyEntry → Body
  banned_body : List (Text × ℕ) → Body
  runtime_body : PersistedRuntime → Body
  level_body : ℕ → Body
  attack_body : Bool → Body
  series_body : List TimeBucket → Body
  asset : Text → Body

pub record Response : Type 0 where
  pub status : ℕ
  pub ctype : Text
  pub body : Body

abbrev pub json : Text
json = text "application/json"

-- `ok_json`, `bad_request`, and the answers without a body, of a missing token and of an unknown path
unfoldable pub ok_json : Body → Response
ok_json b = record { status = 200; ctype = json; body = b }

unfoldable pub bad_request_of : Body → Response
bad_request_of b = record { status = 400; ctype = json; body = b }

unfoldable pub no_content : Response
no_content = record { status = 204; ctype = text "text/plain"; body = empty }

unfoldable pub not_found_of : Response
not_found_of = record { status = 404; ctype = json; body = not_found }

unfoldable pub unauthorized_of : Response
unauthorized_of = record { status = 401; ctype = json; body = unauthorized }

unfoldable pub calls : ParsedReq → Text → Bool
calls req p = text_beq req.path p

-- whether a flag of the query is `true`
unfoldable pub is_on : ParsedReq → Text → Bool
is_on req k = elim (lookup k req.query) [ none ↦ false | some v ↦ text_beq v (text "true") ]

-- `parse::<u8>()`
unfoldable pub parse_u8 : Text → Option ℕ
parse_u8 s = elim (parse_u64 s) [ none ↦ none | some n ↦ if ltb n 256 then some n else none ]

-- the level that `POST /api/uam` sets
unfoldable pub level_of : ParsedReq → ℕ
level_of req = if is_on req (text "panic") then 4 else elim (lookup (text "level") req.query) [
  | none ↦ 0
  | some s ↦ min (or_else (parse_u8 s) 0) 4
]

module _ (env : Env) (parse_patch : Text → Text ⊎ Patch) where
  open env use {net, ip_text}

  -- The proxy with its settings' file: whether a path is bound, what was written last, and whether the disk
  -- takes a write at the moment.
  pub record Site : Type 0 where
    pub proxy : Proxy env
    pub bound : Bool
    pub file : Option PersistedRuntime
    pub disk : Bool

  -- `Runtime::persist`: if the write or the rename fails, the file is as before, and the caller ignores it
  unfoldable pub persist : Site → Site
  persist s = record s {
    file = (if s.bound && s.disk then some (persisted net s.proxy.engine.runtime) else s.file);
  }

  unfoldable pub with_runtime : Site → Runtime net.Net → Site
  with_runtime s r = record s {
    proxy = record s.proxy { engine = record s.proxy.engine { runtime = r } };
  }

  -- the counters of the metrics; that of limited requests is kept with the engine
  unfoldable pub metrics_of : Site → Metrics
  metrics_of s = record s.proxy.metrics { rate_limited = s.proxy.engine.rate_limited }

  unfoldable pub banned_list : List (IpAddr × ℕ) → List (Text × ℕ)
  banned_list [] = []
  banned_list ((ip, ttl) ∷ bs) = (ip_text ip, ttl) ∷ banned_list bs

  -- the events of `GET /api/events`
  unfoldable pub events_of : Site → ParsedReq → List Event
  events_of s req =
      let log = s.proxy.engine.events in
      let from = or_else (number_of (lookup (text "since") req.query)) 0 in
      let limit = min (or_else (number_of (lookup (text "limit") req.query)) 100) 500 in
      if ltb 0 from then since log from limit else recent log limit

  -- the calls of `route_api` that read
  unfoldable pub route_get : Site → ParsedReq → ℕ → Response
  route_get s req now =
      let e = s.proxy.engine in
      if calls req (text "/api/state")
      then ok_json (
          state_body (Metrics.snapshot (metrics_of s))
            (record (snapshot net e.runtime) { honeypot_paths = some e.honeypots })
            (Conns.total e.conns) (tracked e.subnets))
      else if calls req (text "/api/events")
      then ok_json (events_body (events_of s req))
      else if calls req (text "/api/goodbots")
      then ok_json (bots_body (GoodBot.snapshot ip_text e.goodbot now))
      else if calls req (text "/api/banned")
      then ok_json (banned_body (banned_list (banned_state e.reputations.state now)))
      else not_found_of

  -- `POST /api/runtime`
  unfoldable pub set_runtime : Site → ParsedReq → Site × Response
  set_runtime s req = elim (parse_patch req.body) [
    | inl e ↦ (s, bad_request_of (bad_request (text "invalid json: " ++ e)))
    | inr p ↦
        let r = apply_patch p s.proxy.engine.runtime in
        let s1 = with_runtime s r in
        let s2 : Site = record s1 {
          proxy = record s1.proxy {
            engine = record s1.proxy.engine {
              honeypots = or_else p.honeypot_paths s.proxy.engine.honeypots;
            };
          };
        } in
        (persist s2, ok_json (runtime_body (snapshot net r)))
  ]

  -- `with_cidr`, with the operation of the settings; on success the operation ends with `persist`
  unfoldable pub with_cidr :
      Site → ParsedReq → (Runtime net.Net → Text → Option (Runtime net.Net)) → Site × Response
  with_cidr s req f = elim (lookup (text "cidr") req.query) [
    | none ↦ (s, bad_request_of (bad_request (text "missing cidr")))
    | some c ↦ elim (f s.proxy.engine.runtime c) [
      | none ↦ (s, bad_request_of bad_cidr)
      | some r ↦ (persist (with_runtime s r), no_content)
    ]
  ]

  -- the address of `?ip=`
  unfoldable pub addr_of : ParsedReq → Option IpAddr
  addr_of req = elim (lookup (text "ip") req.query) [ none ↦ none | some t ↦ net.parse_ip t ]

  -- `POST /api/unban`
  unfoldable pub lift_ban : Site → ParsedReq → Site × Response
  lift_ban s req = elim (addr_of req) [
    | none ↦ (s, bad_request_of (bad_request (text "missing ip")))
    | some ip ↦ (
      record s {
        proxy = record s.proxy {
          engine = record s.proxy.engine { reputations = unban net s.proxy.engine.reputations ip };
        };
      },
      no_content,
    )
  ]

  -- the calls of `route_api` that write
  unfoldable pub route_post : Site → ParsedReq → Site × Response
  route_post s req =
      let r = s.proxy.engine.runtime in
      if calls req (text "/api/runtime")
      then set_runtime s req
      else if calls req (text "/api/uam")
      then (
        persist (with_runtime s (record r { uam_level = level_of req })),
        ok_json (level_body (level_of req)),
      )
      else if calls req (text "/api/under_attack")
      then (
        persist (with_runtime s (record r { under_attack = is_on req (text "on") })),
        ok_json (attack_body (is_on req (text "on"))),
      )
      else if calls req (text "/api/ip/allow")
      then with_cidr s req (add_allow net)
      else if calls req (text "/api/ip/deny")
      then with_cidr s req (add_deny net)
      else if calls req (text "/api/ip/unallow")
      then with_cidr s req (remove_allow net)
      else if calls req (text "/api/ip/undeny")
      then with_cidr s req (remove_deny net)
      else if calls req (text "/api/unban")
      then lift_ban s req
      else (s, not_found_of)

  -- `route_api`
  unfoldable pub route_api : Site → ParsedReq → ℕ → Site × Response
  route_api s req now =
      if text_beq req.method (text "GET")
      then (s, route_get s req now)
      else if text_beq req.method (text "POST")
      then route_post s req
      else (s, not_found_of)
