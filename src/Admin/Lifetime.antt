-- ===== src/Admin/Lifetime.antt =====
-- The site over time: requests, calls of the dashboard and ticks of the automatic level, in any order.
use t1_waf.Prelude.{
  Text, text, text_beq, nat_eq, text_eq, ltb, ◌==◌, if◌then◌else◌, ℕ, ◌-◌, ◌/◌, ◌%◌, ◌^◌, ◌≤◌, ◌≡◌,
  refl, sym, ◌∙◌, subst, ◌⊎◌, inl, inr, Bool-cases, Bool, true, false, ◌&&◌, ◌||◌, not, Option,
  some, [], arith,
}
use t1_waf.Prelude.Cases.{if-ind}
use t1_waf.Strings.{starts_with}
use t1_waf.Request.{RequestCtx}
use t1_waf.Net.{parse_net}
use t1_waf.Runtime.{Runtime, PersistedRuntime, persisted, apply_persisted}
use t1_waf.Runtime.Restart.{IsValid, apply_persisted-persisted}
use t1_waf.Storage.Writer.{Database}
use t1_waf.AutoUam.{AutoUam, tick, next_level}
use t1_waf.Engine.{Env}
use t1_waf.Proxy.{Proxy, Handled, request_filter, logging}
use t1_waf.Proxy.Balance.{runtime-request_filter, runtime-logging}
use t1_waf.Admin.{ParsedReq, auth_ok}
use t1_waf.Admin.Patch.{Patch}
use t1_waf.Admin.Routes.{Site, persist, with_runtime, calls, unauthorized_of}
use t1_waf.Admin.Routes.Settled.{IsSettled, persist-IsSettled, route_api-IsSettled}
use t1_waf.Admin.Serve.{Reply, answer, handle}

next_level-le : (bps thresh cur : ℕ) → cur ≤ 4 → next_level bps thresh cur ≤ 4
unfolding next_level
next_level-le bps thresh cur h = ground arith

tick-IsValid :
    {Net : Type 0} (a : AutoUam) (r : Runtime Net) (blocks now : ℕ)
    → IsValid r
    → IsValid (tick a r blocks now).1
unfolding tick
tick-IsValid {Net} a r blocks now h =
    let bps = (blocks - a.prev_blocks) / 5 % 2 ^ 32 in
    let next = next_level bps r.auto_uam_threshold r.uam_level in
    let Ok = λ (out : AutoUam × Runtime Net). IsValid out.1 in
    if-ind Ok (not r.auto_uam_enabled) (λ _. h)
      (λ _.
        if-ind Ok (ltb (now - a.last_change) 30) (λ _. h)
          (λ _.
            if-ind Ok (next == r.uam_level) (λ _. h)
              (λ _. record {
                level = next_level-le bps r.auto_uam_threshold r.uam_level h.level;
                mode = h.mode;
                capitals = h.capitals;
                token = h.token;
              })))

module _ (env : Env) (parse_patch : Text → Text ⊎ Patch) (base : Database) where
  open env use {net}

  -- a tick of the automatic level on the site: a level that has changed is written to the file
  unfoldable pub auto_step : AutoUam → Site env parse_patch → ℕ → ℕ → AutoUam × Site env parse_patch
  auto_step a s blocks now =
      let out = tick a s.proxy.engine.runtime blocks now in
      if out.1.uam_level == s.proxy.engine.runtime.uam_level
      then (out.0, s)
      else (out.0, persist env parse_patch (with_runtime env parse_patch s out.1))

  -- A call of the interface without the token is answered with 401, and nothing has changed.
  pub handle-unauthorized :
      (s : Site env parse_patch) (store : Option base.Db) (req : ParsedReq) (now_ms : ℕ)
      → starts_with req.path (text "/api/") ≡ true
      → auth_ok req s.proxy.engine.runtime.auth_token ≡ false
      → handle env parse_patch base s store req now_ms ≡ (s, answer unauthorized_of)
  unfolding handle
  handle-unauthorized s store req now_ms path denied =
      let Denied = λ (out : Site env parse_patch × Reply). out ≡ (s, answer unauthorized_of) in
      let get = text_beq req.method (text "GET") in
      let no_token = λ (x : Site env parse_patch × Reply).
        if-ind Denied (auth_ok req s.proxy.engine.runtime.auth_token) {x = x}
          (λ ok. absurd (ground (arith, denied, ok))) (λ _. refl) in
      if-ind Denied (calls req (text "/api/stream") && get) (λ _. no_token _)
        (λ _.
          if-ind Denied
            ((calls req (text "/api/events/range") || calls req (text "/api/events/series")) && get)
            (λ _. no_token _)
            (λ _.
              if-ind Denied (starts_with req.path (text "/api/")) (λ _. no_token _)
                (λ other. absurd (ground (arith, path, other)))))

  -- What can happen to a site, with whether every write to the disk so far could succeed.
  pub data Reach : Bool → Site env parse_patch → Type 0 where
    start : {s : Site env parse_patch} → IsSettled env parse_patch true s → Reach true s
    -- the disk fills up, fails or recovers
    disk_turns :
        {up : Bool} {s : Site env parse_patch} (works : Bool)
        → Reach up s
        → Reach (up && works) (record s { disk = works })
    call :
        {up : Bool} {s : Site env parse_patch} (store : Option base.Db) (req : ParsedReq)
        (now_ms : ℕ)
        → Reach up s
        → Reach up (handle env parse_patch base s store req now_ms).0
    request :
        {up : Bool} {s : Site env parse_patch} (ctx : RequestCtx) (now_ms : ℕ)
        → Reach up s
        → Reach up (record s { proxy = (request_filter env s.proxy ctx now_ms).0 })
    request_ends :
        {up : Bool} {s : Site env parse_patch} (h : Handled) (failed : Bool)
        → Reach up s
        → Reach up (record s { proxy = logging env s.proxy h failed })
    auto_tick :
        {up : Bool} {s : Site env parse_patch} (a : AutoUam) (blocks now : ℕ)
        → Reach up s
        → Reach up (auto_step a s blocks now).1

  -- a site whose settings and file are those of a settled one
  moved-IsSettled :
      (up : Bool) (s : Site env parse_patch) (p : Proxy env)
      → p.engine.runtime ≡ s.proxy.engine.runtime
      → IsSettled env parse_patch up s
      → IsSettled env parse_patch up (record s { proxy = p })
  moved-IsSettled up s p same h = record {
    valid = subst IsValid (sym same) h.valid;
    works = h.works;
    saved = λ on.
        let (r, valid, held, now) = h.saved on in (r, valid, held, λ always. now always ∙ sym same);
  }

  turned-IsSettled :
      (up works : Bool) (s : Site env parse_patch)
      → IsSettled env parse_patch up s
      → IsSettled env parse_patch (up && works) (record s { disk = works })
  turned-IsSettled up works s h = record {
    valid = h.valid;
    works = λ both. ground (arith, both);
    saved = λ on.
        let (r, valid, held, now) = h.saved on in
        (r, valid, held, λ both. now (ground (arith, both)));
  }

  handle-IsSettled :
      (up : Bool) (s : Site env parse_patch) (store : Option base.Db) (req : ParsedReq) (now_ms : ℕ)
      → IsSettled env parse_patch up s
      → IsSettled env parse_patch up (handle env parse_patch base s store req now_ms).0
  unfolding handle
  handle-IsSettled up s store req now_ms h =
      let Ok = λ (out : Site env parse_patch × Reply). IsSettled env parse_patch up out.0 in
      let ok = auth_ok req s.proxy.engine.runtime.auth_token in
      let get = text_beq req.method (text "GET") in
      if-ind Ok (calls req (text "/api/stream") && get) (λ _. if-ind Ok ok (λ _. h) (λ _. h))
        (λ _.
          if-ind Ok
            ((calls req (text "/api/events/range") || calls req (text "/api/events/series")) && get)
            (λ _. if-ind Ok ok (λ _. h) (λ _. h))
            (λ _.
              if-ind Ok (starts_with req.path (text "/api/"))
                (λ _.
                  if-ind Ok ok (λ _. route_api-IsSettled env parse_patch up s req (now_ms / 1000) h)
                    (λ _. h))
                (λ _. h)))

  auto_step-IsSettled :
      (up : Bool) (a : AutoUam) (s : Site env parse_patch) (blocks now : ℕ)
      → IsSettled env parse_patch up s
      → IsSettled env parse_patch up (auto_step a s blocks now).1
  unfolding auto_step with_runtime
  auto_step-IsSettled up a s blocks now h =
      let out = tick a s.proxy.engine.runtime blocks now in
      let Ok = λ (o : AutoUam × Site env parse_patch). IsSettled env parse_patch up o.1 in
      if-ind Ok (out.1.uam_level == s.proxy.engine.runtime.uam_level) (λ _. h)
        (λ _.
          persist-IsSettled env parse_patch up s _ h
            (tick-IsValid a s.proxy.engine.runtime blocks now h.valid))

  Reach-IsSettled :
      {up : Bool} {s : Site env parse_patch} → Reach up s → IsSettled env parse_patch up s
  Reach-IsSettled (start h) = h
  Reach-IsSettled (disk_turns {up} {s} works r) = turned-IsSettled up works s (Reach-IsSettled r)
  Reach-IsSettled (call {up} {s} store req now_ms r) =
      handle-IsSettled up s store req now_ms (Reach-IsSettled r)
  Reach-IsSettled (request {up} {s} ctx now_ms r) =
      moved-IsSettled up s _ (runtime-request_filter env s.proxy ctx now_ms) (Reach-IsSettled r)
  Reach-IsSettled (request_ends {up} {s} h failed r) =
      moved-IsSettled up s _ (runtime-logging env s.proxy h failed) (Reach-IsSettled r)
  Reach-IsSettled (auto_tick {up} {s} a blocks now r) =
      auto_step-IsSettled up a s blocks now (Reach-IsSettled r)

  -- Start with a bound file that holds the settings, and with valid ones: a level of 4 at most, a mode of 2 at
  -- most, countries in capitals, a token that is not empty. Whatever requests, calls of the dashboard, ticks
  -- of the automatic level and failures of the disk come then, the level and the mode stay in range, and a
  -- process that is started on the file, with no secret of its own, has valid settings: if no write could
  -- fail, the very settings of this one, the lists of addresses and the secret of the captcha included. A
  -- block that is printed is assumed to parse to itself. The list of traps is not among the settings.
  pub Reach-restart :
      {up : Bool} {s : Site env parse_patch} (fresh : Runtime net.Net)
      → ((n : net.Net) → parse_net net (net.show n) ≡ some n)
      → fresh.turnstile_secret ≡ []
      → s.bound ≡ true
      → Reach up s
      → (s.proxy.engine.runtime.uam_level ≤ 4)
        × (s.proxy.engine.runtime.challenge_mode ≤ 2)
        × (p : PersistedRuntime) × (s.file ≡ some p)
        × IsValid (apply_persisted net p fresh)
        × ((up ≡ false) ⊎ (apply_persisted net p fresh ≡ s.proxy.engine.runtime))
  Reach-restart {up} {s} fresh back blank bound r =
      let h = Reach-IsSettled r in
      let (was, valid, held, now) = h.saved bound in
      let again = apply_persisted-persisted net was fresh back valid blank in
      (
        h.valid.level,
        h.valid.mode,
        persisted net was,
        held,
        subst IsValid (sym again) valid,
        elim (Bool-cases up) [ inl always ↦ inr (again ∙ now always) | inr failed ↦ inl failed ],
      )
