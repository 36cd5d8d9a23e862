-- ===== src/Engine/Outlawed.antt =====
-- A ban that runs stays in force, whatever requests come.
use t1_waf.Prelude.{
  nat_eq, text_eq, ltb, lt→ltb, Bool-cases, ℕ, ◌/◌, ◌≤◌, ◌<◌, ◌≡◌, sym, ap, ◌∙◌, subst, inl, ◌-◌,
  ◌*◌, Bool, inr, true, false, ◌||◌, some, List, [], ◌∷◌, arith,
}
use t1_waf.Prelude.Assoc.{lookup, retain}
use t1_waf.Request.{IpAddr, RequestCtx, ip_eq, ip_beq_iff}
use t1_waf.Net.{any_contains}
use t1_waf.Action
use t1_waf.Reputation
use t1_waf.Reputation.{HitState, Reputations, Reputation, gc}
use t1_waf.Engine.{Env, finalize}
use t1_waf.Engine.Pipeline.{Core, evaluate}
use t1_waf.Engine.Access.{evaluate-banned}
use t1_waf.Engine.Frame.{evaluate-Framed}

-- a sweep that keeps an entry still finds it
lookup-retain_kept :
    (p : IpAddr → HitState → Bool) (ip : IpAddr) (s : HitState) (m : List (IpAddr × HitState))
    → lookup ip m ≡ some s
    → p ip s ≡ true
    → lookup ip (retain p m) ≡ some s
unfolding lookup retain
lookup-retain_kept p ip s [] h k = absurd (ground arith)
lookup-retain_kept p ip s ((jp, v) ∷ m) h k = elim (Bool-cases (ip_eq.beq jp ip)) [
  | inl same ↦
      let at : jp ≡ ip = (ip_beq_iff jp ip).0 same in
      let found : v ≡ s = ground (arith, same, h) in
      let stays : p jp v ≡ true = rw (at, found) k in rw stays (ground (arith, same, found))
  | inr other ↦
      let rest = lookup-retain_kept p ip s m (ground (arith, other, h)) k in
      ground (arith, other, rest)
]

module _ (env : Env) where
  open env use {net}

  -- What can happen to an engine before the second `until`: requests are evaluated, the bans are swept, and
  -- what is neither a setting nor a list nor a ban changes in any way.
  pub data Since (e : Core env) (until : ℕ) : Core env → Type 0 where
    at_once : Since e until e
    request :
        {e' : Core env} (ctx : RequestCtx) (t : ℕ)
        → t / 1000 < until
        → Since e until e'
        → Since e until (evaluate env e' ctx t).0
    sweep :
        {e' : Core env} (now : ℕ)
        → now < until
        → Since e until e'
        → Since e until (record e' { reputations = gc net e'.reputations now })
    elsewhere :
        {e' e'' : Core env}
        → e''.runtime ≡ e'.runtime
        → e''.reputations ≡ e'.reputations
        → Since e until e'
        → Since e until e''

  -- no allow list holds the address, and its ban runs until then at least
  pub record Outlawed (ip : IpAddr) (until : ℕ) (e : Core env) : Type 0 where
    pub unlisted : any_contains net e.runtime.allow ip ≡ false
    pub not_allowed : any_contains net e.reputations.allow ip ≡ false
    pub ban : (s : HitState) × (lookup ip e.reputations.state ≡ some s) × (until ≤ s.ban_until)

  Outlawed-is_banned :
      (ip : IpAddr) (until at : ℕ) (e : Core env)
      → Outlawed ip until e
      → at < until
      → Reputation.is_banned net e.reputations ip at ≡ true
  unfolding Reputation.is_banned
  Outlawed-is_banned ip until at e h soon =
      let (s, found, lasts) = h.ban in
      ground (arith, found, lt→ltb at s.ban_until (omega (arith, lasts, soon)))

  -- the own requests of a banned address are turned away before they are looked at
  evaluate-denied :
      (e : Core env) (ctx : RequestCtx) (t : ℕ)
      → any_contains net e.runtime.allow ctx.client_ip ≡ false
      → any_contains net e.reputations.allow ctx.client_ip ≡ false
      → Reputation.is_banned net e.reputations ctx.client_ip (t / 1000) ≡ true
      → (evaluate env e ctx t).0.reputations ≡ e.reputations
  unfolding evaluate finalize Reputation.classify
  evaluate-denied e ctx t unlisted not_allowed banned = ground arith

  moved-Outlawed :
      (ip : IpAddr) (until : ℕ) (e e' : Core env)
      → e'.runtime ≡ e.runtime
      → e'.reputations.allow ≡ e.reputations.allow
      → lookup ip e'.reputations.state ≡ lookup ip e.reputations.state
      → Outlawed ip until e
      → Outlawed ip until e'
  moved-Outlawed ip until e e' settings allow same h =
      let (s, found, lasts) = h.ban in
      record {
        unlisted = rw settings h.unlisted;
        not_allowed = rw allow h.not_allowed;
        ban = (s, same ∙ found, lasts);
      }

  request-Outlawed :
      (ip : IpAddr) (until : ℕ) (e : Core env) (ctx : RequestCtx) (t : ℕ)
      → t / 1000 < until
      → Outlawed ip until e
      → Outlawed ip until (evaluate env e ctx t).0
  request-Outlawed ip until e ctx t soon h =
      let f = evaluate-Framed env e ctx t in
      elim (Bool-cases (ip_eq.beq ctx.client_ip ip)) [
        | inl own ↦
            let who : ip ≡ ctx.client_ip = sym ((ip_beq_iff ctx.client_ip ip).0 own) in
            let same =
              evaluate-denied e ctx t
                (subst (λ i. any_contains net e.runtime.allow i ≡ false) who h.unlisted)
                (subst (λ i. any_contains net e.reputations.allow i ≡ false) who h.not_allowed)
                (subst (λ i. Reputation.is_banned net e.reputations i (t / 1000) ≡ true) who
                  (Outlawed-is_banned ip until (t / 1000) e h soon)) in
            moved-Outlawed ip until e _ f.same_runtime
              (ap (λ (r : Reputations net.Net). r.allow) same)
              (ap (λ (r : Reputations net.Net). lookup ip r.state) same) h
        | inr other ↦
            moved-Outlawed ip until e _ f.same_runtime f.same_bans.same_allow
              (f.same_bans.others ip other) h
      ]

  sweep-Outlawed :
      (ip : IpAddr) (until now : ℕ) (e : Core env)
      → now < until
      → Outlawed ip until e
      → Outlawed ip until (record e { reputations = gc net e.reputations now })
  unfolding gc
  sweep-Outlawed ip until now e soon h =
      let (s, found, lasts) = h.ban in
      let runs : ltb now s.ban_until ≡ true = lt→ltb now s.ban_until (omega (arith, lasts, soon)) in
      record {
        unlisted = h.unlisted;
        not_allowed = h.not_allowed;
        ban = (
          s,
          lookup-retain_kept
              (λ _ s.
                ltb now s.ban_until || ltb (now - s.first_hit) (e.reputations.window_secs * 2))
              ip s e.reputations.state found (ground (arith, runs)),
          lasts,
        );
      }

  Since-Outlawed :
      {e : Core env} {until : ℕ} {e' : Core env} (ip : IpAddr)
      → Since e until e'
      → Outlawed ip until e
      → Outlawed ip until e'
  Since-Outlawed ip at_once h = h
  Since-Outlawed {until} ip (request {e'} ctx t soon r) h =
      request-Outlawed ip until e' ctx t soon (Since-Outlawed ip r h)
  Since-Outlawed {until} ip (sweep {e'} now soon r) h =
      sweep-Outlawed ip until now e' soon (Since-Outlawed ip r h)
  Since-Outlawed {until} ip (elsewhere {e'} {e''} settings bans r) h =
      moved-Outlawed ip until e' e'' settings (ap (λ (b : Reputations net.Net). b.allow) bans)
        (ap (λ (b : Reputations net.Net). lookup ip b.state) bans) (Since-Outlawed ip r h)

  -- a request of the address, at any time before the end
  pub Outlawed-block :
      {e e' : Core env} {until : ℕ} (next : RequestCtx) (later : ℕ)
      → Outlawed next.client_ip until e
      → Since e until e'
      → later / 1000 < until
      → ((evaluate env e' next later).1.action ≡ Action.block)
        × ((evaluate env e' next later).1.status ≡ 403)
  Outlawed-block {e} {e'} {until} next later h r soon =
      let now = Since-Outlawed next.client_ip r h in
      let banned = Outlawed-is_banned next.client_ip until (later / 1000) e' now soon in
      evaluate-banned env e' next later now.unlisted now.not_allowed (ground (arith, banned))
