-- ===== src/Engine/Traps.antt =====
-- A request for a trap bans its address.
use t1_waf.Prelude.{
  nat_eq, text_eq, if◌then◌else◌, u64_mod, ℕ, ◌+◌, ◌/◌, ◌<◌, ◌≡◌, refl, sym, ap, ◌∙◌, subst, true,
  false, none, arith,
}
use t1_waf.Prelude.Cases.{if-ind, option-ind}
use t1_waf.Request.{IpAddr, RequestCtx, ip_eq}
use t1_waf.Net.{any_contains}
use t1_waf.Decision.{Decision}
use t1_waf.Action
use t1_waf.Honeypots
use t1_waf.GoodBot
use t1_waf.GoodBot.{Verdict}
use t1_waf.Reputation
use t1_waf.Prelude.Assoc.{lookup, insert, lookup-insert_self}
use t1_waf.Reputation.{Reputation, Reputations, HitState, entry, force, force_ban, refused}
use t1_waf.Engine.Outlawed.{Since, Outlawed, Outlawed-block}
use t1_waf.Engine.{Env, finalize}
use t1_waf.Engine.Pipeline.{Core, evaluate, crawler, trap, is_verified}
use t1_waf.Engine.Access.{verdict_seen}

module _ (env : Env) where
  open env use {net, known_bots}

  -- the ban that the trap sets, and the settings as before
  abbrev Banned : Core env → RequestCtx → ℕ → Core env × Decision → Type 0
  Banned e ctx t out =
      (out.0.reputations
        ≡ (force_ban net e.reputations ctx.client_ip e.auto_ban_duration_secs (t / 1000)).0)
      × (out.0.runtime ≡ e.runtime)

  trap-Banned :
      (e : Core env) (ctx : RequestCtx) (t : ℕ) (v : Verdict)
      → e.runtime.defenses.honeypots ≡ true
      → Honeypots.is_trap e.honeypots ctx.path ≡ true
      → Banned e ctx t (trap env e ctx t v)
  unfolding trap finalize Honeypots.check
  trap-Banned e ctx t v on path =
      option-ind (Banned e ctx t)
        (if e.runtime.defenses.honeypots then Honeypots.check e.honeypots ctx.path else none)
        (λ missed. absurd (ground arith)) (λ r caught. (refl, refl))

  crawler-Banned :
      (e : Core env) (ctx : RequestCtx) (t : ℕ)
      → is_verified (verdict_seen env e ctx t) ≡ false
      → e.runtime.defenses.honeypots ≡ true
      → Honeypots.is_trap e.honeypots ctx.path ≡ true
      → Banned e ctx t (crawler env e ctx t)
  unfolding crawler
  crawler-Banned e ctx t other on path =
      if-ind (Banned e ctx t) e.runtime.defenses.goodbot
        (λ looked.
          if-ind (Banned e ctx t)
            (is_verified
              (GoodBot.classify known_bots e.goodbot ctx.client_ip ctx.user_agent (t / 1000)).1)
            (λ proved. absurd (ground arith)) (λ unproved. trap-Banned _ ctx t _ on path))
        (λ idle. trap-Banned e ctx t _ on path)

  evaluate-Banned :
      (e : Core env) (ctx : RequestCtx) (t : ℕ)
      → any_contains net e.runtime.allow ctx.client_ip ≡ false
      → Reputation.classify net e.reputations ctx.client_ip (t / 1000) ≡ Reputation.unknown
      → any_contains net e.runtime.deny ctx.client_ip ≡ false
      → is_verified (verdict_seen env e ctx t) ≡ false
      → e.runtime.defenses.honeypots ≡ true
      → Honeypots.is_trap e.honeypots ctx.path ≡ true
      → Banned e ctx t (evaluate env e ctx t)
  unfolding evaluate
  evaluate-Banned e ctx t unlisted unknown open_to other on path =
      rw (unlisted, unknown, open_to) (crawler-Banned e ctx t other on path)

  -- an address that is not refused is banned, and stays off the lists
  force_ban-Outlawed :
      (e e' : Core env) (ip : IpAddr) (secs now : ℕ)
      → any_contains net e'.runtime.allow ip ≡ false
      → e'.reputations ≡ (force_ban net e.reputations ip secs now).0
      → refused net e.reputations ip ≡ false
      → now + secs < u64_mod
      → Outlawed env ip (now + secs) e'
  unfolding force_ban force refused
  force_ban-Outlawed e e' ip secs now unlisted same room fits =
      let r = e.reputations in
      let s : HitState = force r.auto_ban_threshold (entry net r ip) now secs in
      let made : (force_ban net r ip secs now).0 ≡ record r { state = insert ip s r.state } =
        rw room refl in
      let now_is = same ∙ made in
      record {
        unlisted = unlisted;
        not_allowed =
            subst (λ (b : Reputations net.Net). any_contains net b.allow ip ≡ false) (sym now_is)
              (ground (arith, room));
        ban = (
          s,
          ap (λ (b : Reputations net.Net). lookup ip b.state) now_is
              ∙ lookup-insert_self ip s r.state,
          ground arith,
        );
      }

  pub evaluate-trapped :
      (e : Core env) (ctx next : RequestCtx) (t later : ℕ) {e' : Core env}
      → any_contains net e.runtime.allow ctx.client_ip ≡ false
      → Reputation.classify net e.reputations ctx.client_ip (t / 1000) ≡ Reputation.unknown
      → any_contains net e.runtime.deny ctx.client_ip ≡ false
      → is_verified (verdict_seen env e ctx t) ≡ false
      → e.runtime.defenses.honeypots ≡ true
      → Honeypots.is_trap e.honeypots ctx.path ≡ true
      → refused net e.reputations ctx.client_ip ≡ false
      → next.client_ip ≡ ctx.client_ip
      → t / 1000 + e.auto_ban_duration_secs < u64_mod
      → Since env (evaluate env e ctx t).0 (t / 1000 + e.auto_ban_duration_secs) e'
      → later / 1000 < t / 1000 + e.auto_ban_duration_secs
      → ((evaluate env e' next later).1.action ≡ Action.block)
        × ((evaluate env e' next later).1.status ≡ 403)
  evaluate-trapped e ctx next t later unlisted unknown open_to other on path room same fits since
        soon =
      let e1 : Core env = (evaluate env e ctx t).0 in
      let banned = evaluate-Banned e ctx t unlisted unknown open_to other on path in
      let out =
        force_ban-Outlawed e e1 ctx.client_ip e.auto_ban_duration_secs (t / 1000)
          (rw banned.1 unlisted) banned.0 room fits in
      Outlawed-block env next later
        (subst (λ ip. Outlawed env ip (t / 1000 + e.auto_ban_duration_secs) e1) (sym same) out)
        since soon
