-- ===== src/Reputation/Restart.antt =====
-- Bans survive a restart: what `persist` writes, `bind_persist_file` reads back.
use t1_waf.Reputation.{banned_state}
use t1_waf.Prelude.{
  nat_eq, text_eq, ltb, if◌then◌else◌, ℕ, ◌-◌, ◌≤◌, ◌≡◌, refl, Bool, false, none, some, List, [],
  ◌∷◌, arith,
}
use t1_waf.Prelude.Assoc.{lookup, insert, lookup-insert, Distinct}
use t1_waf.Request.{IpAddr, ip_eq, ip_beq_iff}
use t1_waf.Reputation.{HitState, dump_state, load_state}

-- `is_banned` on the table
abbrev pub ban : List (IpAddr × HitState) → IpAddr → ℕ → Bool
ban m ip at = elim (lookup ip m) [ none ↦ false | some s ↦ ltb at s.ban_until ]

ban-load_state :
    (m b : List (IpAddr × HitState)) (ip : IpAddr) (now later at : ℕ)
    → Distinct m
    → now ≤ later
    → ban (load_state (dump_state m now) b later) ip at ≡ elim (lookup ip m) [
      | none ↦ ban b ip at
      | some s ↦ if ltb later s.ban_until then ltb at s.ban_until else ban b ip at
    ]
unfolding load_state dump_state lookup
ban-load_state [] b ip now later at d le = refl
ban-load_state ((j, s) ∷ m) b ip now later at d le =
    let new : HitState = record { hits = s.hits; first_hit = later; ban_until = s.ban_until } in
    ground (
      arith,
      ip_beq_iff j ip,
      lookup-insert j ip new b,
      ban-load_state m b ip now later at d.1 le,
      ban-load_state m (insert j new b) ip now later at d.1 le,
    )

-- A restart keeps every ban: who is banned after the table is written at `now` and read back into an
-- empty table at `later`, is banned from then on for exactly as long as before.
pub ban-restart :
    (m : List (IpAddr × HitState)) (ip : IpAddr) (now later at : ℕ)
    → Distinct m
    → now ≤ later
    → later ≤ at
    → ban (load_state (dump_state m now) [] later) ip at ≡ ban m ip at
unfolding lookup
ban-restart m ip now later at d le le' = ground (arith, ban-load_state m [] ip now later at d le)

-- The list for the dashboard holds the banned addresses, each with the seconds left.
pub lookup-banned_state :
    (m : List (IpAddr × HitState)) (ip : IpAddr) (now : ℕ)
    → Distinct m
    → lookup ip (banned_state m now) ≡ elim (lookup ip m) [
      | none ↦ none
      | some s ↦ if ltb now s.ban_until then some (s.ban_until - now) else none
    ]
unfolding banned_state lookup
lookup-banned_state [] ip now d = refl
lookup-banned_state ((j, s) ∷ m) ip now d =
    ground (arith, ip_beq_iff j ip, lookup-banned_state m ip now d.1)
