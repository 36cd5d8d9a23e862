-- ===== src/Reputation/Bans.antt =====
-- Who is banned after an operation, and when offences lead to a ban.
use t1_waf.Prelude.{
  nat_eq, text_eq, ltb, if◌then◌else◌, Option-cases, length, replicate, u32_max, u64_mod, ℕ, suc,
  ◌+◌, ◌-◌, ◌*◌, ◌≤◌, ◌<◌, ◌≡◌, refl, ap, inl, inr, Bool, true, false, ◌&&◌, ◌||◌, none, some, List,
  [], ◌∷◌, ◌++◌, arith,
}
use t1_waf.Prelude.Assoc.{
  lookup, insert, lookup-insert, lookup-insert_self, lookup-retain, Distinct,
}
use t1_waf.Request.{IpAddr, ip_eq, ip_beq_iff}
use t1_waf.Net.{NetApi, any_contains}
use t1_waf.Reputation.{
  HitState, no_hits, Reputations, max_tracked, offend, force, is_banned, refused, record_offence,
  force_ban, unban, gc,
}

module _ (api : NetApi) where
  open api use {Net}

  -- After an offence the address is banned for the configured time if the call says so, and it is
  -- banned exactly as before if not; every other address is banned exactly as before.
  pub is_banned-record_offence :
      (r : Reputations Net) (ip jp : IpAddr) (now at : ℕ)
      → now + r.duration_secs < u64_mod
      → is_banned api (record_offence api r ip now).0 jp at ≡ (
          if (record_offence api r ip now).1 && ip_eq.beq ip jp
          then ltb at (now + r.duration_secs)
          else is_banned api r jp at)
  unfolding is_banned record_offence offend
  is_banned-record_offence r ip jp now at fits = elim (Option-cases (lookup ip r.state)) [
    | inl miss ↦ ground (arith, ip_beq_iff ip jp, lookup-insert ip jp (new no_hits) r.state)
    | inr (s, hit) ↦ ground (arith, ip_beq_iff ip jp, lookup-insert ip jp (new s) r.state)
  ]
    where
      new : HitState → HitState
      new s = (offend r.auto_ban_threshold r.window_secs r.duration_secs s now).0

  -- A forced ban that the call reports lasts at least the given time and never shortens a ban that
  -- is there; every other address, and a refused one, is banned exactly as before.
  pub is_banned-force_ban :
      (r : Reputations Net) (ip jp : IpAddr) (secs now at : ℕ)
      → now + secs < u64_mod
      → is_banned api (force_ban api r ip secs now).0 jp at ≡ (
          if (force_ban api r ip secs now).1 && ip_eq.beq ip jp
          then ltb at (now + secs) || is_banned api r jp at
          else is_banned api r jp at)
  unfolding is_banned force_ban force
  is_banned-force_ban r ip jp secs now at fits = elim (Option-cases (lookup ip r.state)) [
    | inl miss ↦ ground (
      arith,
      ip_beq_iff ip jp,
      lookup-insert ip jp (force r.auto_ban_threshold no_hits now secs) r.state,
    )
    | inr (s, hit) ↦ ground (
      arith,
      ip_beq_iff ip jp,
      lookup-insert ip jp (force r.auto_ban_threshold s now secs) r.state,
    )
  ]

  -- Lifting a ban lifts that address's ban and no other.
  pub is_banned-unban :
      (r : Reputations Net) (ip jp : IpAddr) (at : ℕ)
      → is_banned api (unban api r ip) jp at
        ≡ (if ip_eq.beq ip jp then false else is_banned api r jp at)
  unfolding is_banned unban
  is_banned-unban r ip jp at = elim (Option-cases (lookup ip r.state)) [
    | inl miss ↦ ground (arith, ip_beq_iff ip jp)
    | inr (s, hit) ↦ ground (
      arith,
      ip_beq_iff ip jp,
      lookup-insert ip jp (record s { hits = 0; ban_until = 0 }) r.state,
    )
  ]

  -- A sweep forgets no ban that is still running, in a table with no address twice.
  pub is_banned-gc :
      (r : Reputations Net) (ip : IpAddr) (now at : ℕ)
      → Distinct r.state
      → now ≤ at
      → is_banned api (gc api r now) ip at ≡ is_banned api r ip at
  unfolding is_banned gc
  is_banned-gc r ip now at d le = elim (Option-cases (lookup ip r.state)) [
    | inl miss ↦ ground (arith, lookup-retain keep ip r.state d)
    | inr (s, hit) ↦ ground (arith, lookup-retain keep ip r.state d)
  ]
    where
      keep : IpAddr → HitState → Bool
      keep _ s = ltb now s.ban_until || ltb (now - s.first_hit) (r.window_secs * 2)

  -- the results of the offences of one address at the given times
  unfoldable pub offences : Reputations Net → IpAddr → List ℕ → List Bool
  offences r ip [] = []
  offences r ip (t ∷ ts) =
      let (r', banned) = record_offence api r ip t in banned ∷ offences r' ip ts

  abbrev pub Within : ℕ → ℕ → List ℕ → Type 0
  Within first window [] = Unit
  Within first window (t ∷ ts) = (first ≤ t) × (t - first ≤ window) × Within first window ts

  module _ (r : Reputations Net) (ip : IpAddr) (s : HitState) (t : ℕ)
      (free : any_contains api r.allow ip ≡ false) (known : lookup ip r.state ≡ some s)
      (first : 0 < s.first_hit) (unbanned : s.ban_until ≡ 0)
      (inside : t - s.first_hit ≤ r.window_secs) where
    offence_below :
        s.hits + 1 < r.auto_ban_threshold
        → s.hits + 1 ≤ u32_max
        → record_offence api r ip t
          ≡ (record r { state = insert ip (record s { hits = s.hits + 1 }) r.state }, false)
    unfolding record_offence refused offend
    offence_below low cap = ground arith

    offence_at :
        s.hits + 1 ≡ r.auto_ban_threshold
        → s.hits + 1 ≤ u32_max
        → (record_offence api r ip t).1 ≡ true
    unfolding record_offence refused offend
    offence_at at cap = ground arith

  -- the offences after the first, from an entry with some hits in the window
  offences_from :
      (r : Reputations Net) (ip : IpAddr) (s : HitState) (ts : List ℕ) (t : ℕ)
      → any_contains api r.allow ip ≡ false
      → lookup ip r.state ≡ some s
      → 0 < s.first_hit
      → s.ban_until ≡ 0
      → Within s.first_hit r.window_secs (t ∷ ts)
      → s.hits + suc (length ts) ≡ r.auto_ban_threshold
      → r.auto_ban_threshold ≤ u32_max
      → offences r ip (t ∷ ts) ≡ replicate (length ts) false ++ (true ∷ [])
  unfolding offences
  offences_from r ip s [] t free known f b w n cap =
      rw (offence_at r ip s t free known f b w.1 (omega arith) (omega arith)) refl
  offences_from r ip s (t' ∷ ts) t free known f b w n cap =
      let s' : HitState = record s { hits = s.hits + 1 } in
      let r' : Reputations Net = record r { state = insert ip s' r.state } in
      rw (offence_below r ip s t free known f b w.1 (omega arith) (omega arith)) (
        ap (◌∷◌ false) (
          offences_from r' ip s' ts t' free (lookup-insert_self ip s' r.state) f b w.2 (omega arith)
            cap))

  -- the first offence, of an address that is not yet known
  offence_first :
      (r : Reputations Net) (ip : IpAddr) (t : ℕ)
      → any_contains api r.allow ip ≡ false
      → lookup ip r.state ≡ none
      → length r.state ≤ max_tracked
      → 1 < r.auto_ban_threshold
      → record_offence api r ip t ≡ (
        record r { state = insert ip (record { hits = 1; first_hit = t; ban_until = 0 }) r.state },
        false,
      )
  unfolding record_offence refused offend
  offence_first r ip t free new room low = ground arith

  -- Offences of an address that is not allowed and not yet known, at a table that has room for it and at
  -- times within the window of the first, which is not at second 0: exactly the one that reaches the
  -- threshold bans, and none before it.
  pub offences-threshold :
      (r : Reputations Net) (ip : IpAddr) (t : ℕ) (ts : List ℕ)
      → any_contains api r.allow ip ≡ false
      → lookup ip r.state ≡ none
      → length r.state ≤ max_tracked
      → 0 < t
      → Within t r.window_secs ts
      → suc (length ts) ≡ r.auto_ban_threshold
      → r.auto_ban_threshold ≤ u32_max
      → offences r ip (t ∷ ts) ≡ replicate (length ts) false ++ (true ∷ [])
  unfolding offences record_offence refused offend
  offences-threshold r ip t [] free new room pos w n cap = ground arith
  offences-threshold r ip t (t' ∷ ts) free new room pos w n cap =
      let s' : HitState = record { hits = 1; first_hit = t; ban_until = 0 } in
      let r' : Reputations Net = record r { state = insert ip s' r.state } in
      rw (offence_first r ip t free new room (omega arith)) (
        ap (◌∷◌ false) (
          offences_from r' ip s' ts t' free (lookup-insert_self ip s' r.state) pos refl w
            (omega arith) cap))
