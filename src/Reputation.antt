-- ===== src/Reputation.antt =====
-- crates/waf-core/src/reputation.rs: static allow and deny lists, and the automatic bans. Times are
-- the seconds that `now_secs` returns. The file that `persist` writes and `bind_persist_file` reads
-- is the list that it holds as JSON; the flush after a ban is best effort in the code, and changes
-- nothing in memory.
pub mod Spares
pub mod Bans
pub mod Restart
use t1_waf.Prelude.{
  Text, text, decimal, text_beq, nat_eq, text_eq, Eq, is_some, or_else, ltb, leb, ◌==◌,
  if◌then◌else◌, ltb→lt, lt→ltb, leb→le, le→leb, lt→leb_false, le→ltb_false, ==_iff, Bool-cases,
  Option-cases, length, get_elem?, set, length-append, length-set, get_elem?-set_self,
  get_elem?-set_ne, get_or, take, drop, replicate, take-append-drop, length-take, length-drop,
  length-replicate, length-map, u32_max, u64_mod, sat_add, add64, add32, ℕ, zero, suc, ◌+◌, ◌-◌,
  ◌*◌, ◌/◌, ◌%◌, ◌^◌, ◌≤◌, ◌<◌, min, max, ◌≡◌, refl, sym, ap, ◌∙◌, subst, ◌≢◌, ◌↔◌, ◌⊎◌, inl, inr,
  Bool, true, false, ◌&&◌, ◌||◌, not, Option, none, some, List, [], ◌∷◌, ◌++◌, map, arith, dec_lt,
  dec_le, ℕ_discrete,
}
use t1_waf.Prelude.Assoc.{lookup, insert, retain, contains_key}
use t1_waf.Request.{IpAddr, ip_eq}
use t1_waf.Net.{NetApi, any_contains}

pub data Reputation : Type 0 where
  allow deny unknown : Reputation

pub record HitState : Type 0 where
  pub hits : ℕ
  pub first_hit : ℕ
  pub ban_until : ℕ

-- `HitState::default()`
abbrev pub no_hits : HitState
no_hits = record { hits = 0; first_hit = 0; ban_until = 0 }

pub record PersistedBan : Type 0 where
  pub ip : IpAddr
  pub ban_until : ℕ
  pub hits : ℕ

pub record Reputations (Net : Type 0) : Type 0 where
  pub allow : List Net
  pub deny : List Net
  pub auto_ban_threshold : ℕ
  pub window_secs : ℕ
  pub duration_secs : ℕ
  pub state : List (IpAddr × HitState)

abbrev pub max_tracked : ℕ
max_tracked = 150_000

-- the body of `record_offence` on the entry of the address: the new entry, and whether it is banned
unfoldable pub offend : ℕ → ℕ → ℕ → HitState → ℕ → HitState × Bool
offend threshold window duration s now =
    let s' =
      (if (s.first_hit == 0) || ltb window (now - s.first_hit)
        then record s { hits = 0; first_hit = now }
        else s) in
    let hits = sat_add s'.hits 1 in
    if leb threshold hits && leb s'.ban_until now
    then (record s' { hits = hits; ban_until = add64 now duration }, true)
    else (record s' { hits = hits }, false)

-- the body of `force_ban` on the entry of the address
unfoldable pub force : ℕ → HitState → ℕ → ℕ → HitState
force threshold s now secs =
    let until = add64 now secs in
    record s {
      hits = sat_add s.hits threshold;
      ban_until = (if ltb s.ban_until until then until else s.ban_until);
    }

module _ (api : NetApi) where
  open api use {Net}

  -- `is_banned`
  unfoldable pub is_banned : Reputations Net → IpAddr → ℕ → Bool
  is_banned r ip now = elim (lookup ip r.state) [ none ↦ false | some s ↦ ltb now s.ban_until ]

  -- `classify`
  unfoldable pub classify : Reputations Net → IpAddr → ℕ → Reputation
  classify r ip now =
      if any_contains api r.allow ip
      then Reputation.allow
      else if any_contains api r.deny ip
      then Reputation.deny
      else if is_banned r ip now
      then Reputation.deny
      else Reputation.unknown

  -- the guard of `record_offence` and `force_ban`: an allowed address, or a new one at a full table
  unfoldable pub refused : Reputations Net → IpAddr → Bool
  refused r ip =
      any_contains api r.allow ip
      || (not (contains_key ip r.state) && ltb max_tracked (length r.state))

  abbrev pub entry : Reputations Net → IpAddr → HitState
  entry r ip = or_else (lookup ip r.state) no_hits

  -- `record_offence`
  unfoldable pub record_offence : Reputations Net → IpAddr → ℕ → Reputations Net × Bool
  record_offence r ip now =
      if refused r ip
      then (r, false)
      else (let (s, banned) =
            offend r.auto_ban_threshold r.window_secs r.duration_secs (entry r ip) now in
          (record r { state = insert ip s r.state }, banned))

  -- `force_ban`
  unfoldable pub force_ban : Reputations Net → IpAddr → ℕ → ℕ → Reputations Net × Bool
  force_ban r ip secs now = if refused r ip then (r, false) else (
    record r { state = insert ip (force r.auto_ban_threshold (entry r ip) now secs) r.state },
    true,
  )

  -- `unban`
  unfoldable pub unban : Reputations Net → IpAddr → Reputations Net
  unban r ip = elim (lookup ip r.state) [
    | none ↦ r
    | some s ↦ record r { state = insert ip (record s { hits = 0; ban_until = 0 }) r.state }
  ]

  -- `gc`
  unfoldable pub gc : Reputations Net → ℕ → Reputations Net
  gc r now = record r {
    state =
        retain (λ _ s. ltb now s.ban_until || ltb (now - s.first_hit) (r.window_secs * 2)) r.state;
  }

-- the bans of a table that have not run out, as `persist` writes them
unfoldable pub dump_state : List (IpAddr × HitState) → ℕ → List PersistedBan
dump_state [] now = []
dump_state ((ip, s) ∷ m) now =
    if ltb now s.ban_until
    then record { ip = ip; ban_until = s.ban_until; hits = s.hits } ∷ dump_state m now
    else dump_state m now

-- the loop of `bind_persist_file` over the bans of the file
unfoldable pub load_state :
    List PersistedBan → List (IpAddr × HitState) → ℕ → List (IpAddr × HitState)
load_state [] m now = m
load_state (b ∷ bs) m now =
    load_state bs
      (if ltb now b.ban_until
        then insert b.ip (record { hits = b.hits; first_hit = now; ban_until = b.ban_until }) m
        else m)
      now

-- `banned`: the addresses that are banned, with the seconds left
unfoldable pub banned_state : List (IpAddr × HitState) → ℕ → List (IpAddr × ℕ)
banned_state [] now = []
banned_state ((ip, s) ∷ m) now =
    if ltb now s.ban_until then (ip, s.ban_until - now) ∷ banned_state m now else banned_state m now
