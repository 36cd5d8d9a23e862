-- ===== src/AutoUam.antt =====
-- `AutoUamService` of crates/waf-proxy/src/admin.rs: what a tick of the five-second timer does to the
-- level. The garbage collections of the other timer are modelled with their components.
use t1_waf.Prelude.{
  nat_eq, text_eq, ltb, leb, ◌==◌, if◌then◌else◌, ℕ, ◌+◌, ◌-◌, ◌/◌, ◌%◌, ◌^◌, ◌≤◌, ◌≡◌, ◌⊎◌, true,
  ◌&&◌, not, arith,
}
use t1_waf.Runtime.{Runtime}

-- the variables of the loop
pub record AutoUam : Type 0 where
  pub prev_blocks : ℕ
  pub last_change : ℕ

-- `next`; the rate is a `u32`
unfoldable pub next_level : ℕ → ℕ → ℕ → ℕ
next_level bps thresh cur =
    if leb thresh bps && ltb cur 4
    then cur + 1
    else if leb bps (thresh / 4) && ltb 0 cur
    then cur - 1
    else cur

module _ {Net : Type 0} where
  -- `interval.tick()`, with the counter of blocks and the clock as they are then
  unfoldable pub tick : AutoUam → Runtime Net → ℕ → ℕ → AutoUam × Runtime Net
  tick a r blocks now =
      let a' : AutoUam = record a { prev_blocks = blocks } in
      let bps = (blocks - a.prev_blocks) / 5 % 2 ^ 32 in
      let next = next_level bps r.auto_uam_threshold r.uam_level in
      if not r.auto_uam_enabled
      then (a', r)
      else if ltb (now - a.last_change) 30
      then (a', r)
      else if next == r.uam_level
      then (a', r)
      else (record a' { last_change = now }, record r { uam_level = next })

  -- What a tick may do to the level: it stays in range, moves by one step at most, and moves only when the
  -- service is on and 30 seconds have passed since it last moved, a time that the tick then records.
  pub record Gradual (a a' : AutoUam) (r r' : Runtime Net) (now : ℕ) : Type 0 where
    pub in_range : r'.uam_level ≤ 4
    pub up : r'.uam_level ≤ r.uam_level + 1
    pub down : r.uam_level ≤ r'.uam_level + 1
    pub rare :
        (r'.uam_level ≡ r.uam_level)
        ⊎ ((r.auto_uam_enabled ≡ true) × ((30 ≤ now - a.last_change) × (a'.last_change ≡ now)))

  -- A tick on a level in range moves the level as `Gradual` says.
  pub tick-Gradual :
      (a : AutoUam) (r : Runtime Net) (blocks now : ℕ)
      → r.uam_level ≤ 4
      → Gradual a (tick a r blocks now).0 r (tick a r blocks now).1 now
  unfolding tick next_level
  tick-Gradual a r blocks now h = record {
    in_range = ground arith;
    up = ground arith;
    down = ground arith;
    rare = ground arith;
  }
