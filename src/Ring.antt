-- ===== src/Ring.antt =====
-- The array of time slots that crates/waf-core/src/{ratelimit,subnet,metrics}.rs keep: one slot
-- for each of the last `n` ticks, a tick's slot at its number modulo `n`.
pub mod Slots
use t1_waf.Prelude.{ℕ, zero, suc, ◌+◌, ◌-◌, ◌%◌, List, leb, if◌then◌else◌, set, replicate}

module _ {ℓ} {A : Type ℓ} (n : ℕ) (z : A) where
  -- `for i in 0..drift { buckets[(head + i + 1) % n] = 0 }`, from `i` on
  unfoldable pub clear : ℕ → ℕ → ℕ → List A → List A
  clear head i zero bs = bs
  clear head i (suc k) bs = clear head (i + 1) k (set bs ((head + i + 1) % n) z)

  -- What a hit at tick `now` does to the slots of an array whose newest tick is `head`.
  unfoldable pub rotate : ℕ → ℕ → List A → List A
  unfolding clear
  rotate head now bs =
      let drift = now - head in if leb n drift then replicate n z else clear head 0 drift bs
