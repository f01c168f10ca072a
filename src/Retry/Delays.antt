-- ===== src/Retry/Delays.antt =====
-- How long the waits are.
use native.Mathlib.Nat.{pow-suc}
use rdispatch.Common.{
  ℕ, zero, suc, ◌*◌, ◌/◌, ◌^◌, ◌≤◌, ◌<◌, ◌≡◌, refl, ap, ◌∙◌, arith, if◌then◌else◌, ltb,
}
use rdispatch.Common.Int.{pos, ◌≤ℤ◌}
use rdispatch.Common.Float.{Float64, IsIeee}
use rdispatch.Retry.Config.{Duration, Config}
use rdispatch.Retry.Loop.{add_jitter, grow}
use rdispatch.Retry.Outcome.{delay_at}

grow-le : (fl : Float64) (cfg : Config fl) (d : Duration) → grow fl cfg d ≤ℤ cfg.max_delay
unfolding grow
grow-le fl cfg d = ground arith

-- Every delay after the first is at most the maximum, whatever the multiplier and the rounding. The
-- first is the base delay, however long.
pub delay_at-le :
    (fl : Float64) (cfg : Config fl) (k : ℕ)
    → (delay_at fl cfg 0 ≡ cfg.base_delay) × (delay_at fl cfg (suc k) ≤ℤ cfg.max_delay)
delay_at-le fl cfg k = (refl, grow-le fl cfg (delay_at fl cfg k))

-- The smaller of two numbers.
abbrev pub capped : ℕ → ℕ → ℕ
capped cap d = if ltb cap d then cap else d

capped-lt : (cap d bound : ℕ) → cap < bound → capped cap d < bound
capped-lt cap d bound h = ground arith

capped-double : (cap d e : ℕ) → e ≡ 2 * d → capped cap (2 * capped cap d) ≡ capped cap e
capped-double cap d e h = ground arith

double_power : (base k : ℕ) → base * 2 ^ suc k ≡ 2 * (base * 2 ^ k)
double_power base k = rw pow-suc (omega arith)

module _ (fl : Float64) (ieee : IsIeee fl) where
  grow-doubles :
      (cfg : Config fl) (d cap : ℕ)
      → cfg.multiplier ≡ fl.two
      → cfg.max_delay ≡ pos cap
      → d < 2 ^ 52
      → grow fl cfg (pos d) ≡ pos (capped cap (2 * d))
  unfolding grow
  grow-doubles cfg d cap m c h = rw (m, c, ieee.doubled d h) (ground arith)

  -- With the default multiplier the delay doubles after each failed attempt until it meets the
  -- maximum: after attempt `k` it is the base delay times 2 ^ k, or the maximum if that is less.
  pub delay_at-doubles :
      (cfg : Config fl) (base cap k : ℕ)
      → cfg.multiplier ≡ fl.two
      → cfg.base_delay ≡ pos base
      → cfg.max_delay ≡ pos cap
      → base ≤ cap
      → cap < 2 ^ 52
      → delay_at fl cfg k ≡ pos (capped cap (base * 2 ^ k))
  delay_at-doubles cfg base cap zero m b c h f = b ∙ ap pos (ground arith)
  delay_at-doubles cfg base cap (suc k) m b c h f =
      let before = base * 2 ^ k in
      let small : capped cap before < 2 ^ 52 = capped-lt cap before (2 ^ 52) f in
      rw
        (
          delay_at-doubles cfg base cap k m b c h f,
          grow-doubles cfg (capped cap before) cap m c small,
        )
        (ap pos (capped-double cap before (base * 2 ^ suc k) (double_power base k)))

  -- The jittered delay is within a quarter of the delay, on both sides.
  pub add_jitter_bounds :
      (d : ℕ) (r : fl.F)
      → d < 2 ^ 50
      → ieee.le fl.zero r
      → ieee.le r fl.one
      → (pos (3 * d / 4) ≤ℤ add_jitter fl (pos d) r) × (add_jitter fl (pos d) r ≤ℤ pos (5 * d / 4))
  unfolding add_jitter
  add_jitter_bounds d r h lo hi =
      let r' = fl.mul r fl.half in
      let low = rw (ieee.half_zero) at (ieee.half_mono fl.zero r lo) in
      let high = rw (ieee.half_one) at (ieee.half_mono r fl.one hi) in
      let jitter = fl.add fl.three_quarters r' in
      let least : ieee.le fl.three_quarters jitter =
        rw (ieee.add_zero) at (ieee.add_mono fl.zero r' low) in
      let most : ieee.le jitter (fl.add fl.three_quarters fl.half) =
        ieee.add_mono r' fl.half high in
      let jitter_le = ieee.le_trans _ _ _ most ieee.most_le in
      let jitter_pos = ieee.le_trans _ _ _ ieee.least_pos least in
      let from_least = ieee.mul_mono d _ _ h ieee.least_pos least jitter_le in
      let to_most = ieee.mul_mono d _ _ h jitter_pos most ieee.most_le in
      let below =
        ieee.to_int_mono _ _ (ieee.product_pos d h) from_least
          (ieee.le_trans _ _ _ to_most (ieee.product_le d h)) in
      let above =
        ieee.to_int_mono _ _ (ieee.le_trans _ _ _ (ieee.product_pos d h) from_least) to_most
          (ieee.product_le d h) in
      (rw (ieee.lower_quarter d h) at below, rw (ieee.upper_quarter d h) at above)
