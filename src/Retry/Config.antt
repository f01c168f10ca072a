-- ===== src/Retry/Config.antt =====
-- `config`, its defaults, and the functional options.
use rdispatch.Common.{ℕ, ◌*◌, List, [], ◌∷◌, if◌then◌else◌}
use rdispatch.Common.Int.{ℤ, pos, ltb_ℤ}
use rdispatch.Common.Float.{Float64}

-- A `time.Duration`, in nanoseconds.
abbrev pub Duration : Type 0
Duration = ℤ

abbrev pub millisecond : ℕ
millisecond = 1_000_000

abbrev pub second : ℕ
second = 1_000_000_000

module _ (fl : Float64) where
  pub record Config : Type 0 where
    pub max_attempts : ℤ
    pub base_delay : Duration
    pub max_delay : Duration
    pub multiplier : fl.F

  abbrev pub defaults : Config
  defaults = record {
    max_attempts = pos 3;
    base_delay = pos (100 * millisecond);
    max_delay = pos (10 * second);
    multiplier = fl.two;
  }

  -- `type Option func(*config)`.
  abbrev pub Setting : Type 0
  Setting = Config → Config

  unfoldable pub with_max_attempts : ℤ → Setting
  with_max_attempts n c = if ltb_ℤ (pos 0) n then record c { max_attempts = n } else c

  unfoldable pub with_base_delay : Duration → Setting
  with_base_delay d c = if ltb_ℤ (pos 0) d then record c { base_delay = d } else c

  unfoldable pub with_max_delay : Duration → Setting
  with_max_delay d c = if ltb_ℤ (pos 0) d then record c { max_delay = d } else c

  unfoldable pub with_multiplier : fl.F → Setting
  with_multiplier m c = if fl.is_positive m then record c { multiplier = m } else c

  -- `for _, opt := range opts { opt(&cfg) }`.
  unfoldable pub configure : List Setting → Config → Config
  configure [] c = c
  configure (opt ∷ opts) c = configure opts (opt c)
