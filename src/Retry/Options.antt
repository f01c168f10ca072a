-- ===== src/Retry/Options.antt =====
-- Which attempts and delays the options can leave.
use rdispatch.Common.{List, [], ◌∷◌, arith}
use rdispatch.Common.Int.{ℤ, pos, ◌≤ℤ◌}
use rdispatch.Common.Float.{Float64}
use rdispatch.Retry.Config.{
  Duration, Config, Setting, defaults, configure, with_max_attempts, with_base_delay,
  with_max_delay, with_multiplier,
}

-- The attempts and delays that the options leave.
pub record IsValid (fl : Float64) (c : Config fl) : Type 0 where
  pub attempts : pos 1 ≤ℤ c.max_attempts
  pub base : pos 1 ≤ℤ c.base_delay
  pub cap : pos 1 ≤ℤ c.max_delay

-- The settings that the package exports.
pub data IsOption (fl : Float64) : Setting fl → Type 0 where
  max_attempts : (n : ℤ) → IsOption fl (with_max_attempts fl n)
  base_delay : (d : Duration) → IsOption fl (with_base_delay fl d)
  max_delay : (d : Duration) → IsOption fl (with_max_delay fl d)
  multiplier : (m : fl.F) → IsOption fl (with_multiplier fl m)

pub data AreOptions (fl : Float64) : List (Setting fl) → Type 0 where
  none_left : AreOptions fl []
  one_more :
      {opt : Setting fl} {opts : List (Setting fl)}
      → IsOption fl opt
      → AreOptions fl opts
      → AreOptions fl (opt ∷ opts)

option-IsValid :
    (fl : Float64) (c : Config fl) {opt : Setting fl}
    → IsOption fl opt
    → IsValid fl c
    → IsValid fl (opt c)
unfolding with_max_attempts with_base_delay with_max_delay with_multiplier
option-IsValid fl c (max_attempts n) v = ground arith
option-IsValid fl c (base_delay d) v = ground arith
option-IsValid fl c (max_delay d) v = ground arith
option-IsValid fl c (multiplier m) v = ground arith

pub configure-IsValid :
    (fl : Float64) (c : Config fl) {opts : List (Setting fl)}
    → AreOptions fl opts
    → IsValid fl c
    → IsValid fl (configure fl opts c)
unfolding configure
configure-IsValid fl c none_left v = v
configure-IsValid fl c (one_more o os) v = configure-IsValid fl _ os (option-IsValid fl c o v)

pub defaults-IsValid : (fl : Float64) → IsValid fl (defaults fl)
defaults-IsValid fl = record { attempts = omega arith; base = omega arith; cap = omega arith }
