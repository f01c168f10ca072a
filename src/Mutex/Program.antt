-- ===== src/Mutex/Program.antt =====
-- The body of a call as the accesses to memory that it makes.
use rdispatch.Common.{Option, none, some, Run, done, panic, out_of_fuel}

pub data Program (S A : Type 0) : Type 0 where
  returns : A → Program S A
  crashes gives_out : Program S A
  reads : (S → Program S A) → Program S A
  writes : S → Program S A → Program S A

module _ {S A : Type 0} where
  -- The whole call with nobody between.
  unfoldable pub perform : Program S A → S → Run (A × S)
  perform (returns a) s = done (a, s)
  perform crashes s = panic
  perform gives_out s = out_of_fuel
  perform (reads k) s = perform (k s) s
  perform (writes t p) s = perform p t

  -- What follows an access that may be out of range.
  abbrev pub fetch : {B : Type 0} → Option B → (B → Program S A) → Program S A
  fetch none k = crashes
  fetch (some b) k = k b
