-- ===== src/Priority/Item.antt =====
-- Queued notifications, and the order in which `less` ranks two of them.
use rdispatch.Common.{ℕ, String, List, [], Bool, true, false, ◌≡◌, arith, not, ltb, if◌then◌else◌}
use rdispatch.Common.Int.{pos, ltb_ℤ, ◌==ℤ◌}
use rdispatch.Priority.Level.{Level}

-- `created_at` is an instant in nanoseconds since Go's zero time.
pub record Item : Type 0 where
  pub id : String
  pub priority : Level
  pub payload : List ℕ
  pub created_at : ℕ

-- `Item{}`.
abbrev pub zero_item : Item
zero_item = record { id = ""; priority = pos 0; payload = []; created_at = 0 }

-- The test of `less` on two items: `x` ranks below `y`.
unfoldable pub lower : Item → Item → Bool
lower x y =
    if not (x.priority ==ℤ y.priority)
    then ltb_ℤ x.priority y.priority
    else ltb y.created_at x.created_at

-- `x` may stand above `y` in the heap.
abbrev pub Above : Item → Item → Type 0
Above x y = lower x y ≡ false

pub Above-refl : (x : Item) → Above x x
unfolding lower
Above-refl x = ground arith

pub Above-of_lower : (x y : Item) → lower x y ≡ true → Above y x
unfolding lower
Above-of_lower x y h = ground arith

pub Above-trans : (x y z : Item) → Above x y → Above y z → Above x z
unfolding lower
Above-trans x y z h k = ground arith
