-- ===== src/Priority/Ties.antt =====
-- Items of one level with one timestamp.
use rdispatch.Common.{◌≡◌, true, false, [], ◌∷◌, done, arith}
use rdispatch.Priority.Item.{Item, lower}
use rdispatch.Priority.Queue.{new, push, try_pop, pop, sift_up, sift_down}
use rdispatch.Priority.History.{run, pushes, pops}

-- Three items of one level and one timestamp, pushed in the order x, y, z, come out as x, z, y.
pub ties-reordered :
    (x y z : Item)
    → x.priority ≡ y.priority
    → y.priority ≡ z.priority
    → x.created_at ≡ y.created_at
    → y.created_at ≡ z.created_at
    → run (pushes x ∷ pushes y ∷ pushes z ∷ pops ∷ pops ∷ pops ∷ []) new
      ≡ done ((x, true) ∷ (z, true) ∷ (y, true) ∷ [], new)
unfolding run push try_pop pop sift_up sift_down new
ties-reordered x y z p q r s =
    let xy : lower x y ≡ false = unfold lower in ground arith in
    let xz : lower x z ≡ false = unfold lower in ground arith in
    let zy : lower z y ≡ false = unfold lower in ground arith in simp (xy, xz, zy)
