-- ===== src/System/Stream.antt =====
-- The stream between the gateway and the worker, pkg/natsutil: the JetStream server as an interface.
use rdispatch.Common.{ℕ, List, ◌∷◌, Perm}

-- A stream of payloads: one is stored after a `Publish`, and one is removed when it is acknowledged or has
-- expired. `pending` are those that it holds.
pub record Stream (B : Type 0) : Type 0 where
  pub store : List ℕ → B → B
  pub remove : List ℕ → B → B
  pub pending : B → List (List ℕ)

-- `p` is one of the payloads `ps`, and `rest` are the others.
abbrev pub Splits : List (List ℕ) → List ℕ → List (List ℕ) → Type 0
Splits ps p rest = Perm ps (p ∷ rest)

-- The `WorkQueuePolicy` that `EnsureStream` sets: a payload is held until it is removed.
pub record IsWorkQueue {B : Type 0} (stream : Stream B) : Type 0 where
  pub stored :
      (p : List ℕ) (b : B) → Perm (stream.pending (stream.store p b)) (p ∷ stream.pending b)
  pub removed :
      (p : List ℕ) (rest : List (List ℕ)) (b : B)
      → Splits (stream.pending b) p rest
      → Perm (stream.pending (stream.remove p b)) rest
