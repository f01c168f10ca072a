-- ===== src/Mutex/Threads.antt =====
-- Goroutines, numbered, that call methods under one lock.
use rdispatch.Common.{ℕ, Option, none, some, List, [], ◌∷◌, ◌++◌, ◌==◌, if◌then◌else◌, ◌≡◌}
use rdispatch.Mutex.Program.{Program, returns, reads, writes}

-- Where a goroutine is: outside, before `Lock`, or inside a call, with what is left of it.
pub data Thread (S C A : Type 0) : Type 0 where
  outside : Thread S C A
  waits : C → Thread S C A
  inside : C → Program S A → Thread S C A

abbrev pub update {ℓ} : {X : Type ℓ} → (ℕ → X) → ℕ → X → ℕ → X
update f i x j = if i == j then x else f j

-- The memory, who has the lock, where the goroutines are, and the calls that have unlocked, in order, with
-- their answers.
pub record State (S C A : Type 0) : Type 0 where
  pub memory : S
  pub owner : Option ℕ
  pub threads : ℕ → Thread S C A
  pub history : List (C × A)

module _ {S C A : Type 0} (body : C → Program S A) where
  pub data Step (s : State S C A) : State S C A → Type 0 where
    calls :
        (i : ℕ) (c : C)
        → s.threads i ≡ outside
        → Step s (record s { threads = update s.threads i (waits c) })
    locks :
        (i : ℕ) (c : C)
        → s.threads i ≡ waits c
        → s.owner ≡ none
        → Step s (record s { owner = some i; threads = update s.threads i (inside c (body c)) })
    loads :
        (i : ℕ) (c : C) (k : S → Program S A)
        → s.threads i ≡ inside c (reads k)
        → Step s (record s { threads = update s.threads i (inside c (k s.memory)) })
    stores :
        (i : ℕ) (c : C) (t : S) (p : Program S A)
        → s.threads i ≡ inside c (writes t p)
        → Step s (record s { memory = t; threads = update s.threads i (inside c p) })
    unlocks :
        (i : ℕ) (c : C) (a : A)
        → s.threads i ≡ inside c (returns a)
        → Step s (record s {
          owner = none;
          threads = update s.threads i outside;
          history = s.history ++ (c, a) ∷ [];
        })

  -- The goroutine that makes a step.
  abbrev pub mover : {s t : State S C A} → Step s t → ℕ
  mover (calls i c e) = i
  mover (locks i c e f) = i
  mover (loads i c k e) = i
  mover (stores i c t p e) = i
  mover (unlocks i c a e) = i

  -- A run in which only goroutines of `P` have steps.
  pub data Moves (P : ℕ → Type 0) (s : State S C A) : State S C A → Type 0 where
    stays : Moves P s s
    moves : {t u : State S C A} → Moves P s t → (e : Step t u) → P (mover e) → Moves P s u

  pub data Reach (s : State S C A) : State S C A → Type 0 where
    here : Reach s s
    next : {t u : State S C A} → Reach s t → Step t u → Reach s u

-- Nobody has called yet.
abbrev pub starting : {S C A : Type 0} → S → State S C A
starting s = record { memory = s; owner = none; threads = λ i. outside; history = [] }
