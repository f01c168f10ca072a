-- ===== src/Mutex/Served.antt =====
-- Every goroutine that waits for the lock can be served.
use mathlib.Core.List.{append-nil}
use rdispatch.Common.{
  ℕ, ◌≡◌, ◌≢◌, refl, sym, ap, ◌∙◌, subst, Option, none, some, done, ◌≤◌, ◌⊎◌, inl, inr, arith,
  length, List, [], ◌∷◌, ◌++◌, Yields,
}
use rdispatch.Mutex.Program.{Program, returns, crashes, gives_out, reads, writes, perform}
use rdispatch.Mutex.Threads.{
  outside, waits, inside, update, State, Step, locks, loads, stores, unlocks, mover, Moves, stays,
  moves, Reach, here, next, starting,
}
use rdispatch.Mutex.Invariant.{update_same, update_other, Reach-Inv}
use rdispatch.Mutex.Linear.{inside_ends}

module _ {S C A : Type 0} (body : C → Program S A) where
  joined : {s t u : State S C A} → Reach body s t → Reach body t u → Reach body s u
  joined r here = r
  joined r (next q e) = next (joined r q) e

  followed :
      {P : ℕ → Type 0} {s t u : State S C A}
      → Moves body P s t
      → Moves body P t u
      → Moves body P s u
  followed r stays = r
  followed r (moves q e p) = moves (followed r q) e p

  widened :
      {P Q : ℕ → Type 0} {s t : State S C A}
      → ((k : ℕ) → P k → Q k)
      → Moves body P s t
      → Moves body Q s t
  widened h stays = stays
  widened h (moves r e p) = moves (widened h r) e (h _ p)

  reached : {P : ℕ → Type 0} {s t : State S C A} → Moves body P s t → Reach body s t
  reached stays = here
  reached (moves r e p) = next (reached r) e

  -- By steps of its own the goroutine `j` comes to the end of its call `c` and gives the lock up. The others
  -- are where they were.
  record Ended (s : State S C A) (j : ℕ) (c : C) : Type 0 where
    end : State S C A
    run : Moves body (λ k. j ≡ k) s end
    answer : A
    free : end.owner ≡ none
    recorded : end.history ≡ s.history ++ (c, answer) ∷ []
    back : end.threads j ≡ outside
    others : (i : ℕ) → j ≢ i → end.threads i ≡ s.threads i

  -- What `j` comes to after a step of its own within the call.
  after_step :
      (s : State S C A) (j : ℕ) (c : C) (memory : S) (p : Program S A)
      → (e : Step body s (record s { memory = memory; threads = update s.threads j (inside c p) }))
      → j ≡ mover body e
      → Ended (record s { memory = memory; threads = update s.threads j (inside c p) }) j c
      → Ended s j c
  after_step s j c memory p e own w = record {
    end = w.end;
    run = followed (moves stays e own) w.run;
    answer = w.answer;
    free = w.free;
    recorded = w.recorded;
    back = w.back;
    others = λ i n. w.others i n ∙ update_other s.threads j i (inside c p) n;
  }

  -- By its own steps alone, the goroutine that is inside a call comes to its end.
  inside-Ended :
      (p : Program S A) (s : State S C A) (j : ℕ) (c : C)
      → s.threads j ≡ inside c p
      → (a : A) × ((t : S) × (perform p s.memory ≡ done (a, t)))
      → Ended s j c
  unfolding perform
  inside-Ended (returns a) s j c e w = record {
    end = record s {
      owner = none;
      threads = update s.threads j outside;
      history = s.history ++ (c, a) ∷ [];
    };
    run = moves stays (unlocks j c a e) refl;
    answer = a;
    free = refl;
    recorded = refl;
    back = update_same s.threads j outside;
    others = λ i n. update_other s.threads j i outside n;
  }
  inside-Ended (reads k) s j c e w =
      after_step s j c s.memory (k s.memory) (loads j c k e) refl
        (inside-Ended (k s.memory) _ j c (update_same s.threads j (inside c (k s.memory))) w)
  inside-Ended (writes t p) s j c e w =
      after_step s j c t p (stores j c t p e) refl
        (inside-Ended p _ j c (update_same s.threads j (inside c p)) w)
  inside-Ended crashes s j c e w = absurd (let (a, (t, f)) = w in cc)
  inside-Ended gives_out s j c e w = absurd (let (a, (t, f)) = w in cc)

  -- There is a run from `s`, by steps of `i` and of the goroutine that has the lock, at whose end `i` has had
  -- its call `c` answered; at most one call comes before it, and none if the lock is free.
  pub record Served (s : State S C A) (i : ℕ) (c : C) : Type 0 where
    pub end : State S C A
    pub run : Moves body (λ k. (i ≡ k) ⊎ (s.owner ≡ some k)) s end
    pub answer : A
    pub before : List (C × A)
    pub recorded : end.history ≡ (s.history ++ before) ++ (c, answer) ∷ []
    pub one_before : length before ≤ 1
    pub none_before : s.owner ≡ none → before ≡ []
    pub back : end.threads i ≡ outside

  module _ (P : S → Type 0)
      (ends : (s : S) → P s → (c : C) → Yields (λ (a, t). P t) (perform (body c) s)) where
    -- From `t`, where the lock is free.
    free-Ended :
        (first : S) (t : State S C A) (i : ℕ) (c : C)
        → P first
        → Reach body (starting first) t
        → t.owner ≡ none
        → t.threads i ≡ waits c
        → (u : State S C A) × Moves body (λ k. i ≡ k) t u
          × ((a : A) × (u.history ≡ t.history ++ (c, a) ∷ []))
          × (u.threads i ≡ outside)
    free-Ended first t i c v r free w =
        let locked = record t {
          owner = some i;
          threads = update t.threads i (inside c (body c));
        } in
        let taken : Moves body (λ k. i ≡ k) t locked = moves stays (locks i c w free) refl in
        let there = update_same t.threads i (inside c (body c)) in
        let all = joined r (reached taken) in
        let last =
          inside-Ended (body c) locked i c there
            (inside_ends body P ends first locked i c (body c) v all there) in
        (last.end, followed taken last.run, (last.answer, last.recorded), last.back)

    served_by_owner :
        (o : Option ℕ) (first : S) (s : State S C A) (i : ℕ) (c : C)
        → s.owner ≡ o
        → P first
        → Reach body (starting first) s
        → s.threads i ≡ waits c
        → Served s i c
    served_by_owner none first s i c e v r w =
        let (u, run, (a, same), back) = free-Ended first s i c v r e w in
        record {
          end = u;
          run = widened (λ k own. inl own) run;
          answer = a;
          before = [];
          recorded =
              same ∙ ap (λ (x : List (C × A)). x ++ (c, a) ∷ []) (sym (append-nil s.history));
          one_before = omega arith;
          none_before = λ f. refl;
          back = back;
        }
    served_by_owner (some j) first s i c e v r w =
        let (d, (p, f)) = (Reach-Inv body first r).owned j e in
        let differ : j ≢ i = λ (same : j ≡ i).
          let there : s.threads i ≡ inside d p =
            subst (λ (k : ℕ). s.threads k ≡ inside d p) same f in
          cc in
        let held = inside-Ended p s j d f (inside_ends body P ends first s j d p v r f) in
        let (u, run, (a, same), back) =
          free-Ended first held.end i c v (joined r (reached held.run)) held.free
            (held.others i differ ∙ w) in
        record {
          end = u;
          run =
              followed (widened (λ k own. inr (e ∙ ap some own)) held.run)
                (widened (λ k own. inl own) run);
          answer = a;
          before = (d, held.answer) ∷ [];
          recorded = same ∙ ap (λ (x : List (C × A)). x ++ (c, a) ∷ []) held.recorded;
          one_before = omega arith;
          none_before = λ f. absurd cc;
          back = back;
        }

    -- If each whole call ends well, a goroutine that waits for the lock can come to have it and its answer
    -- by its own steps, after at most the call of the one that has it, which comes to its end by its own.
    pub waits-Served :
        (first : S) (s : State S C A) (i : ℕ) (c : C)
        → P first
        → Reach body (starting first) s
        → s.threads i ≡ waits c
        → Served s i c
    waits-Served first s i c v r w = served_by_owner s.owner first s i c refl v r w
