-- ===== src/Mutex/Invariant.antt =====
-- What holds of goroutines under one lock at every moment.
use rdispatch.Common.{
  ℕ, ◌≡◌, ◌≢◌, refl, ap, sym, ◌∙◌, subst, ℕ_discrete, none, some, done, List, [], ◌∷◌, ◌++◌, ◌⊎◌,
  inl, inr, arith,
}
use rdispatch.Mutex.Program.{Program, returns, reads, writes, perform}
use rdispatch.Mutex.Threads.{
  Thread, outside, waits, inside, update, State, Step, calls, locks, loads, stores, unlocks, Reach,
  here, next, starting,
}

update_cases :
    {X : Type 0} (f : ℕ → X) (i j : ℕ) (x y : X)
    → update f i x j ≡ y
    → ((i ≡ j) × (x ≡ y)) ⊎ ((i ≢ j) × (f j ≡ y))
update_cases f i j x y e = elim (ℕ_discrete i j) [
  | yes same ↦ inl (same, ground arith)
  | no differ ↦ inr (differ, ground arith)
]

pub update_same : {X : Type 0} (f : ℕ → X) (i : ℕ) (x : X) → update f i x i ≡ x
update_same f i x = ground arith

pub update_other : {X : Type 0} (f : ℕ → X) (i j : ℕ) (x : X) → i ≢ j → update f i x j ≡ f j
update_other f i j x n = ground arith

inside_eq :
    {S C A : Type 0} {c d : C} {p q : Program S A}
    → ◌≡◌ {A = Thread S C A} (inside c p) (inside d q)
    → (c ≡ d) × (p ≡ q)
inside_eq e = (cc, cc)

module _ {S C A : Type 0} (body : C → Program S A) where
  -- The calls of a history, made one after another, give its answers and lead from `s` to `u`.
  abbrev pub Replays : S → List (C × A) → S → Type 0
  Replays s [] u = s ≡ u
  Replays s ((c, a) ∷ h) u = (t : S) × (perform (body c) s ≡ done (a, t)) × Replays t h u

  Replays-then :
      (s t u : S) (h : List (C × A)) (c : C) (a : A)
      → Replays s h t
      → perform (body c) t ≡ done (a, u)
      → Replays s (h ++ (c, a) ∷ []) u
  Replays-then s t u [] c a r e = (u, ap (perform (body c)) r ∙ e, refl)
  Replays-then s t u ((d, b) ∷ h) c a (v, f, r) e = (v, f, Replays-then v t u h c a r e)

  -- `base` is the memory as it was when the lock was last free. Who is inside a call has the lock, and what
  -- is left of the call ends as the whole call from `base`.
  pub record Inv (first : S) (s : State S C A) : Type 0 where
    pub base : S
    pub replayed : Replays first s.history base
    pub free : s.owner ≡ none → s.memory ≡ base
    pub held :
        (i : ℕ) (c : C) (p : Program S A)
        → s.threads i ≡ inside c p
        → (s.owner ≡ some i) × (perform p s.memory ≡ perform (body c) base)
    pub owned :
        (i : ℕ) → s.owner ≡ some i → (c : C) × ((p : Program S A) × (s.threads i ≡ inside c p))

  starting-Inv : (first : S) → Inv first (starting first)
  starting-Inv first = record {
    base = first;
    replayed = refl;
    free = λ e. refl;
    held = λ i c p e. absurd cc;
    owned = λ i e. absurd cc;
  }

  calls-Inv :
      (first : S) (s : State S C A) (i : ℕ) (c : C)
      → s.threads i ≡ outside
      → Inv first s
      → Inv first (record s { threads = update s.threads i (waits c) })
  calls-Inv first s i c e v = record {
    base = v.base;
    replayed = v.replayed;
    free = v.free;
    held = λ j d p f. elim (update_cases s.threads i j (waits c) (inside d p) f) [
      | inl (same, g) ↦ absurd cc
      | inr (differ, g) ↦ v.held j d p g
    ];
    owned = λ j f.
        let (d, (p, g)) = v.owned j f in
        let differ : i ≢ j = λ (same : i ≡ j).
          let there : s.threads j ≡ outside = subst (λ (k : ℕ). s.threads k ≡ outside) same e in
          cc in
        (d, (p, update_other s.threads i j (waits c) differ ∙ g));
  }

  -- A step of the goroutine that has the lock, within its call.
  moved-Inv :
      (first : S) (s : State S C A) (i : ℕ) (c : C) (p : Program S A) (memory : S) (q : Program S A)
      → s.threads i ≡ inside c p
      → perform q memory ≡ perform p s.memory
      → Inv first s
      → Inv first (record s { memory = memory; threads = update s.threads i (inside c q) })
  moved-Inv first s i c p memory q e same v =
      let (mine, whole) = v.held i c p e in
      record {
        base = v.base;
        replayed = v.replayed;
        free = λ f. absurd cc;
        held = λ j d r f. elim (update_cases s.threads i j (inside c q) (inside d r) f) [
          | inl (same_thread, g) ↦
              let (ec, eq) = inside_eq g in
              (
                mine ∙ ap some same_thread,
                ap (λ r. perform r memory) (sym eq)
                    ∙ same
                    ∙ whole
                    ∙ ap (λ c. perform (body c) v.base) ec,
              )
          | inr (differ, g) ↦
              absurd (let (other, rest) = v.held j d r g in let at_i : i ≡ j = cc in differ at_i)
        ];
        owned = λ j f.
            let at_i : i ≡ j = cc in
            (
              c,
              (
                q,
                subst (λ (k : ℕ). update s.threads i (inside c q) k ≡ inside c q) at_i
                    (update_same s.threads i (inside c q)),
              ),
            );
      }

  locks-Inv :
      (first : S) (s : State S C A) (i : ℕ) (c : C)
      → s.owner ≡ none
      → Inv first s
      → Inv first (record s { owner = some i; threads = update s.threads i (inside c (body c)) })
  locks-Inv first s i c e v = record {
    base = v.base;
    replayed = v.replayed;
    free = λ f. absurd cc;
    held = λ j d r f. elim (update_cases s.threads i j (inside c (body c)) (inside d r) f) [
      | inl (same_thread, g) ↦
          let (ec, eq) = inside_eq g in
          (
            ap some same_thread,
            ap (λ r. perform r s.memory) (sym eq)
                ∙ ap (perform (body c)) (v.free e)
                ∙ ap (λ c. perform (body c) v.base) ec,
          )
      | inr (differ, g) ↦ absurd (let (other, rest) = v.held j d r g in cc)
    ];
    owned = λ j f.
        let at_i : i ≡ j = cc in
        (
          c,
          (
            body c,
            subst (λ (k : ℕ). update s.threads i (inside c (body c)) k ≡ inside c (body c)) at_i
                (update_same s.threads i (inside c (body c))),
          ),
        );
  }

  unlocks-Inv :
      (first : S) (s : State S C A) (i : ℕ) (c : C) (a : A)
      → s.threads i ≡ inside c (returns a)
      → Inv first s
      → Inv first (record s {
        owner = none;
        threads = update s.threads i outside;
        history = s.history ++ (c, a) ∷ [];
      })
  unfolding perform
  unlocks-Inv first s i c a e v =
      let (mine, whole) = v.held i c (returns a) e in
      record {
        base = s.memory;
        replayed = Replays-then first v.base s.memory s.history c a v.replayed (sym whole);
        free = λ f. refl;
        held = λ j d r f. elim (update_cases s.threads i j outside (inside d r) f) [
          | inl (same_thread, g) ↦ absurd cc
          | inr (differ, g) ↦
              absurd (let (other, rest) = v.held j d r g in let at_i : i ≡ j = cc in differ at_i)
        ];
        owned = λ j f. absurd cc;
      }

  Step-Inv : (first : S) {s t : State S C A} → Step body s t → Inv first s → Inv first t
  unfolding perform
  Step-Inv first {s} (calls i c e) v = calls-Inv first s i c e v
  Step-Inv first {s} (locks i c e f) v = locks-Inv first s i c f v
  Step-Inv first {s} (loads i c k e) v =
      moved-Inv first s i c (reads k) s.memory (k s.memory) e refl v
  Step-Inv first {s} (stores i c t p e) v = moved-Inv first s i c (writes t p) t p e refl v
  Step-Inv first {s} (unlocks i c a e) v = unlocks-Inv first s i c a e v

  pub Reach-Inv : (first : S) {s : State S C A} → Reach body (starting first) s → Inv first s
  Reach-Inv first here = starting-Inv first
  Reach-Inv first (next r st) = Step-Inv first st (Reach-Inv first r)
