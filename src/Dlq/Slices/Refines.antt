-- ===== src/Dlq/Slices/Refines.antt =====
-- Any calls on slices against the same calls on lists.
use rdispatch.Common.{
  ℕ, ◌+◌, ◌<◌, ◌≡◌, refl, ap, sym, ◌∙◌, subst, List, [], ◌∷◌, Run, done, ◌>>=◌, Yields, yields,
  Yields-then, Yields-weaken, Yields-value, length, arith, map, inl,
}
use rdispatch.Dlq.Memory.{
  Message, Memory as ListMemory, push as list_push, messages as list_messages, drain as list_drain,
}
use rdispatch.Dlq.Slices.{Store, Slice, contents, Memory, push, messages, drain}
use rdispatch.Dlq.Slices.Push.{list_of, Owns, Keeps, push-Pushed}
use rdispatch.Dlq.Slices.Handed.{Handed, drain-Handed, messages-Handed, Keeps-contents, Keeps-trans}

-- The calls of a client; `Push` comes with the time, and with the places that `append` would add.
pub data Call : Type 0 where
  pushes : ℕ → Message → Call
  reads drains : Call

-- The slices that the calls return, in order, with what they leave.
unfoldable pub run : ℕ → List Call → Memory → Store → Run (List Slice × Memory × Store)
run spare [] m st = done ([], m, st)
run spare (pushes now msg ∷ calls) m st =
    push spare m now msg st >>= λ (m', t). run spare calls m' t
run spare (reads ∷ calls) m st =
    messages m st >>= λ (s, t). run spare calls m t >>= λ (ss, m', u). done (s ∷ ss, m', u)
run spare (drains ∷ calls) m st =
    drain m st >>= λ (s, m', t). run spare calls m' t >>= λ (ss, m'', u). done (s ∷ ss, m'', u)

-- An answer before those of the later calls.
abbrev pub give :
    List Message → Run (List (List Message) × ListMemory) → Run (List (List Message) × ListMemory)
give xs r = r >>= λ (answers, m). done (xs ∷ answers, m)

unfoldable pub list_run : List Call → ListMemory → Run (List (List Message) × ListMemory)
list_run [] m = done ([], m)
list_run (pushes now msg ∷ calls) m = list_push m now msg >>= λ m'. list_run calls m'
list_run (reads ∷ calls) m = give (list_messages m) (list_run calls m)
list_run (drains ∷ calls) m = give (list_drain m).0 (list_run calls (list_drain m).1)

-- After the calls the memory has an array to itself, every slice still reads what it read when it was
-- returned, the answers are those of the list, and one array was made for each slice.
pub record Refines (n : ℕ) (calls : List Call) (m : Memory) (st : Store) (ss : List Slice)
    (m' : Memory) (t : Store) : Type 0 where
  pub owns : Owns n t m'
  pub keeps : Keeps st m.messages.array t m'.messages.array
  pub answers : list_run calls (list_of st m) ≡ done (map (contents t) ss, list_of t m')
  pub arrays : length t ≡ length st + length ss

-- The answer of one call before those of the others.
list_run-Handed :
    (n : ℕ) (calls : List Call) (m m' m'' : Memory) (st t u : Store) (s : Slice) (ss : List Slice)
    (given : List Message) (after : ListMemory)
    → Handed n st m.messages.array given after s m' t
    → Refines n calls m' t ss m'' u
    → give given (list_run calls after) ≡ done (map (contents u) (s ∷ ss), list_of u m'')
list_run-Handed n calls m m' m'' st t u s ss given after h r =
    let rest : list_run calls after ≡ done (map (contents u) ss, list_of u m'') =
      subst (λ l. list_run calls l ≡ done (map (contents u) ss, list_of u m'')) h.refines
        r.answers in
    let read : contents u s ≡ given = Keeps-contents s r.keeps h.placed h.apart ∙ h.reads in
    ap (give given) rest ∙ ap (λ g. done (g ∷ map (contents u) ss, list_of u m'')) (sym read)

-- Any calls on a memory that has an array of `n` places to itself end as on a list of capacity `n`: with
-- the same answers, with a memory that again has an array of `n` places to itself, and with nothing
-- written into a slice once it is handed out. `Push` never makes an array.
pub run-Refines :
    (spare n : ℕ) (calls : List Call) (m : Memory) (st : Store)
    → 0 < n
    → Owns n st m
    → Yields (λ (ss, m', t). Refines n calls m st ss m' t) (run spare calls m st)
unfolding run list_run list_messages list_drain contents
run-Refines spare n [] m st h o = yields (record {
  owns = o;
  keeps = record { grows = omega arith; kept = λ b p q. refl; mine = inl refl };
  answers = refl;
  arrays = omega arith;
})
run-Refines spare n (pushes now msg ∷ calls) m st h o =
    Yields-then (push-Pushed spare n now m msg st h o) λ (m', t) p.
      let (after, e, q) = Yields-value p in
      Yields-weaken (run-Refines spare n calls m' t h q.owns) λ (ss, m'', u) r. record {
        owns = r.owns;
        keeps = Keeps-trans q.keeps r.keeps;
        answers = rw (e, ← q.refines) r.answers;
        arrays = omega (arith, r.arrays, q.no_array);
      }
run-Refines spare n (reads ∷ calls) m st h o = Yields-then (messages-Handed n m st o) λ (s, t) d.
    Yields-then (run-Refines spare n calls m t h d.owns) λ (ss, m'', u) r. yields (record {
      owns = r.owns;
      keeps = Keeps-trans d.keeps r.keeps;
      answers = list_run-Handed n calls m m m'' st t u s ss _ _ d r;
      arrays = omega (arith, r.arrays, d.one_array);
    })
run-Refines spare n (drains ∷ calls) m st h o = Yields-then (drain-Handed n m st o) λ (s, m', t) d.
    Yields-then (run-Refines spare n calls m' t h d.owns) λ (ss, m'', u) r. yields (record {
      owns = r.owns;
      keeps = Keeps-trans d.keeps r.keeps;
      answers = list_run-Handed n calls m m' m'' st t u s ss _ _ d r;
      arrays = omega (arith, r.arrays, d.one_array);
    })
