-- ===== src/Analytics/Counts.antt =====
-- The counters of `Stats` against the reports that the recorders get.
use rdispatch.Common.{
  ℕ, ◌+◌, ◌%◌, ◌<◌, ◌≡◌, refl, sym, String, Bool, true, false, Option, none, some, List, [], ◌∷◌,
  arith, str_eq, str_eq_iff, if◌then◌else◌, Bool-cases, inl, inr,
}
use rdispatch.Common.Int.{ℤ, pos}
use rdispatch.Common.Int64.{modulus, add64, milliseconds}
use rdispatch.Common.Float.{Float64}
use rdispatch.Analytics.Stats.{
  ChannelStats, Stats, new, find, put, found_or_fresh, get_or_create, record_success,
  record_failure,
}

-- What the recorders are told.
pub data Report : Type 0 where
  success : String → ℤ → Report
  failure : String → Report

if-twice {ℓ} :
    {A : Type ℓ} (b : Bool) (x y z : A)
    → (if b then x else if b then y else z) ≡ (if b then x else z)
if-twice true x y z = refl
if-twice false x y z = refl

module _ (fl : Float64) where
  unfoldable pub report : Report → Stats fl → Stats fl
  report (success ch latency) = record_success fl ch latency
  report (failure ch) = record_failure fl ch

  unfoldable pub report_all : List Report → Stats fl → Stats fl
  report_all [] s = s
  report_all (r ∷ rs) s = report_all rs (report r s)

  find-put :
      (key other : String) (cs : ChannelStats fl) (m : List (String × ChannelStats fl))
      → find fl other (put fl key cs m) ≡ (if str_eq key other then some cs else find fl other m)
  unfolding find put
  find-put key other cs [] = refl
  find-put key other cs ((k, old) ∷ m) =
      ground
        (arith, str_eq_iff key other, str_eq_iff k key, str_eq_iff k other, find-put key other cs m)

abbrev pub channel_of : Report → String
channel_of (success ch latency) = ch
channel_of (failure ch) = ch

-- What the reports say of one channel: its successes, its failures, and its latencies in total.
unfoldable pub successes : String → List Report → ℕ
successes ch [] = 0
successes ch (success k latency ∷ rs) = (if str_eq k ch then 1 else 0) + successes ch rs
successes ch (failure k ∷ rs) = successes ch rs

unfoldable pub failures : String → List Report → ℕ
failures ch [] = 0
failures ch (success k latency ∷ rs) = failures ch rs
failures ch (failure k ∷ rs) = (if str_eq k ch then 1 else 0) + failures ch rs

unfoldable pub total_latency : String → List Report → ℕ
total_latency ch [] = 0
total_latency ch (success k latency ∷ rs) =
    (if str_eq k ch then milliseconds latency else 0) + total_latency ch rs
total_latency ch (failure k ∷ rs) = total_latency ch rs

module _ (fl : Float64) where
  -- The entry of a channel agrees with `a` successes, `b` failures and latencies of `c` in total.
  unfoldable pub Counted : ℕ → ℕ → ℕ → Option (ChannelStats fl) → Type 0
  Counted a b c none = (a ≡ 0) × (b ≡ 0) × (c ≡ 0)
  Counted a b c (some cs) =
      (0 < a + b)
      × (cs.sent ≡ a % modulus)
      × (cs.failed ≡ b % modulus)
      × (cs.total_ms ≡ c % modulus)

  -- The entry that a report leaves for its own channel.
  unfoldable reported : Report → ChannelStats fl → ChannelStats fl
  reported (success ch latency) cs = record cs {
    sent = add64 cs.sent 1;
    total_ms = add64 cs.total_ms (milliseconds latency);
  }
  reported (failure ch) cs = record cs { failed = add64 cs.failed 1 }

  find-put-put :
      (key other : String) (x y : ChannelStats fl) (m : List (String × ChannelStats fl))
      → find fl other (put fl key x (put fl key y m))
        ≡ (if str_eq key other then some x else find fl other m)
  find-put-put key other x y m =
      rw (find-put fl key other x (put fl key y m), find-put fl key other y m)
        (if-twice (str_eq key other) (some x) (some y) (find fl other m))

  find-report :
      (ch : String) (r : Report) (s : Stats fl)
      → find fl ch (report fl r s).counters ≡ (
          if str_eq (channel_of r) ch
          then some
              (reported r (found_or_fresh fl (channel_of r) (find fl (channel_of r) s.counters)))
          else find fl ch s.counters)
  unfolding report record_success record_failure get_or_create reported
  find-report ch (success k latency) s = find-put-put k ch _ _ s.counters
  find-report ch (failure k) s = find-put-put k ch _ _ s.counters

  -- What one report adds to the tallies of a channel.
  Counted-reported :
      (k : String) (latency : ℤ) (a b c : ℕ) (o : Option (ChannelStats fl))
      → Counted a b c o
      → Counted
          (1 + a)
          b
          (milliseconds latency + c)
          (some (reported (success k latency) (found_or_fresh fl k o)))
        × Counted a (1 + b) c (some (reported (failure k) (found_or_fresh fl k o)))
  unfolding Counted reported add64
  Counted-reported k latency a b c none h = ground arith
  Counted-reported k latency a b c (some cs) h = ground arith

  Counted-cast :
      {a a' b b' c c' : ℕ} (o : Option (ChannelStats fl))
      → Counted a b c o
      → a ≡ a'
      → b ≡ b'
      → c ≡ c'
      → Counted a' b' c' o
  Counted-cast o h ea eb ec = rw (sym ea, sym eb, sym ec) h

  Counted-report :
      (ch : String) (r : Report) (s : Stats fl) (a b c : ℕ)
      → Counted a b c (find fl ch s.counters)
      → Counted
          (successes ch (r ∷ []) + a)
          (failures ch (r ∷ []) + b)
          (total_latency ch (r ∷ []) + c)
          (find fl ch (report fl r s).counters)
  unfolding successes failures total_latency
  Counted-report ch (success k latency) s a b c h =
      rw (find-report ch (success k latency) s) (elim (Bool-cases (str_eq k ch)) [
        | inl e ↦
            let own =
              Counted-reported k latency a b c (find fl k s.counters)
                (rw ((str_eq_iff k ch).0 e) h) in
            rw e (Counted-cast _ own.0 (omega arith) (omega arith) (omega arith))
        | inr e ↦ rw e (Counted-cast _ h (omega arith) (omega arith) (omega arith))
      ])
  Counted-report ch (failure k) s a b c h =
      rw (find-report ch (failure k) s) (elim (Bool-cases (str_eq k ch)) [
        | inl e ↦
            let own =
              Counted-reported k (pos 0) a b c (find fl k s.counters)
                (rw ((str_eq_iff k ch).0 e) h) in
            rw e (Counted-cast _ own.1 (omega arith) (omega arith) (omega arith))
        | inr e ↦ rw e (Counted-cast _ h (omega arith) (omega arith) (omega arith))
      ])

  tallies-cons :
      (ch : String) (r : Report) (rs : List Report)
      → (successes ch (r ∷ rs) ≡ successes ch (r ∷ []) + successes ch rs)
        × (failures ch (r ∷ rs) ≡ failures ch (r ∷ []) + failures ch rs)
        × (total_latency ch (r ∷ rs) ≡ total_latency ch (r ∷ []) + total_latency ch rs)
  unfolding successes failures total_latency
  tallies-cons ch (success k latency) rs = (omega arith, omega arith, omega arith)
  tallies-cons ch (failure k) rs = (omega arith, omega arith, omega arith)

  report_all-Counted_from :
      (ch : String) (rs : List Report) (s : Stats fl) (a b c : ℕ)
      → Counted a b c (find fl ch s.counters)
      → Counted
          (successes ch rs + a)
          (failures ch rs + b)
          (total_latency ch rs + c)
          (find fl ch (report_all fl rs s).counters)
  unfolding report_all successes failures total_latency
  report_all-Counted_from ch [] s a b c h =
      Counted-cast _ h (omega arith) (omega arith) (omega arith)
  report_all-Counted_from ch (r ∷ rs) s a b c h =
      let (ds, df, dl) = tallies-cons ch r rs in
      let later =
        report_all-Counted_from ch rs (report fl r s) _ _ _ (Counted-report ch r s a b c h) in
      Counted-cast _ later (omega (arith, ds)) (omega (arith, df)) (omega (arith, dl))

  -- After any reports a channel has an entry exactly if a report named it, and then the entry holds the
  -- number of its successes, of its failures and the sum of its latencies, each modulo 2 ^ 64.
  pub report_all-Counted :
      (ch : String) (rs : List Report) (now : ℕ)
      → Counted
          (successes ch rs)
          (failures ch rs)
          (total_latency ch rs)
          (find fl ch (report_all fl rs (new fl now)).counters)
  unfolding new find Counted
  report_all-Counted ch rs now =
      let all = report_all-Counted_from ch rs (new fl now) 0 0 0 (refl, refl, refl) in
      Counted-cast _ all (omega arith) (omega arith) (omega arith)
