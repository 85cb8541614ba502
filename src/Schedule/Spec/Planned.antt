-- ===== src/Schedule/Spec/Planned.antt =====
-- A planned run lies ahead.
use prism_panel.Common.{
  eq→≡, ℕ, ◌+◌, ◌*◌, ◌^◌, ◌≤◌, ◌<◌, ◌≡◌, refl, sym, ap, subst, ◌∙◌, inl, inr, true, false, ◌&&◌,
  List, [], ◌∷◌, some, ltb, if◌then◌else◌, ◌==◌, nat_eq, text_eq, contains, arith, ltb→lt,
  Bool-cases, Option-cases,
}
use prism_panel.Common.Text.{Text, codes}
use prism_panel.Common.Error.{ok, Result-cases}
use prism_panel.Schedule.Spec.{
  Config, Clock, Calendar, a_second, clock_of, check_config, parse_config, normalize_timezone,
  next_daily, weekly_from, next_weekly, first_of_kind, first_run, next_interval, next_of_kind,
  next_after,
}
use prism_panel.Schedule.Spec.Interval.{IsNext, next_interval-IsNext}

abbrev pub a_day : ℕ
a_day = 86_400_000_000_000

-- The nanoseconds of a clock since midnight.
abbrev pub of_clock : Clock → ℕ
of_clock c = ((c.hour * 60 + c.minute) * 60 + c.second) * a_second

-- The clocks of a location are not changed between midnight of the day of a time and a week after
-- it: `time.Date` then counts the clock from midnight, and `AddDate` adds days of 24 hours.
pub record IsSteady (cal : Calendar) (location : Text) (now : ℕ) : Type 0 where
  pub midnight : ℕ
  pub begun : midnight ≤ now
  pub not_over : now < midnight + a_day
  pub dates : (c : Clock) → cal.date location now c ≡ midnight + of_clock c
  pub days : (t n : ℕ) → midnight ≤ t → t ≤ now → n ≤ 7 → cal.add_days location t n ≡ t + n * a_day

module _ (cal : Calendar) where
  next_daily-ahead :
      (c : Config) (location : Text) (now : ℕ)
      → IsSteady cal location now
      → now < next_daily cal c location now
  unfolding next_daily
  next_daily-ahead c location now steady =
      let candidate = cal.date location now (clock_of cal c) in
      let d = steady.dates (clock_of cal c) in
      elim (Bool-cases (ltb now candidate)) [
        | inl later ↦ rw later (ltb→lt now candidate later)
        | inr past ↦ rw past (
            let low : steady.midnight ≤ candidate = omega (arith, d) in
            let high : candidate ≤ now = ground (arith, past) in
            omega (arith, steady.days candidate 1 low high (omega arith), low, steady.not_over))
      ]

  weekly_from-ahead :
      (c : Config) (location : Text) (now : ℕ) (offsets : List ℕ)
      → IsSteady cal location now
      → now < weekly_from cal c location now offsets
  unfolding weekly_from
  weekly_from-ahead c location now [] steady =
      omega (arith, steady.days now 7 steady.begun (omega arith) (omega arith))
  weekly_from-ahead c location now (offset ∷ offsets) steady =
      let date = cal.add_days location now offset in
      let weekday = if cal.weekday location date == 0 then 7 else cal.weekday location date in
      let candidate = cal.date location date (clock_of cal c) in
      elim (Bool-cases (contains c.weekdays weekday && ltb now candidate)) [
        | inl found ↦ rw found (ltb→lt now candidate (ground arith))
        | inr other ↦ rw other (weekly_from-ahead c location now offsets steady)
      ]

  -- What a configuration of the kind has passed.
  check_config-interval :
      (c d : Config)
      → check_config cal (codes "interval") c ≡ ok d
      → (60 ≤ d.interval_seconds) × (d.interval_seconds ≤ 31_536_000)
  unfolding check_config text_eq
  check_config-interval c d h = ground arith

  parse_config-interval :
      (kind raw : Text) (c : Config)
      → (kind == codes "interval") ≡ true
      → parse_config cal kind raw ≡ ok c
      → (60 ≤ c.interval_seconds) × (c.interval_seconds ≤ 31_536_000)
  unfolding parse_config
  parse_config-interval kind raw c k h =
      elim (Option-cases (cal.decode (if raw == [] then codes "{}" else raw))) [
        | inl e ↦ absurd (ground arith)
        | inr (d, e) ↦
            check_config-interval d c
              (ap (λ x. check_config cal x d) (sym (eq→≡ kind (codes "interval") k)) ∙ ground arith)
      ]

  other_kind :
      (kind name : Text)
      → (kind == name) ≡ true
      → (name == codes "interval") ≡ false
      → (kind == codes "interval") ≡ false
  other_kind kind name k n = ap (λ x. x == codes "interval") (eq→≡ kind name k) ∙ n

  -- A run of this kind, planned at this time when it is due at another.
  pub record IsPlanned (kind : Text) (scheduled now t : ℕ) : Type 0 where
    pub later : now < t
    pub regular :
        (kind == codes "interval") ≡ true
        → (seconds : ℕ) × (60 ≤ seconds) × IsNext (seconds * a_second) scheduled now t

  next_of_kind-IsPlanned :
      (kind : Text) (c : Config) (location : Text) (scheduled now t : ℕ)
      → IsSteady cal location now
      → scheduled ≤ now
      → now < scheduled + 2 ^ 62
      → ((kind == codes "interval") ≡ true
          → (60 ≤ c.interval_seconds) × (c.interval_seconds ≤ 31_536_000))
      → next_of_kind cal kind c location scheduled now ≡ ok (some t)
      → IsPlanned kind scheduled now t
  unfolding next_of_kind text_eq
  next_of_kind-IsPlanned kind c location scheduled now t steady past close bounds h =
      elim (Bool-cases (kind == codes "once")) [
        | inl k ↦ absurd (ground arith)
        | inr k₀ ↦ elim (Bool-cases (kind == codes "daily")) [
          | inl k ↦
              let e : next_daily cal c location now ≡ t = ground arith in
              record {
                later = subst (λ x. now < x) e (next_daily-ahead c location now steady);
                regular = λ i. absurd (ground (arith, i, other_kind kind (codes "daily") k refl));
              }
          | inr k₁ ↦ elim (Bool-cases (kind == codes "weekly")) [
            | inl k ↦
                let e : next_weekly cal c location now ≡ t = ground arith in
                record {
                  later =
                      subst (λ x. now < x) e
                        (unfold next_weekly in
                          weekly_from-ahead c location now (0 ∷ 1 ∷ 2 ∷ 3 ∷ 4 ∷ 5 ∷ 6 ∷ 7 ∷ [])
                            steady);
                  regular =
                      λ i. absurd (ground (arith, i, other_kind kind (codes "weekly") k refl));
                }
            | inr k₂ ↦ elim (Bool-cases (kind == codes "interval")) [
              | inl k ↦
                  let e : next_interval (c.interval_seconds * a_second) scheduled now ≡ t =
                    ground arith in
                  let (low, high) = bounds k in
                  let n = subst (IsNext (c.interval_seconds * a_second) scheduled now) e (
                    next_interval-IsNext (c.interval_seconds * a_second) scheduled now
                      (omega (arith, low)) (omega (arith, high)) close past) in
                  record { later = n.ahead; regular = λ _. (c.interval_seconds, low, n) }
              | inr k₃ ↦ absurd (ground arith)
            ]
          ]
        ]
      ]

  first_of_kind-ahead :
      (kind : Text) (c : Config) (location : Text) (now t : ℕ)
      → IsSteady cal location now
      → ((kind == codes "interval") ≡ true
          → (60 ≤ c.interval_seconds) × (c.interval_seconds ≤ 31_536_000))
      → first_of_kind cal kind c location now ≡ ok t
      → now < t
  unfolding first_of_kind
  first_of_kind-ahead kind c location now t steady bounds h =
      elim (Bool-cases (kind == codes "once")) [
        | inl k ↦ elim (Option-cases (cal.rfc3339 c.run_at)) [
          | inl n ↦ absurd (ground arith)
          | inr (r, n) ↦ ground arith
        ]
        | inr k₀ ↦ elim (Bool-cases (kind == codes "daily")) [
          | inl k ↦
              let e : next_daily cal c location now ≡ t = ground arith in
              subst (λ x. now < x) e (next_daily-ahead c location now steady)
          | inr k₁ ↦ elim (Bool-cases (kind == codes "weekly")) [
            | inl k ↦
                let e : next_weekly cal c location now ≡ t = ground arith in
                subst (λ x. now < x) e
                  (unfold next_weekly in
                    weekly_from-ahead c location now (0 ∷ 1 ∷ 2 ∷ 3 ∷ 4 ∷ 5 ∷ 6 ∷ 7 ∷ []) steady)
            | inr k₂ ↦ elim (Bool-cases (kind == codes "interval")) [
              | inl k ↦
                  let e : now + c.interval_seconds * a_second ≡ t = ground arith in
                  omega (arith, e, (bounds k).0)
              | inr k₃ ↦ absurd (ground arith)
            ]
          ]
        ]
      ]

  -- The clocks are steady where a time zone is, if it is known.
  abbrev pub IsSteadyZone : Text → ℕ → Type 0
  IsSteadyZone timezone now =
      (location : Text) → normalize_timezone cal timezone ≡ ok location → IsSteady cal location now

  pub next_after-IsPlanned :
      (kind raw timezone : Text) (scheduled now t : ℕ)
      → IsSteadyZone timezone now
      → scheduled ≤ now
      → now < scheduled + 2 ^ 62
      → next_after cal kind raw timezone scheduled now ≡ ok (some t)
      → IsPlanned kind scheduled now t
  unfolding next_after
  next_after-IsPlanned kind raw timezone scheduled now t steady past close h =
      elim (Result-cases (parse_config cal kind raw)) [
        | inr (e, p) ↦ absurd (ground arith)
        | inl (c, p) ↦ elim (Result-cases (normalize_timezone cal timezone)) [
          | inr (e, z) ↦ absurd (ground arith)
          | inl (location, z) ↦
              next_of_kind-IsPlanned kind c location scheduled now t (steady location z) past close
                (λ k. parse_config-interval kind raw c k p) (ground arith)
        ]
      ]

  -- The first run of a task lies ahead.
  pub first_run-ahead :
      (kind raw timezone : Text) (now t : ℕ)
      → IsSteadyZone timezone now
      → first_run cal kind raw timezone now ≡ ok t
      → now < t
  unfolding first_run
  first_run-ahead kind raw timezone now t steady h =
      elim (Result-cases (parse_config cal kind raw)) [
        | inr (e, p) ↦ absurd (ground arith)
        | inl (c, p) ↦ elim (Result-cases (normalize_timezone cal timezone)) [
          | inr (e, z) ↦ absurd (ground arith)
          | inl (location, z) ↦
              first_of_kind-ahead kind c location now t (steady location z)
                (λ k. parse_config-interval kind raw c k p) (ground arith)
        ]
      ]
