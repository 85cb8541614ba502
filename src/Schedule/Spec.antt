-- ===== src/Schedule/Spec.antt =====
-- panel/internal/schedule/spec.go and `processDue` of service.go: when a task runs. Times are in
-- nanoseconds from a start before all of them. A `ValidationError` is invalid_config. Weekdays and
-- intervals are natural numbers: the code refuses a negative one like 0.
pub mod Interval
pub mod Planned
use prism_panel.Common.{
  ℕ, ◌+◌, ◌-◌, ◌*◌, ◌/◌, ◌%◌, ◌^◌, Bool, true, false, ◌&&◌, ◌||◌, not, List, [], ◌∷◌, Option, none,
  some, ltb, leb, if◌then◌else◌, ◌==◌, nat_eq, text_eq, contains,
}
use prism_panel.Common.Text.{Text, codes, trim_space}
use prism_panel.Common.Error.{Result, ok, err, ◌>>=◌, ◌>>◌, guard, invalid_config}

pub record Config : Type 0 where
  pub run_at : Text
  pub time : Text
  pub weekdays : List ℕ
  pub interval_seconds : ℕ

pub record Clock : Type 0 where
  pub hour : ℕ
  pub minute : ℕ
  pub second : ℕ

-- The packages `time` and `encoding/json`. A location is its name.
pub record Calendar : Type 0 where
  -- a `Decoder` that refuses unknown fields, and nothing behind the value
  pub decode : Text → Option Config
  pub encode : Config → Text
  -- whether `time.LoadLocation` finds it
  pub located : Text → Bool
  pub rfc3339 : Text → Option ℕ
  -- `time.ParseInLocation` of a layout, in UTC
  pub clock : Text → Text → Option Clock
  -- `time.Date`, with the day of a time in a location
  pub date : Text → ℕ → Clock → ℕ
  -- `AddDate(0, 0, n)` of a time in a location
  pub add_days : Text → ℕ → ℕ → ℕ
  -- `int(date.Weekday())`
  pub weekday : Text → ℕ → ℕ

abbrev pub minimum_interval : ℕ
minimum_interval = 60

abbrev pub maximum_interval : ℕ
maximum_interval = 31_536_000

abbrev pub a_second : ℕ
a_second = 1_000_000_000

abbrev pub required {ℓ} : {A : Type ℓ} → Option A → Result A
required none = err invalid_config
required (some a) = ok a

abbrev pub present {ℓ} : {A : Type ℓ} → Option A → Result (Unit {0})
present none = err invalid_config
present (some a) = ok tt

abbrev pub weekdays_ok : List ℕ → Bool
weekdays_ok [] = true
weekdays_ok (d ∷ ds) = not (ltb d 1 || ltb 7 d) && weekdays_ok ds

-- The set of the days, sorted.
abbrev pub insert_day : ℕ → List ℕ → List ℕ
insert_day d [] = d ∷ []
insert_day d (e ∷ es) =
    let rest = insert_day d es in
    if ltb d e then d ∷ e ∷ es else (if d == e then e ∷ es else e ∷ rest)

unfoldable pub sort_days : List ℕ → List ℕ
sort_days [] = []
sort_days (d ∷ ds) = insert_day d (sort_days ds)

-- A `time.Duration` is a signed word.
unfoldable pub add_duration : ℕ → ℕ → ℕ
add_duration t d = let w = d % 2 ^ 64 in if ltb w (2 ^ 63) then t + w else t - (2 ^ 64 - w)

-- `now.Sub(t)` for a later `now`; 0 stands for what is negative.
abbrev pub since : ℕ → ℕ → ℕ
since t now = if ltb (now - t) (2 ^ 63) then now - t else 2 ^ 63 - 1

-- The multiple of the interval behind a planned time.
unfoldable pub next_interval : ℕ → ℕ → ℕ → ℕ
next_interval interval scheduled now =
    let steps = since scheduled now / interval + 1 in
    let steps' = if ltb steps 1 then 1 else steps in add_duration scheduled (steps' * interval)

-- `runAt.After(now)`, or an error
abbrev pub ahead_of : ℕ → ℕ → Result ℕ
ahead_of now run_at = if ltb now run_at then ok run_at else err invalid_config

module _ (cal : Calendar) where
  -- `NormalizeTimezone`
  unfoldable pub normalize_timezone : Text → Result Text
  normalize_timezone value =
      let name = trim_space value in
      let name' = if name == [] then codes "Asia/Shanghai" else name in
      if cal.located name' then ok name' else err invalid_config

  unfoldable pub parse_clock : Text → Option Clock
  parse_clock value =
      let text = trim_space value in
      elim (cal.clock (codes "15:04:05") text) [
        | some c ↦ some c
        | none ↦ cal.clock (codes "15:04") text
      ]

  -- `parseConfig`, once the text is read
  unfoldable pub check_config : Text → Config → Result Config
  check_config kind c =
      if kind == codes "once"
      then present (cal.rfc3339 c.run_at)
        >> ok (record c { time = []; weekdays = []; interval_seconds = 0 })
      else (if kind == codes "daily"
          then present (parse_clock c.time)
            >> ok (record c { run_at = []; weekdays = []; interval_seconds = 0 })
          else (if kind == codes "weekly"
              then present (parse_clock c.time)
                >> guard (not (c.weekdays == [])) invalid_config
                >> guard (weekdays_ok c.weekdays) invalid_config
                >> ok (record c {
                  weekdays = sort_days c.weekdays;
                  run_at = [];
                  interval_seconds = 0;
                })
              else (if kind == codes "interval"
                  then guard
                      (not (
                        ltb c.interval_seconds minimum_interval
                        || ltb maximum_interval c.interval_seconds))
                      invalid_config
                    >> ok (record c { run_at = []; time = []; weekdays = [] })
                  else err invalid_config)))

  unfoldable pub parse_config : Text → Text → Result Config
  parse_config kind raw =
      required (cal.decode (if raw == [] then codes "{}" else raw)) >>= check_config kind

  unfoldable pub normalize_config : Text → Text → Result Text
  normalize_config kind raw = parse_config kind raw >>= λ c. ok (cal.encode c)

  -- The clock of a configuration; an error gives zeros.
  abbrev pub clock_of : Config → Clock
  clock_of c = elim (parse_clock c.time) [
    | some k ↦ k
    | none ↦ record { hour = 0; minute = 0; second = 0 }
  ]

  unfoldable pub next_daily : Config → Text → ℕ → ℕ
  next_daily c location after =
      let candidate = cal.date location after (clock_of c) in
      if ltb after candidate then candidate else cal.add_days location candidate 1

  -- The rounds of the loop of `nextWeekly`, over the offsets that are left.
  unfoldable pub weekly_from : Config → Text → ℕ → List ℕ → ℕ
  weekly_from c location after [] = cal.add_days location after 7
  weekly_from c location after (offset ∷ offsets) =
      let rest = weekly_from c location after offsets in
      let date = cal.add_days location after offset in
      let weekday = if cal.weekday location date == 0 then 7 else cal.weekday location date in
      let candidate = cal.date location date (clock_of c) in
      if contains c.weekdays weekday && ltb after candidate then candidate else rest

  unfoldable pub next_weekly : Config → Text → ℕ → ℕ
  next_weekly c location after = weekly_from c location after (0 ∷ 1 ∷ 2 ∷ 3 ∷ 4 ∷ 5 ∷ 6 ∷ 7 ∷ [])

  -- `FirstRun`, once configuration and location are known
  unfoldable pub first_of_kind : Text → Config → Text → ℕ → Result ℕ
  first_of_kind kind c location now =
      if kind == codes "once"
      then required (cal.rfc3339 c.run_at) >>= ahead_of now
      else (if kind == codes "daily"
          then ok (next_daily c location now)
          else (if kind == codes "weekly"
              then ok (next_weekly c location now)
              else (if kind == codes "interval"
                  then ok (now + c.interval_seconds * a_second)
                  else err invalid_config)))

  unfoldable pub first_run : Text → Text → Text → ℕ → Result ℕ
  first_run kind raw timezone now = do
    c ← parse_config kind raw
    location ← normalize_timezone timezone
    first_of_kind kind c location now

  -- `NextAfter`, once configuration and location are known
  unfoldable pub next_of_kind : Text → Config → Text → ℕ → ℕ → Result (Option ℕ)
  next_of_kind kind c location scheduled now =
      if kind == codes "once"
      then ok none
      else (if kind == codes "daily"
          then ok (some (next_daily c location now))
          else (if kind == codes "weekly"
              then ok (some (next_weekly c location now))
              else (if kind == codes "interval"
                  then ok (some (next_interval (c.interval_seconds * a_second) scheduled now))
                  else err invalid_config)))

  unfoldable pub next_after : Text → Text → Text → ℕ → ℕ → Result (Option ℕ)
  next_after kind raw timezone scheduled now = do
    c ← parse_config kind raw
    location ← normalize_timezone timezone
    next_of_kind kind c location scheduled now
