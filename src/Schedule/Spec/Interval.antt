-- ===== src/Schedule/Spec/Interval.antt =====
-- The next multiple of an interval.
use native.Mathlib.Nat.{div-add-mod', mod-lt, add-mul}
use prism_panel.Common.{
  ℕ, ◌+◌, ◌-◌, ◌*◌, ◌/◌, ◌^◌, ◌≤◌, ◌<◌, ◌≡◌, ap, ◌∙◌, ltb, if◌then◌else◌, nat_eq, text_eq, arith,
}
use prism_panel.Schedule.Spec.{since, add_duration, next_interval}

add_duration-small : (t d : ℕ) → d < 2 ^ 63 → add_duration t d ≡ t + d
unfolding add_duration
add_duration-small t d h = ground arith

-- The next multiple is reached within one interval.
next_multiple :
    (d interval : ℕ)
    → 0 < interval
    → (d < (d / interval + 1) * interval) × ((d / interval + 1) * interval ≤ d + interval)
next_multiple d interval h =
    let e = div-add-mod' d interval in
    let l = mod-lt d h in
    let a = add-mul (d / interval) 1 interval in (omega (arith, e, l, a), omega (arith, e, l, a))

-- A time ahead, on the grid of the interval, and with no other time of the grid in between.
pub record IsNext (interval scheduled now t : ℕ) : Type 0 where
  pub steps : ℕ
  pub on_grid : t ≡ scheduled + steps * interval
  pub ahead : now < t
  pub near : scheduled ≤ now → t ≤ now + interval

pub next_interval-IsNext :
    (interval scheduled now : ℕ)
    → 0 < interval
    → interval < 2 ^ 62
    → now < scheduled + 2 ^ 62
    → scheduled ≤ now
    → IsNext interval scheduled now (next_interval interval scheduled now)
unfolding next_interval
next_interval-IsNext interval scheduled now h small close past =
    let d = now - scheduled in
    let (above, below) = next_multiple d interval h in
    let whole : since scheduled now ≡ d = ground arith in
    let q = d / interval + 1 in
    let one : (if ltb q 1 then 1 else q) ≡ q = ground arith in
    let e : next_interval interval scheduled now ≡ scheduled + (d / interval + 1) * interval =
      ap
        (λ s.
          add_duration scheduled
            ((if ltb (s / interval + 1) 1 then 1 else s / interval + 1) * interval))
        whole
      ∙ ap (λ n. add_duration scheduled (n * interval)) one
      ∙ add_duration-small scheduled (q * interval) (omega (arith, below, small, close)) in
    record {
      steps = d / interval + 1;
      on_grid = e;
      ahead = omega (arith, e, above);
      near = λ p. omega (arith, e, below);
    }
