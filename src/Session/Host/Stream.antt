-- ===== src/Session/Host/Stream.antt =====
-- What a subscriber reads: every line of output from its first one on, in order.
use mathlib.Core.List.{append_assoc, append-nil}
use prism_panel.Common.{
  ℕ, suc, ◌≤◌, ◌≡◌, refl, sym, ap, ◌∙◌, subst, inl, inr, Bool, true, false, not, List, [], ◌∷◌,
  ◌++◌, ltb, if◌then◌else◌, length, select, arith, All, Bool-cases, length-append,
}
use prism_panel.Session.Host.{
  Frame, Channel, stdout, stderr, exit, capacity, offer, cancel_channel, finish_channel, take_frame,
}
use prism_panel.Session.Host.Replay.{EndsAt, EndsAt-snoc}

abbrev pub is_output : Frame → Bool
is_output f = elim f.kind [ stdout ↦ true | stderr ↦ true | exit ↦ false ]

-- The lines among the frames, without the news of the exit.
abbrev pub outputs : List Frame → List Frame
outputs = select is_output

pub outputs-append : (xs ys : List Frame) → outputs (xs ++ ys) ≡ outputs xs ++ outputs ys
outputs-append [] ys = refl
outputs-append (x ∷ xs) ys = ground (arith, outputs-append xs ys)

abbrev pub IsOutput : Frame → Type 0
IsOutput f = is_output f ≡ true

pub outputs-All : (xs : List Frame) → All IsOutput xs → outputs xs ≡ xs
outputs-All [] h = refl
outputs-All (x ∷ xs) h = ground (arith, outputs-All xs h.1)

abbrev pub received : Channel → List Frame
received c = c.taken ++ c.buffer

-- The lines that have come to a channel carry consecutive numbers, the last of which is that of the
-- last line of the process, or of the line before the channel was closed. Its buffer is within its
-- capacity, and it is closed exactly if it is no longer in the map.
pub record IsChannel (sequence : ℕ) (c : Channel) : Type 0 where
  pub last : ℕ
  pub in_order : EndsAt last (outputs (received c))
  pub not_ahead : last ≤ sequence
  pub up_to_date : c.registered ≡ true → last ≡ sequence
  pub bounded : length c.buffer ≤ capacity
  pub open_or_closed : c.closed ≡ not c.registered

both_if : (b : Bool) (P : Channel → Type 0) {x y : Channel} → P x → P y → P (if b then x else y)
both_if true P h k = h
both_if false P h k = k

outputs-snoc :
    (xs ys : List Frame) (f : Frame)
    → outputs (xs ++ (ys ++ f ∷ [])) ≡ outputs (xs ++ ys) ++ outputs (f ∷ [])
outputs-snoc xs ys f =
    ap outputs (sym (append_assoc xs ys (f ∷ []))) ∙ outputs-append (xs ++ ys) (f ∷ [])

offer_gone : (f : Frame) (c : Channel) → c.registered ≡ false → offer f c ≡ c
unfolding offer
offer_gone f c e = ground arith

offer_room :
    (f : Frame) (c : Channel)
    → c.registered ≡ true
    → ltb (length c.buffer) capacity ≡ true
    → offer f c ≡ record c { buffer = c.buffer ++ f ∷ [] }
unfolding offer
offer_room f c e l = ground arith

offer_full :
    (f : Frame) (c : Channel)
    → c.registered ≡ true
    → ltb (length c.buffer) capacity ≡ false
    → offer f c ≡ record c { registered = false; closed = true }
unfolding offer
offer_full f c e l = ground arith

pub offer-IsChannel :
    (s : ℕ) (f : Frame) (c : Channel)
    → is_output f ≡ true
    → f.sequence ≡ suc s
    → IsChannel s c
    → IsChannel (suc s) (offer f c)
offer-IsChannel s f c o e v = elim (Bool-cases c.registered) [
  | inr gone ↦
      subst (λ d. IsChannel (suc s) d) (sym (offer_gone f c gone))
        (record {
          last = v.last;
          in_order = v.in_order;
          not_ahead = omega (arith, v.not_ahead);
          up_to_date = λ r. cc;
          bounded = v.bounded;
          open_or_closed = v.open_or_closed;
        })
  | inl here ↦ elim (Bool-cases (ltb (length c.buffer) capacity)) [
    | inl room ↦
        subst (λ d. IsChannel (suc s) d) (sym (offer_room f c here room))
          (record {
            last = suc s;
            in_order = rw (outputs-snoc c.taken c.buffer f) (
                rw o (
                  EndsAt-snoc s (outputs (received c)) f
                    (subst (λ n. EndsAt n (outputs (received c))) (v.up_to_date here) v.in_order)
                    e));
            not_ahead = omega arith;
            up_to_date = λ r. refl;
            bounded = ground (arith, length-append c.buffer (f ∷ []));
            open_or_closed = v.open_or_closed;
          })
    | inr full ↦
        subst (λ d. IsChannel (suc s) d) (sym (offer_full f c here full))
          (record {
            last = v.last;
            in_order = v.in_order;
            not_ahead = omega (arith, v.not_ahead);
            up_to_date = λ r. cc;
            bounded = v.bounded;
            open_or_closed = refl;
          })
  ]
]

pub cancel_channel-IsChannel :
    (s : ℕ) (c : Channel) → IsChannel s c → IsChannel s (cancel_channel c)
unfolding cancel_channel
cancel_channel-IsChannel s c v =
    both_if c.registered (λ d. IsChannel s d)
      (record {
        last = v.last;
        in_order = v.in_order;
        not_ahead = v.not_ahead;
        up_to_date = λ r. cc;
        bounded = v.bounded;
        open_or_closed = refl;
      })
      v

pub finish_channel-IsChannel :
    (s : ℕ) (f : Frame) (c : Channel)
    → is_output f ≡ false
    → IsChannel s c
    → IsChannel s (finish_channel f c)
unfolding finish_channel
finish_channel-IsChannel s f c o v =
    both_if (not c.registered) (λ d. IsChannel s d) v
      (elim (Bool-cases (ltb (length c.buffer) capacity)) [
        | inl room ↦ rw room (record {
          last = v.last;
          in_order =
              rw (outputs-snoc c.taken c.buffer f)
                (rw o (rw (append-nil (outputs (received c))) v.in_order));
          not_ahead = v.not_ahead;
          up_to_date = λ r. cc;
          bounded = ground (arith, length-append c.buffer (f ∷ []));
          open_or_closed = refl;
        })
        | inr full ↦ rw full (record {
          last = v.last;
          in_order = v.in_order;
          not_ahead = v.not_ahead;
          up_to_date = λ r. cc;
          bounded = v.bounded;
          open_or_closed = refl;
        })
      ])

pub take_frame-IsChannel :
    (s : ℕ) (c : Channel) (fs : List Frame)
    → c.buffer ≡ fs
    → IsChannel s c
    → IsChannel s (take_frame fs c)
unfolding take_frame
take_frame-IsChannel s c [] e v = v
take_frame-IsChannel s c (f ∷ fs) e v = record {
  last = v.last;
  in_order =
      rw (append_assoc c.taken (f ∷ []) fs)
        (subst (λ b. EndsAt v.last (outputs (c.taken ++ b))) e v.in_order);
  not_ahead = v.not_ahead;
  up_to_date = v.up_to_date;
  bounded = ground (arith, v.bounded);
  open_or_closed = v.open_or_closed;
}
