-- ===== src/Views/SeekBar/Progress.antt =====
-- The progress stays between its bounds, and does not jump over the gap of the arc.
use cdroid_demo.Common.{
  ◌≤◌, ◌≡◌, refl, subst, sym, ◌∙◌, Bool, true, false, ◌&&◌, not, ◌∷◌, Option, none, some, arith,
  if◌then◌else◌, ℤ, pos, negsuc, pos_part, neg_part, ◌+ℤ◌, ◌-ℤ◌, ◌≤ℤ◌, ltb_ℤ, Bool-cases,
  Option-cases, inl, inr,
}
use cdroid_demo.Views.SeekBar.{
  SeekBar, same_ℤ, create, on_change_progress, set_min, set_max, is_range, set_range, check_range,
  clamp, set_progress, quotient, eighth, seven_eighths, slide_up_target, slide_down_target,
  slide_target, user_progress, move_slider, press_arc,
}

abbrev pub IsWithin : SeekBar → Type 0
IsWithin s = (s.min ≤ℤ s.progress) × (s.progress ≤ℤ s.max)

clamp_bounds : (s : SeekBar) (p : ℤ) → s.min ≤ℤ s.max → (s.min ≤ℤ clamp s p) × (clamp s p ≤ℤ s.max)
unfolding clamp
clamp_bounds s p h = ground arith

-- The narrower range does not lead out of the bounds, and holds the result where it is set.
check_range_bounds :
    (s : SeekBar) (p : ℤ)
    → s.min ≤ℤ p
    → p ≤ℤ s.max
    → (s.min ≤ℤ check_range s p)
      × (check_range s p ≤ℤ s.max)
      × (is_range s s.range_low s.range_high ≡ true
          → (s.range_low ≤ℤ check_range s p) × (check_range s p ≤ℤ s.range_high))
unfolding check_range is_range
check_range_bounds s p h k = ground arith

-- The bounds, the direction and the range are not changed by a progress that is set.
abbrev pub IsKept : SeekBar → SeekBar → Type 0
IsKept s t =
    (t.min ≡ s.min)
    × (t.max ≡ s.max)
    × (t.range_low ≡ s.range_low)
    × (t.range_high ≡ s.range_high)
    × (t.is_reverse ≡ s.is_reverse)

set_progress-IsKept : (s : SeekBar) (a : Bool) (p : ℤ) → IsKept s (set_progress s a p)
unfolding set_progress on_change_progress
set_progress-IsKept s a p = ground arith

-- The progress after a call is the one before or the one that the bounds and the range allow, and the
-- listeners are told of it exactly if it is another.
set_progress_cases :
    (s : SeekBar) (a : Bool) (p : ℤ)
    → if a && not (same_ℤ (check_range s (clamp s p)) s.progress)
      then ((set_progress s a p).progress ≡ check_range s (clamp s p))
        × ((set_progress s a p).changes ≡ (check_range s (clamp s p), s.from_user) ∷ s.changes)
      else set_progress s a p ≡ s
unfolding set_progress on_change_progress
set_progress_cases s true p = elim (Bool-cases (same_ℤ (check_range s (clamp s p)) s.progress)) [
  | inl e ↦ rw (set_progress, e) refl
  | inr e ↦ rw (set_progress, e) (refl, refl)
]
set_progress_cases s false p = refl

set_progress-IsWithin :
    (s : SeekBar) (a : Bool) (p : ℤ) → IsWithin s → IsWithin (set_progress s a p)
set_progress-IsWithin s a p h =
    elim (Bool-cases (a && not (same_ℤ (check_range s (clamp s p)) s.progress))) [
      | inl e ↦
          (let kept = set_progress-IsKept s a p in
            let new = subst (λ (b : Bool). Case b) e (set_progress_cases s a p) in
            let inside = clamp_bounds s p wide in
            let bounds = check_range_bounds s (clamp s p) inside.0 inside.1 in
            rw (kept.0, kept.1, new.0) (bounds.0, bounds.1))
      | inr e ↦ (let old = subst (λ (b : Bool). Case b) e (set_progress_cases s a p) in rw old h)
    ]
  where
    wide : s.min ≤ℤ s.max
    wide = omega arith

    Case : Bool → Type 0
    Case b =
        if b
        then ((set_progress s a p).progress ≡ check_range s (clamp s p))
          × ((set_progress s a p).changes ≡ (check_range s (clamp s p), s.from_user) ∷ s.changes)
        else set_progress s a p ≡ s

user_progress-IsWithin :
    (s : SeekBar) (a : Bool) (p : ℤ) → IsWithin s → IsWithin (user_progress s a p)
unfolding user_progress
user_progress-IsWithin s a p h = set_progress-IsWithin (record s { from_user = true }) a p h

set_min-IsWithin : (s : SeekBar) (m : ℤ) → m ≤ℤ s.max → IsWithin s → IsWithin (set_min s m)
unfolding set_min on_change_progress
set_min-IsWithin s m k h = ground arith

set_max-IsWithin : (s : SeekBar) (m : ℤ) → s.min ≤ℤ m → IsWithin s → IsWithin (set_max s m)
unfolding set_max on_change_progress
set_max-IsWithin s m k h = ground arith

set_range-IsWithin : (s : SeekBar) (a b : ℤ) → IsWithin s → IsWithin (set_range s a b)
unfolding set_range
set_range-IsWithin s a b h = ground arith

move_slider-IsWithin :
    (s : SeekBar) (a d near : Bool) (v : ℤ) → IsWithin s → IsWithin (move_slider s a d near v)
unfolding move_slider
move_slider-IsWithin s a d false v h = h
move_slider-IsWithin s a d true v h = elim (Option-cases (slide_target turned target)) [
  | inl e ↦ rw (move_slider, e) h
  | inr (p, e) ↦ rw (move_slider, e) (user_progress-IsWithin turned a p h)
]
  where
    turned : SeekBar
    turned = record s { angle_add = if s.is_reverse then not d else d }

    target : ℤ
    target = if s.is_reverse then s.max -ℤ v else v

-- What is done to a seek bar: its bounds are set so that the least is not above the greatest.
pub data Step (s : SeekBar) : SeekBar → Type 0 where
  least : (m : ℤ) → m ≤ℤ s.max → Step s (set_min s m)
  greatest : (m : ℤ) → s.min ≤ℤ m → Step s (set_max s m)
  narrow : (a b : ℤ) → Step s (set_range s a b)
  progress : (a : Bool) (p : ℤ) → Step s (set_progress s a p)
  slide : (a d near : Bool) (v : ℤ) → Step s (move_slider s a d near v)
  press : (a : Bool) (v : ℤ) → Step s (press_arc s a v)

pub data Reach (s : SeekBar) : SeekBar → Type 0 where
  start : Reach s s
  next : {t u : SeekBar} → Reach s t → Step t u → Reach s u

Step-IsWithin : {s t : SeekBar} → Step s t → IsWithin s → IsWithin t
unfolding press_arc
Step-IsWithin {s} (least m k) h = set_min-IsWithin s m k h
Step-IsWithin {s} (greatest m k) h = set_max-IsWithin s m k h
Step-IsWithin {s} (narrow a b) h = set_range-IsWithin s a b h
Step-IsWithin {s} (progress a p) h = set_progress-IsWithin s a p h
Step-IsWithin {s} (slide a d near v) h = move_slider-IsWithin s a d near v h
Step-IsWithin {s} (press a v) h =
    user_progress-IsWithin s a (if s.is_reverse then s.max -ℤ v else v) h

-- A seek bar with attributes that put its progress between its bounds keeps it there, whatever is set,
-- dragged or pressed and whatever the listener answers that checks a change, where a new least bound
-- is not above the greatest and a new greatest one not below the least.
pub run-IsWithin :
    (min max value : Option ℤ) (is_reverse : Bool) {t : SeekBar}
    → IsWithin (create min max value is_reverse)
    → Reach (create min max value is_reverse) t
    → IsWithin t
run-IsWithin min max value is_reverse h start = h
run-IsWithin min max value is_reverse h (next r s) =
    Step-IsWithin s (run-IsWithin min max value is_reverse h r)

-- The width is not negative, so it has seven eighths that are not, and an eighth that is not above it.
quotient_nonneg : (w : ℤ) → neg_part w ≡ 0 → neg_part (quotient w 8) ≡ 0
unfolding quotient ◌-ℤ◌
quotient_nonneg (pos n) h = refl
quotient_nonneg (negsuc n) h = absurd (omega arith)

quotient_small : (w : ℤ) → neg_part w ≡ 0 → pos_part (quotient w 8) ≤ pos_part w
unfolding quotient
quotient_small (pos n) h = omega arith
quotient_small (negsuc n) h = absurd (omega arith)

difference_nonneg : (a b : ℤ) → b ≤ℤ a → neg_part (a -ℤ b) ≡ 0
unfolding ◌-ℤ◌
difference_nonneg a b h = ground arith

sum_nonneg : (a b : ℤ) → neg_part a ≡ 0 → neg_part b ≡ 0 → neg_part (a +ℤ b) ≡ 0
unfolding ◌+ℤ◌
sum_nonneg a b h k = ground arith

difference_self : (a : ℤ) → pos_part (a -ℤ a) ≡ 0
unfolding ◌-ℤ◌
difference_self a = ground arith

not_under_seven :
    (s : SeekBar)
    → s.min ≤ℤ s.max
    → s.progress ≡ s.min
    → ltb_ℤ (seven_eighths s) (s.progress -ℤ s.min) ≡ false
unfolding seven_eighths
not_under_seven s h e =
    let w = difference_nonneg s.max s.min h in
    let two = sum_nonneg _ _ w w in
    let three = sum_nonneg _ _ two w in
    let four = sum_nonneg _ _ three w in
    let five = sum_nonneg _ _ four w in
    let six = sum_nonneg _ _ five w in
    let seven = sum_nonneg _ _ six w in
    rw e (ground (arith, quotient_nonneg _ seven, difference_self s.min))

not_under_eighth :
    (s : SeekBar)
    → s.min ≤ℤ s.max
    → s.progress ≡ s.max
    → ltb_ℤ (s.progress -ℤ s.min) (eighth s) ≡ false
unfolding eighth
not_under_eighth s h e =
    let w = difference_nonneg s.max s.min h in
    rw e (ground (arith, w, quotient_nonneg (s.max -ℤ s.min) w, quotient_small (s.max -ℤ s.min) w))

and_false : (b : Bool) → (b && false) ≡ false
and_false true = refl
and_false false = refl

slide_up :
    (s : SeekBar) (p q : ℤ)
    → s.min ≤ℤ s.max
    → s.progress ≡ s.min
    → slide_up_target s p ≡ some q
    → q -ℤ s.min ≤ℤ eighth s
unfolding slide_up_target eighth
slide_up s p q h e f = ends (sym target ∙ f)
  where
    same : same_ℤ s.progress s.min ≡ true
    same = ground (arith, e)

    target : slide_up_target s p ≡ (if ltb_ℤ (eighth s) (p -ℤ s.min) then none else some p)
    target = rw (slide_up_target, not_under_seven s h e, and_false (ltb_ℤ p s.progress), same) refl

    ends :
        (if ltb_ℤ (eighth s) (p -ℤ s.min) then none else some p) ≡ some q → q -ℤ s.min ≤ℤ eighth s
    ends g = ground (arith, g)

slide_down :
    (s : SeekBar) (p q : ℤ)
    → s.min ≤ℤ s.max
    → s.progress ≡ s.max
    → slide_down_target s p ≡ some q
    → seven_eighths s ≤ℤ q -ℤ s.min
unfolding slide_down_target ◌-ℤ◌
slide_down s p q h e f = ends (sym target ∙ f)
  where
    same : same_ℤ s.progress s.max ≡ true
    same = ground (arith, e)

    target : slide_down_target s p ≡ (if ltb_ℤ (p -ℤ s.min) (seven_eighths s) then none else some p)
    target =
        rw (slide_down_target, not_under_eighth s h e, and_false (ltb_ℤ s.progress p), same) refl

    ends :
        (if ltb_ℤ (p -ℤ s.min) (seven_eighths s) then none else some p) ≡ some q
        → seven_eighths s ≤ℤ q -ℤ s.min
    ends g = ground (arith, g)

-- With the finger going up from the least value, or down from the greatest, a move that would cross the
-- gap of the arc sets nothing: the value that is set is no more than an eighth of the width above the
-- least, or at least seven eighths of it.
pub slide_target_gap :
    (s : SeekBar) (p q : ℤ)
    → IsWithin s
    → s.progress ≡ (if s.angle_add then s.min else s.max)
    → slide_target s p ≡ some q
    → if s.angle_add then q -ℤ s.min ≤ℤ eighth s else seven_eighths s ≤ℤ q -ℤ s.min
unfolding slide_target eighth seven_eighths
slide_target_gap s p q h e f = elim (Bool-cases s.angle_add) [
  | inl a ↦ rw a (slide_up s p q (omega arith) (e ∙ rw a refl) (rw a at f))
  | inr a ↦ rw a (slide_down s p q (omega arith) (e ∙ rw a refl) (rw a at f))
]
