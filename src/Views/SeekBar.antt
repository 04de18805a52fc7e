-- ===== src/Views/SeekBar.antt =====
-- src/viewlibs/arc_seekbar.cc: the progress of ArcSeekBar. The angle of a touch, which is computed in
-- floating point, is an argument, and so is what the listener that checks a change answers. `changes`
-- is what the listeners are told, the newest first. The numbers are unbounded: the int of the source
-- holds bounds of up to a seventh of its range, which (mMax - mMin) * 7 needs.
pub mod Progress
use cdroid_demo.Common.{
  ℕ, zero, suc, ◌+◌, ◌-◌, ◌*◌, ◌/◌, Bool, true, false, ◌&&◌, ◌||◌, not, List, [], ◌∷◌, Option, none,
  some, ltb, leb, if◌then◌else◌, ℤ, pos, negsuc, pos_part, neg_part, sub_ℕ, ◌+ℤ◌, ◌-ℤ◌, ltb_ℤ,
}

pub record SeekBar : Type 0 where
  pub min : ℤ
  pub max : ℤ
  pub progress : ℤ
  pub range_low : ℤ
  pub range_high : ℤ
  pub is_reverse : Bool
  pub angle_add : Bool
  pub from_user : Bool
  pub changes : List (ℤ × Bool)

abbrev pub leb_ℤ : ℤ → ℤ → Bool
leb_ℤ a b = not (ltb_ℤ b a)

abbrev pub same_ℤ : ℤ → ℤ → Bool
same_ℤ a b = leb_ℤ a b && leb_ℤ b a

-- initViewData.
unfoldable pub init_view_data : SeekBar
init_view_data = record {
  min = pos 0;
  max = pos 100;
  progress = pos 30;
  range_low = pos 0;
  range_high = pos 0;
  is_reverse = false;
  angle_add = false;
  from_user = false;
  changes = [];
}

abbrev or_default : Option ℤ → ℤ → ℤ
or_default none d = d
or_default (some n) d = n

-- The constructor with attributes: min, max, progress and reverse, `none` where one is not given. The
-- one with a width and a height is that with none given.
unfoldable pub create : Option ℤ → Option ℤ → Option ℤ → Bool → SeekBar
unfolding init_view_data
create min max progress is_reverse = record init_view_data {
  min = or_default min init_view_data.min;
  max = or_default max init_view_data.max;
  progress = or_default progress init_view_data.progress;
  is_reverse = is_reverse;
}

unfoldable pub on_change_progress : SeekBar → SeekBar
on_change_progress s = record s { changes = (s.progress, s.from_user) ∷ s.changes }

unfoldable pub set_min : SeekBar → ℤ → SeekBar
unfolding on_change_progress
set_min s min =
    if same_ℤ s.min min
    then s
    else if ltb_ℤ s.progress min
    then on_change_progress (record s { min = min; progress = min })
    else record s { min = min }

unfoldable pub set_max : SeekBar → ℤ → SeekBar
unfolding on_change_progress
set_max s max =
    if same_ℤ s.max max
    then s
    else if ltb_ℤ max s.progress
    then on_change_progress (record s { max = max; progress = max })
    else record s { max = max }

unfoldable pub is_range : SeekBar → ℤ → ℤ → Bool
is_range s low high = leb_ℤ s.min low && (leb_ℤ high s.max && ltb_ℤ low high)

unfoldable pub set_range : SeekBar → ℤ → ℤ → SeekBar
unfolding is_range
set_range s r0 r2 =
    let high = if ltb_ℤ r2 r0 then s.max else r2 in
    if is_range s r0 high
    then record s { range_low = r0; range_high = high }
    else record s { range_low = pos 0; range_high = pos 0 }

unfoldable pub check_range : SeekBar → ℤ → ℤ
unfolding is_range
check_range s progress =
    if is_range s s.range_low s.range_high
    then (if ltb_ℤ s.range_high progress
        then s.range_high
        else if ltb_ℤ progress s.range_low
        then s.range_low
        else progress)
    else progress

unfoldable pub clamp : SeekBar → ℤ → ℤ
clamp s progress =
    if ltb_ℤ s.max progress then s.max else if ltb_ℤ progress s.min then s.min else progress

-- `is_allowed` is the answer of the listener that checks, true where there is none.
unfoldable pub set_progress : SeekBar → Bool → ℤ → SeekBar
unfolding clamp check_range on_change_progress
set_progress s is_allowed progress =
    let wanted = check_range s (clamp s progress) in
    if is_allowed
    then (if same_ℤ wanted s.progress
        then s
        else on_change_progress (record s { progress = wanted }))
    else s

-- a / b of C for a positive b: towards 0.
unfoldable pub quotient : ℤ → ℕ → ℤ
quotient (pos a) b = pos (a / b)
quotient (negsuc a) b = pos 0 -ℤ pos (suc a / b)

-- An eighth and seven eighths of the width.
unfoldable pub eighth : SeekBar → ℤ
unfolding quotient
eighth s = quotient (s.max -ℤ s.min) 8

unfoldable pub seven_eighths : SeekBar → ℤ
unfolding quotient
seven_eighths s = let w = s.max -ℤ s.min in quotient (w +ℤ w +ℤ w +ℤ w +ℤ w +ℤ w +ℤ w) 8

-- What a move of the finger to `progress` sets, against going round the gap, with the finger going up
-- and down; `none` is the break.
unfoldable pub slide_up_target : SeekBar → ℤ → Option ℤ
unfolding eighth seven_eighths
slide_up_target s progress =
    if ltb_ℤ progress s.progress && ltb_ℤ (seven_eighths s) (s.progress -ℤ s.min)
    then some s.max
    else if same_ℤ s.progress s.min
    then (if ltb_ℤ (eighth s) (progress -ℤ s.min) then none else some progress)
    else some progress

unfoldable pub slide_down_target : SeekBar → ℤ → Option ℤ
unfolding eighth seven_eighths
slide_down_target s progress =
    if ltb_ℤ s.progress progress && ltb_ℤ (s.progress -ℤ s.min) (eighth s)
    then some s.min
    else if same_ℤ s.progress s.max
    then (if ltb_ℤ (progress -ℤ s.min) (seven_eighths s) then none else some progress)
    else some progress

unfoldable pub slide_target : SeekBar → ℤ → Option ℤ
unfolding slide_up_target slide_down_target
slide_target s progress =
    if s.angle_add then slide_up_target s progress else slide_down_target s progress

-- mFromUser is true while the progress is set.
unfoldable pub user_progress : SeekBar → Bool → ℤ → SeekBar
unfolding set_progress
user_progress s is_allowed progress =
    record (set_progress (record s { from_user = true }) is_allowed progress) { from_user = false }

-- ACTION_MOVE with the slider held: `is_added` is what calcTouchState finds, `is_near` that the angle is
-- no more than ARC_EXTEND_ANGLE before the start of the arc, and `value` the progress of the angle,
-- mMin + getWidthProgress() * (angle - mStartAngle) / (mEndAngle - mStartAngle).
unfoldable pub move_slider : SeekBar → Bool → Bool → Bool → ℤ → SeekBar
unfolding slide_target user_progress
move_slider s is_allowed is_added false value = record s { angle_add = is_added }
move_slider s is_allowed is_added true value =
    let turned = record s { angle_add = if s.is_reverse then not is_added else is_added } in
    elim (slide_target turned (if s.is_reverse then s.max -ℤ value else value)) [
      | none ↦ turned
      | some progress ↦ user_progress turned is_allowed progress
    ]

-- ACTION_DOWN on the arc, beside the slider.
unfoldable pub press_arc : SeekBar → Bool → ℤ → SeekBar
unfolding user_progress
press_arc s is_allowed value =
    user_progress s is_allowed (if s.is_reverse then s.max -ℤ value else value)
