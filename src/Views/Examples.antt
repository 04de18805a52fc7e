-- ===== src/Views/Examples.antt =====
-- Small runs of the views.
use cdroid_demo.Common.{◌≡◌, refl, true, false, arith, pos, some, none}
use cdroid_demo.Views.SeekBar.{SeekBar, create, init_view_data, set_max}
use cdroid_demo.Views.SeekBar.Progress.{IsWithin, run-IsWithin}
use cdroid_demo.Views.SeekBar.Progress
use cdroid_demo.Views.Clock.{
  Clock, init_clock, start, stop, measure_start, run_start, IsTimed, run-IsTimed,
}
use cdroid_demo.Views.Clock

-- The least value is 10, the value is 30, and the greatest one becomes 20.
abbrev given : SeekBar
given = create (some (pos 10)) none none true

abbrev short : SeekBar
short = set_max given (pos 20)

given-IsWithin : IsWithin given
unfolding create init_view_data
given-IsWithin = omega arith

short_run : Progress.Reach given short
unfolding create init_view_data
short_run = Progress.next Progress.start (Progress.greatest (pos 20) (omega arith))

run-IsWithin_example : IsWithin short
run-IsWithin_example = run-IsWithin (some (pos 10)) none none true given-IsWithin short_run

-- The least value is 50, and the value is 30.
outside : (create (some (pos 50)) none none false).progress ≡ pos 30
unfolding create init_view_data
outside = refl

-- A start that onMeasure posted runs after the clock was stopped.
started_again : (run_start (stop (start (measure_start (init_clock true))))).is_start ≡ true
unfolding init_clock measure_start start stop run_start
started_again = refl

abbrev ticked : Clock
ticked = start (init_clock false)

run-IsTimed_example : IsTimed ticked
run-IsTimed_example = run-IsTimed false (Clock.next Clock.here Clock.starting)
