-- ===== src/Views/Clock.antt =====
-- src/viewlibs/time_textview.cc: TimeTextView, a clock whose colon blinks while it runs. `tickers` and
-- `starts` count what postDelayed holds: mTicker, and the calls of start that onMeasure posts.
use cdroid_demo.Common.{
  ℕ, ◌+◌, ◌-◌, ◌<◌, ◌≡◌, refl, sym, ap, ◌∙◌, append-nil, append_assoc, Bool, true, false, not, ◌&&◌,
  List, [], ◌∷◌, ◌++◌, arith, ◌==◌, if◌then◌else◌, All,
}

pub record Clock : Type 0 where
  pub is_start : Bool
  pub is_dot : Bool
  pub is_update : Bool
  pub auto_start : Bool
  pub tickers : ℕ
  pub starts : ℕ
  pub invalidations : ℕ

unfoldable pub init_clock : Bool → Clock
init_clock auto_start = record {
  is_start = false;
  is_dot = true;
  is_update = true;
  auto_start = auto_start;
  tickers = 0;
  starts = 0;
  invalidations = 0;
}

unfoldable pub start : Clock → Clock
start c = if c.is_start then c else record c {
  is_start = true;
  is_dot = false;
  is_update = true;
  invalidations = c.invalidations + 1;
  tickers = c.tickers + 1;
}

-- removeCallbacks takes out every mTicker that waits.
unfoldable pub stop : Clock → Clock
stop c =
    if c.is_start
    then record c {
      is_start = false;
      is_dot = true;
      is_update = false;
      invalidations = c.invalidations + 1;
      tickers = 0;
    }
    else c

-- The looper runs an mTicker, which posts itself again.
unfoldable pub on_ticker : Clock → Clock
on_ticker c = record c {
  tickers = c.tickers - 1 + 1;
  is_dot = not c.is_dot;
  invalidations = if c.is_update then c.invalidations + 1 else c.invalidations;
}

-- The end of onMeasure.
unfoldable pub measure_start : Clock → Clock
measure_start c = if c.auto_start && not c.is_start then record c { starts = c.starts + 1 } else c

-- The looper runs a start that onMeasure posted.
unfoldable pub run_start : Clock → Clock
unfolding start
run_start c = start (record c { starts = c.starts - 1 })

unfoldable pub set_is_update : Clock → Bool → Clock
set_is_update c flag = record c { is_update = flag }

-- The text of onDraw before its colon and after it: 58 is the colon.
pub record Parts : Type 0 where
  pub hour : List ℕ
  pub minute : List ℕ

unfoldable pub split_time : List ℕ → Bool → Parts → Parts
split_time [] is_hour p = p
split_time (c ∷ cs) is_hour p =
    let colon = split_time cs false p in
    let hour = split_time cs true (record p { hour = p.hour ++ c ∷ [] }) in
    let minute = split_time cs false (record p { minute = p.minute ++ c ∷ [] }) in
    if c == 58 then colon else if is_hour then hour else minute

-- What can happen to a clock.
pub data Step (c : Clock) : Clock → Type 0 where
  starting : Step c (start c)
  stopping : Step c (stop c)
  ticking : 0 < c.tickers → Step c (on_ticker c)
  measured : Step c (measure_start c)
  delayed : 0 < c.starts → Step c (run_start c)
  updating : (flag : Bool) → Step c (set_is_update c flag)

pub data Reach (c : Clock) : Clock → Type 0 where
  here : Reach c c
  next : {d e : Clock} → Reach c d → Step d e → Reach c e

-- One ticker waits while the clock runs and none when it stands, where the colon is shown.
abbrev pub IsTimed : Clock → Type 0
IsTimed c =
    (c.tickers ≡ (if c.is_start then 1 else 0)) × (if c.is_start then Unit else c.is_dot ≡ true)

Step-IsTimed : {c d : Clock} → Step c d → IsTimed c → IsTimed d
unfolding start stop on_ticker measure_start run_start set_is_update
Step-IsTimed {c} starting h = ground (arith, h)
Step-IsTimed {c} stopping h = ground (arith, h)
Step-IsTimed {c} (ticking p) h = ground (arith, h, p)
Step-IsTimed {c} measured h = ground (arith, h)
Step-IsTimed {c} (delayed p) h = ground (arith, h, p)
Step-IsTimed {c} (updating flag) h = ground (arith, h)

-- However often a clock is started, stopped, measured and ticks, in any order: exactly one ticker waits
-- while it runs and none while it stands, and while it stands its colon is shown.
pub run-IsTimed : (auto_start : Bool) {c : Clock} → Reach (init_clock auto_start) c → IsTimed c
unfolding init_clock
run-IsTimed auto_start here = (refl, refl)
run-IsTimed auto_start (next r s) = Step-IsTimed s (run-IsTimed auto_start r)

abbrev NoColon : ℕ → Type 0
NoColon c = (c == 58) ≡ false

minute_part :
    (m : List ℕ) (p : Parts)
    → All NoColon m
    → split_time m false p ≡ record p { minute = p.minute ++ m }
unfolding split_time
minute_part [] p h = ap (λ m. record p { minute = m }) (sym (append-nil p.minute))
minute_part (c ∷ m) p h =
    rw (split_time, h.0)
      (minute_part m (record p { minute = p.minute ++ c ∷ [] }) h.1
        ∙ ap (λ l. record p { minute = l }) (append_assoc p.minute (c ∷ []) m))

hour_part :
    (h m : List ℕ) (p : Parts)
    → All NoColon h
    → split_time (h ++ 58 ∷ m) true p ≡ split_time m false (record p { hour = p.hour ++ h })
unfolding split_time
hour_part [] m p n = ap (λ l. split_time m false (record p { hour = l })) (sym (append-nil p.hour))
hour_part (c ∷ h) m p n =
    rw (split_time, n.0)
      (hour_part h m (record p { hour = p.hour ++ c ∷ [] }) n.1
        ∙ ap (λ l. split_time m false (record p { hour = l })) (append_assoc p.hour (c ∷ []) h))

-- What onDraw takes from a text of an hour, a colon and a minute is the hour and the minute.
pub split_time-append :
    (h m : List ℕ)
    → All NoColon h
    → All NoColon m
    → split_time (h ++ 58 ∷ m) true (record { hour = []; minute = [] })
      ≡ record { hour = h; minute = m }
split_time-append h m n k =
    hour_part h m (record { hour = []; minute = [] }) n
    ∙ minute_part m (record { hour = h; minute = [] }) k
