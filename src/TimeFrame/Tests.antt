-- ===== src/TimeFrame/Tests.antt =====
-- The time frame on a concrete calendar, which goes back by hours and days of fixed length.
use teletrace.Base.{ℕ, ◌*◌, ◌-◌, refl, true, false, some, arith}
use teletrace.Store.State.{State, assign, Zustand}
use teletrace.Store.Slices.{initial_state}
use teletrace.TimeFrame.{
  Calendar, relative, SelectorState, DateTimeState, handle_apply, handle_btn_clicked, is_disabled,
}
use teletrace.TimeFrame.Run.{IsCoherent, Reach, here, clicked, Reach-IsCoherent}

abbrev calendar : Calendar
calendar = record {
  hours_back = λ n ms. ms - n * 3600000;
  days_back = λ n ms. ms - n * 86400000;
  with_time = λ date time. date;
  hours_back_le = λ n ms. omega arith;
  days_back_le = λ n ms. omega arith;
}

abbrev zustand : Zustand ℕ
zustand = record { set = λ u s. assign (u s).0 (u s).1; set_lem = λ u s. refl }

abbrev start : State ℕ
start = initial_state 5 6

abbrev hour : SelectorState
hour = record {
  is_open = false;
  previous_selected = relative "1H" "1h" "now";
  is_selected = relative "1H" "1h" "now";
}

abbrev dialog : DateTimeState
dialog = record {
  start_date = some 4;
  end_date = some 7;
  start_time = some 4;
  end_time = some 7;
  time_valid = true;
}

program : Unit {0}
unfolding initial_state handle_btn_clicked handle_apply is_disabled
program = tt

abbrev day_clicked : State ℕ
day_clicked = (handle_btn_clicked calendar zustand 7 8 9 (relative "1D" "1d" "now") (hour, start)).1

run : Reach calendar zustand start 6 9 day_clicked
run = clicked here 7 8 9 (omega arith) (omega arith) (omega arith) (relative "1D" "1d" "now") hour

Reach-IsCoherent_example : IsCoherent 9 day_clicked
Reach-IsCoherent_example = Reach-IsCoherent calendar zustand 5 6 (omega arith) run
