-- ===== src/Timeline/Tween.antt =====
-- utils/Tween.js: an animation from one value to another, frame by frame. Times are milliseconds, a
-- value is of any type, and `easeOutQuint` of the package tween-functions is a parameter.
pub mod Frames
use teletrace.Base.{
  ℕ, ◌+◌, ◌-◌, ◌==◌, Bool, true, false, not, ◌||◌, List, [], ◌∷◌, ◌++◌, if◌then◌else◌, leb,
}

-- A tween; a timer and a frame are waiting exactly if their ids are set.
pub record Tween (V : Type 0) : Type 0 where
  pub start_time : ℕ
  pub duration : ℕ
  pub from : V
  pub to : V
  pub callback_complete : Bool
  pub callback_update : Bool
  pub timeout_id : Bool
  pub request_id : Bool

pub record Current (V : Type 0) : Type 0 where
  pub is_done : Bool
  pub value : V

pub data Call (V : Type 0) : Type 0 where
  updated completed : Current V → Call V

module _ {V : Type 0} where
  -- The constructor at the time `now`; a delay of 0 is one that is not given.
  unfoldable pub create :
      (now duration delay : ℕ) → (from to : V) → (on_update on_complete : Bool) → Tween V
  create now duration delay from to on_update on_complete = record {
    start_time = now + delay;
    duration = duration;
    from = from;
    to = to;
    callback_complete = on_complete;
    callback_update = on_update;
    timeout_id = if on_update || on_complete then not (delay == 0) else false;
    request_id = if on_update || on_complete then delay == 0 else false;
  }

  -- `cancel`.
  unfoldable pub cancel : Tween V → Tween V
  cancel s = record s {
    timeout_id = false;
    request_id = false;
    callback_complete = false;
    callback_update = false;
  }

  -- `getCurrent` at the time `now`.
  unfoldable pub get_current : (ease : ℕ → V → V → ℕ → V) → (now : ℕ) → Tween V → Current V
  get_current ease now s =
      if leb now s.start_time
      then record { is_done = false; value = s.from }
      else if leb s.duration (now - s.start_time)
      then record { is_done = true; value = s.to }
      else record { is_done = false; value = ease (now - s.start_time) s.from s.to s.duration }

  -- `_frameCallback` at the time `now`: what it calls, and the tween after it. (The callbacks do not
  -- cancel the tween that calls them.)
  unfoldable pub frame_callback :
      (ease : ℕ → V → V → ℕ → V) → (now : ℕ) → Tween V → List (Call V) × Tween V
  unfolding get_current
  frame_callback ease now s =
      let current = get_current ease now s in
      let update = if s.callback_update then updated current ∷ [] else [] in
      let complete = if s.callback_complete then completed current ∷ [] else [] in
      if current.is_done
      then (
        update ++ complete,
        record s {
          timeout_id = false;
          request_id = false;
          callback_complete = false;
          callback_update = false;
        },
      )
      else (update, record s { timeout_id = false; request_id = true })
