-- ===== src/Wlr/PointerEvents.antt =====
-- The getters of wlr.c for the events of a pointer.
use janetland.Prelude.{ℕ, str_eq, if◌then◌else◌}
use janetland.Prelude.Int.{ℤ}
use janetland.Janet.{Janet, Value, ◌>>=◌, number}
use janetland.KeyDefs.{terminated}
use janetland.Wlr.{Headers, Getter, found, missing, keyword_of, object_or_nil, enum_keyword}
use janetland.Wlr.Tables.{wlr_axis_orientation_rows, wlr_axis_source_rows, wlr_button_state_rows}

-- What `method_wlr_pointer_motion_event_get` reads of a `struct wlr_pointer_motion_event`.
pub record WlrPointerMotionEvent : Type 0 where
  pub addr : ℕ
  pub pointer : ℕ
  pub time_msec : ℕ
  pub delta_x : ℕ
  pub delta_y : ℕ
  pub unaccel_dx : ℕ
  pub unaccel_dy : ℕ

unfoldable pub method_wlr_pointer_motion_event_get :
    Janet → Headers → WlrPointerMotionEvent → Value → Getter
method_wlr_pointer_motion_event_get J H s key = do
  kw ← keyword_of key
  if str_eq kw "pointer"
      then found (object_or_nil s.pointer "wlr/wlr-pointer")
      else if str_eq kw "time-msec"
      then found (J.wrap_u64 s.time_msec)
      else if str_eq kw "delta-x"
      then found (number s.delta_x)
      else if str_eq kw "delta-y"
      then found (number s.delta_y)
      else if str_eq kw "unaccel-dx"
      then found (number s.unaccel_dx)
      else if str_eq kw "unaccel-dy"
      then found (number s.unaccel_dy)
      else missing

-- What `method_wlr_pointer_motion_absolute_event_get` reads of a `struct wlr_pointer_motion_absolute_event`.
pub record WlrPointerMotionAbsoluteEvent : Type 0 where
  pub addr : ℕ
  pub pointer : ℕ
  pub time_msec : ℕ
  pub x : ℕ
  pub y : ℕ

unfoldable pub method_wlr_pointer_motion_absolute_event_get :
    Janet → Headers → WlrPointerMotionAbsoluteEvent → Value → Getter
method_wlr_pointer_motion_absolute_event_get J H s key = do
  kw ← keyword_of key
  if str_eq kw "pointer"
      then found (object_or_nil s.pointer "wlr/wlr-pointer")
      else if str_eq kw "time-msec"
      then found (J.wrap_u64 s.time_msec)
      else if str_eq kw "x"
      then found (number s.x)
      else if str_eq kw "y"
      then found (number s.y)
      else missing

-- What `method_wlr_pointer_button_event_get` reads of a `struct wlr_pointer_button_event`.
pub record WlrPointerButtonEvent : Type 0 where
  pub addr : ℕ
  pub pointer : ℕ
  pub time_msec : ℕ
  pub button : ℕ
  pub state : ℕ

unfoldable pub method_wlr_pointer_button_event_get :
    Janet → Headers → WlrPointerButtonEvent → Value → Getter
method_wlr_pointer_button_event_get J H s key = do
  kw ← keyword_of key
  if str_eq kw "pointer"
      then found (object_or_nil s.pointer "wlr/wlr-pointer")
      else if str_eq kw "time-msec"
      then found (J.wrap_u64 s.time_msec)
      else if str_eq kw "button"
      then found (J.wrap_u64 s.button)
      else if str_eq kw "state"
      then enum_keyword s.state (terminated (wlr_button_state_rows H))
          "unknown button state from wlroots pointer button event: %d"
      else missing

-- What `method_wlr_pointer_axis_event_get` reads of a `struct wlr_pointer_axis_event`.
pub record WlrPointerAxisEvent : Type 0 where
  pub addr : ℕ
  pub pointer : ℕ
  pub time_msec : ℕ
  pub source : ℕ
  pub orientation : ℕ
  pub delta : ℕ
  pub delta_discrete : ℤ

unfoldable pub method_wlr_pointer_axis_event_get :
    Janet → Headers → WlrPointerAxisEvent → Value → Getter
method_wlr_pointer_axis_event_get J H s key = do
  kw ← keyword_of key
  if str_eq kw "pointer"
      then found (object_or_nil s.pointer "wlr/wlr-pointer")
      else if str_eq kw "time-msec"
      then found (J.wrap_u64 s.time_msec)
      else if str_eq kw "source"
      then enum_keyword s.source (terminated (wlr_axis_source_rows H))
          "unknown axis source from wlroots pointer axis event: %d"
      else if str_eq kw "orientation"
      then enum_keyword s.orientation (terminated (wlr_axis_orientation_rows H))
          "unknown axis orientation from wlroots pointer axis event: %d"
      else if str_eq kw "delta"
      then found (number s.delta)
      else if str_eq kw "delta-discrete"
      then found (J.wrap_integer s.delta_discrete)
      else missing
