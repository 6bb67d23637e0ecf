-- ===== src/Wlr/Seat.antt =====
-- The getters of wlr.c for seats, their pointer and keyboard state and their requests.
use janetland.Prelude.{ℕ, str_eq, if◌then◌else◌}
use janetland.Prelude.Int.{signed32}
use janetland.Janet.{Janet, Value, ◌>>=◌, number}
use janetland.Jl.{pointer_to_abs_obj}
use janetland.Wlr.{
  Headers, Getter, found, missing, or_else, keyword_of, object_or_nil,
  get_abstract_struct_signal_member,
}
use janetland.Wlr.SignalTables.{
  wlr_seat_keyboard_state_signal_offsets, wlr_seat_pointer_state_signal_offsets,
  wlr_seat_signal_offsets,
}

-- What `method_wlr_seat_get` reads of a `struct wlr_seat`.
pub record WlrSeat : Type 0 where
  pub addr : ℕ
  pub at_pointer_state : ℕ
  pub at_keyboard_state : ℕ

unfoldable pub method_wlr_seat_get : Janet → Headers → WlrSeat → Value → Getter
method_wlr_seat_get J H s key = do
  kw ← keyword_of key
  signal ← get_abstract_struct_signal_member J s.addr kw (wlr_seat_signal_offsets H)
  or_else signal (
      if str_eq kw "pointer-state"
      then found (pointer_to_abs_obj s.at_pointer_state "wlr/wlr-seat-pointer-state")
      else if str_eq kw "keyboard-state"
      then found (pointer_to_abs_obj s.at_keyboard_state "wlr/wlr-seat-keyboard-state")
      else missing)

-- What `method_wlr_seat_pointer_state_get` reads of a `struct wlr_seat_pointer_state`.
pub record WlrSeatPointerState : Type 0 where
  pub addr : ℕ
  pub seat : ℕ
  pub focused_client : ℕ
  pub focused_surface : ℕ
  pub sx : ℕ
  pub sy : ℕ

unfoldable pub method_wlr_seat_pointer_state_get :
    Janet → Headers → WlrSeatPointerState → Value → Getter
method_wlr_seat_pointer_state_get J H s key = do
  kw ← keyword_of key
  signal ← get_abstract_struct_signal_member J s.addr kw (wlr_seat_pointer_state_signal_offsets H)
  or_else signal (
      if str_eq kw "seat"
      then found (object_or_nil s.seat "wlr/wlr-seat")
      else if str_eq kw "focused-client"
      then found (object_or_nil s.focused_client "wlr/wlr-seat-client")
      else if str_eq kw "focused-surface"
      then found (object_or_nil s.focused_surface "wlr/wlr-surface")
      else if str_eq kw "sx"
      then found (number s.sx)
      else if str_eq kw "sy"
      then found (number s.sy)
      else missing)

-- What `method_wlr_seat_keyboard_state_get` reads of a `struct wlr_seat_keyboard_state`.
pub record WlrSeatKeyboardState : Type 0 where
  pub addr : ℕ
  pub seat : ℕ
  pub keyboard : ℕ
  pub focused_client : ℕ
  pub focused_surface : ℕ

unfoldable pub method_wlr_seat_keyboard_state_get :
    Janet → Headers → WlrSeatKeyboardState → Value → Getter
method_wlr_seat_keyboard_state_get J H s key = do
  kw ← keyword_of key
  signal ← get_abstract_struct_signal_member J s.addr kw (wlr_seat_keyboard_state_signal_offsets H)
  or_else signal (
      if str_eq kw "seat"
      then found (object_or_nil s.seat "wlr/wlr-seat")
      else if str_eq kw "keyboard"
      then found (object_or_nil s.keyboard "wlr/wlr-keyboard")
      else if str_eq kw "focused-client"
      then found (object_or_nil s.focused_client "wlr/wlr-seat-client")
      else if str_eq kw "focused-surface"
      then found (object_or_nil s.focused_surface "wlr/wlr-surface")
      else missing)

-- What `method_wlr_seat_pointer_request_set_cursor_event_get` reads of a `struct wlr_seat_pointer_request_set_cursor_event`.
pub record WlrSeatPointerRequestSetCursorEvent : Type 0 where
  pub addr : ℕ
  pub seat_client : ℕ
  pub surface : ℕ
  pub serial : ℕ
  pub hotspot_x : ℕ
  pub hotspot_y : ℕ

unfoldable pub method_wlr_seat_pointer_request_set_cursor_event_get :
    Janet → Headers → WlrSeatPointerRequestSetCursorEvent → Value → Getter
method_wlr_seat_pointer_request_set_cursor_event_get J H s key = do
  kw ← keyword_of key
  if str_eq kw "seat-client"
      then found (pointer_to_abs_obj s.seat_client "wlr/wlr-seat-client")
      else if str_eq kw "surface"
      then found (pointer_to_abs_obj s.surface "wlr/wlr-surface")
      else if str_eq kw "serial"
      then found (J.wrap_integer (signed32 s.serial))
      else if str_eq kw "hotspot-x"
      then found (J.wrap_integer (signed32 s.hotspot_x))
      else if str_eq kw "hotspot-y"
      then found (J.wrap_integer (signed32 s.hotspot_y))
      else missing

-- What `method_wlr_seat_request_set_selection_event_get` reads of a `struct wlr_seat_request_set_selection_event`.
pub record WlrSeatRequestSetSelectionEvent : Type 0 where
  pub addr : ℕ
  pub source : ℕ
  pub serial : ℕ

unfoldable pub method_wlr_seat_request_set_selection_event_get :
    Janet → Headers → WlrSeatRequestSetSelectionEvent → Value → Getter
method_wlr_seat_request_set_selection_event_get J H s key = do
  kw ← keyword_of key
  if str_eq kw "source"
      then found (pointer_to_abs_obj s.source "wlr/wlr-data-source")
      else if str_eq kw "serial"
      then found (J.wrap_integer (signed32 s.serial))
      else missing
