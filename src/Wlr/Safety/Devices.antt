-- ===== src/Wlr/Safety/Devices.antt =====
-- The getters of wlr.c for input devices, seats, cursors and Xwayland that are safe on every key.
use janetland.Janet.{Janet, Value, IsSafe}
use janetland.Wlr.{Headers}
use janetland.Wlr.Safety.{safe}
use janetland.Wlr.Input.{WlrInputDevice, method_wlr_input_device_get}
use janetland.Wlr.PointerEvents.{
  WlrPointerMotionEvent, WlrPointerMotionAbsoluteEvent, WlrPointerButtonEvent, WlrPointerAxisEvent,
  method_wlr_pointer_motion_event_get, method_wlr_pointer_motion_absolute_event_get,
  method_wlr_pointer_button_event_get, method_wlr_pointer_axis_event_get,
}
use janetland.Wlr.Seat.{
  WlrSeat, WlrSeatPointerState, WlrSeatKeyboardState, WlrSeatPointerRequestSetCursorEvent,
  WlrSeatRequestSetSelectionEvent, method_wlr_seat_get, method_wlr_seat_pointer_state_get,
  method_wlr_seat_keyboard_state_get, method_wlr_seat_pointer_request_set_cursor_event_get,
  method_wlr_seat_request_set_selection_event_get,
}
use janetland.Wlr.Cursor.{WlrCursor, method_wlr_cursor_get}
use janetland.Wlr.Xwayland.{
  WlrXwayland, WlrXwaylandSurfaceConfigureEvent, WlrXwaylandResizeEvent, WlrXwaylandMinimizeEvent,
  method_wlr_xwayland_get, method_wlr_xwayland_surface_configure_event_get,
  method_wlr_xwayland_resize_event_get, method_wlr_xwayland_minimize_event_get,
}

-- One object of each type.
record DeviceObjects : Type 0 where
  pub input_device : WlrInputDevice
  pub pointer_motion_event : WlrPointerMotionEvent
  pub pointer_motion_absolute_event : WlrPointerMotionAbsoluteEvent
  pub pointer_button_event : WlrPointerButtonEvent
  pub pointer_axis_event : WlrPointerAxisEvent
  pub seat : WlrSeat
  pub seat_pointer_state : WlrSeatPointerState
  pub seat_keyboard_state : WlrSeatKeyboardState
  pub seat_pointer_request_set_cursor_event : WlrSeatPointerRequestSetCursorEvent
  pub seat_request_set_selection_event : WlrSeatRequestSetSelectionEvent
  pub cursor : WlrCursor
  pub xwayland : WlrXwayland
  pub xwayland_surface_configure_event : WlrXwaylandSurfaceConfigureEvent
  pub xwayland_resize_event : WlrXwaylandResizeEvent
  pub xwayland_minimize_event : WlrXwaylandMinimizeEvent

module _ (J : Janet) (H : Headers) where
  pub input_device_get-IsSafe :
      (s : WlrInputDevice) (key : Value) → IsSafe (method_wlr_input_device_get J H s key)
  unfolding method_wlr_input_device_get
  input_device_get-IsSafe s key = search safe depth 40

  pub pointer_motion_event_get-IsSafe :
      (s : WlrPointerMotionEvent) (key : Value)
      → IsSafe (method_wlr_pointer_motion_event_get J H s key)
  unfolding method_wlr_pointer_motion_event_get
  pointer_motion_event_get-IsSafe s key = search safe depth 40

  pub pointer_motion_absolute_event_get-IsSafe :
      (s : WlrPointerMotionAbsoluteEvent) (key : Value)
      → IsSafe (method_wlr_pointer_motion_absolute_event_get J H s key)
  unfolding method_wlr_pointer_motion_absolute_event_get
  pointer_motion_absolute_event_get-IsSafe s key = search safe depth 40

  pub pointer_button_event_get-IsSafe :
      (s : WlrPointerButtonEvent) (key : Value)
      → IsSafe (method_wlr_pointer_button_event_get J H s key)
  unfolding method_wlr_pointer_button_event_get
  pointer_button_event_get-IsSafe s key = search safe depth 40

  pub pointer_axis_event_get-IsSafe :
      (s : WlrPointerAxisEvent) (key : Value) → IsSafe (method_wlr_pointer_axis_event_get J H s key)
  unfolding method_wlr_pointer_axis_event_get
  pointer_axis_event_get-IsSafe s key = search safe depth 40

  pub seat_get-IsSafe : (s : WlrSeat) (key : Value) → IsSafe (method_wlr_seat_get J H s key)
  unfolding method_wlr_seat_get
  seat_get-IsSafe s key = search safe depth 40

  pub seat_pointer_state_get-IsSafe :
      (s : WlrSeatPointerState) (key : Value) → IsSafe (method_wlr_seat_pointer_state_get J H s key)
  unfolding method_wlr_seat_pointer_state_get
  seat_pointer_state_get-IsSafe s key = search safe depth 40

  pub seat_keyboard_state_get-IsSafe :
      (s : WlrSeatKeyboardState) (key : Value)
      → IsSafe (method_wlr_seat_keyboard_state_get J H s key)
  unfolding method_wlr_seat_keyboard_state_get
  seat_keyboard_state_get-IsSafe s key = search safe depth 40

  pub seat_pointer_request_set_cursor_event_get-IsSafe :
      (s : WlrSeatPointerRequestSetCursorEvent) (key : Value)
      → IsSafe (method_wlr_seat_pointer_request_set_cursor_event_get J H s key)
  unfolding method_wlr_seat_pointer_request_set_cursor_event_get
  seat_pointer_request_set_cursor_event_get-IsSafe s key = search safe depth 40

  pub seat_request_set_selection_event_get-IsSafe :
      (s : WlrSeatRequestSetSelectionEvent) (key : Value)
      → IsSafe (method_wlr_seat_request_set_selection_event_get J H s key)
  unfolding method_wlr_seat_request_set_selection_event_get
  seat_request_set_selection_event_get-IsSafe s key = search safe depth 40

  pub cursor_get-IsSafe : (s : WlrCursor) (key : Value) → IsSafe (method_wlr_cursor_get J H s key)
  unfolding method_wlr_cursor_get
  cursor_get-IsSafe s key = search safe depth 40

  pub xwayland_get-IsSafe :
      (s : WlrXwayland) (key : Value) → IsSafe (method_wlr_xwayland_get J H s key)
  unfolding method_wlr_xwayland_get
  xwayland_get-IsSafe s key = search safe depth 40

  pub xwayland_surface_configure_event_get-IsSafe :
      (s : WlrXwaylandSurfaceConfigureEvent) (key : Value)
      → IsSafe (method_wlr_xwayland_surface_configure_event_get J H s key)
  unfolding method_wlr_xwayland_surface_configure_event_get
  xwayland_surface_configure_event_get-IsSafe s key = search safe depth 40

  pub xwayland_resize_event_get-IsSafe :
      (s : WlrXwaylandResizeEvent) (key : Value)
      → IsSafe (method_wlr_xwayland_resize_event_get J H s key)
  unfolding method_wlr_xwayland_resize_event_get
  xwayland_resize_event_get-IsSafe s key = search safe depth 40

  pub xwayland_minimize_event_get-IsSafe :
      (s : WlrXwaylandMinimizeEvent) (key : Value)
      → IsSafe (method_wlr_xwayland_minimize_event_get J H s key)
  unfolding method_wlr_xwayland_minimize_event_get
  xwayland_minimize_event_get-IsSafe s key = search safe depth 40

  -- For every key, a keyword or not, these 15 getters end in a value, in "no such member" or in a
  -- panic: none reads past a table, names the NULL row of an enum's table or uses a missing text.
  device_getters-IsSafe :
      (o : DeviceObjects) (key : Value)
      → IsSafe (method_wlr_input_device_get J H o.input_device key)
        × IsSafe (method_wlr_pointer_motion_event_get J H o.pointer_motion_event key)
        × IsSafe
            (method_wlr_pointer_motion_absolute_event_get J H o.pointer_motion_absolute_event key)
        × IsSafe (method_wlr_pointer_button_event_get J H o.pointer_button_event key)
        × IsSafe (method_wlr_pointer_axis_event_get J H o.pointer_axis_event key)
        × IsSafe (method_wlr_seat_get J H o.seat key)
        × IsSafe (method_wlr_seat_pointer_state_get J H o.seat_pointer_state key)
        × IsSafe (method_wlr_seat_keyboard_state_get J H o.seat_keyboard_state key)
        × IsSafe (
            method_wlr_seat_pointer_request_set_cursor_event_get J H
              o.seat_pointer_request_set_cursor_event key)
        × IsSafe (
            method_wlr_seat_request_set_selection_event_get J H o.seat_request_set_selection_event
              key)
        × IsSafe (method_wlr_cursor_get J H o.cursor key)
        × IsSafe (method_wlr_xwayland_get J H o.xwayland key)
        × IsSafe (
            method_wlr_xwayland_surface_configure_event_get J H o.xwayland_surface_configure_event
              key)
        × IsSafe (method_wlr_xwayland_resize_event_get J H o.xwayland_resize_event key)
        × IsSafe (method_wlr_xwayland_minimize_event_get J H o.xwayland_minimize_event key)
  device_getters-IsSafe o key = (
    input_device_get-IsSafe o.input_device key,
    pointer_motion_event_get-IsSafe o.pointer_motion_event key,
    pointer_motion_absolute_event_get-IsSafe o.pointer_motion_absolute_event key,
    pointer_button_event_get-IsSafe o.pointer_button_event key,
    pointer_axis_event_get-IsSafe o.pointer_axis_event key,
    seat_get-IsSafe o.seat key,
    seat_pointer_state_get-IsSafe o.seat_pointer_state key,
    seat_keyboard_state_get-IsSafe o.seat_keyboard_state key,
    seat_pointer_request_set_cursor_event_get-IsSafe o.seat_pointer_request_set_cursor_event key,
    seat_request_set_selection_event_get-IsSafe o.seat_request_set_selection_event key,
    cursor_get-IsSafe o.cursor key,
    xwayland_get-IsSafe o.xwayland key,
    xwayland_surface_configure_event_get-IsSafe o.xwayland_surface_configure_event key,
    xwayland_resize_event_get-IsSafe o.xwayland_resize_event key,
    xwayland_minimize_event_get-IsSafe o.xwayland_minimize_event key,
  )
