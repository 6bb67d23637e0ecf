-- ===== src/AbstractTypes/Events.antt =====
-- struct_get, one abstract type each.
use janetland.Prelude.{ℕ, none, some, List, [], ◌∷◌}
use janetland.Janet.{Janet}
use janetland.Headers.{Headers}
use janetland.AbstractTypes.{AbstractType}
use janetland.AbstractTypes.{AbstractType, struct_get}
use janetland.Wlr.Input.{WlrKeyboardModifiers, method_wlr_keyboard_modifiers_get}
use janetland.Wlr.PointerEvents.{WlrPointerAxisEvent, method_wlr_pointer_axis_event_get}
use janetland.Wlr.Seat.{
  WlrSeatKeyboardState, WlrSeatPointerRequestSetCursorEvent, WlrSeatPointerState,
  WlrSeatRequestSetSelectionEvent, method_wlr_seat_keyboard_state_get,
  method_wlr_seat_pointer_request_set_cursor_event_get, method_wlr_seat_pointer_state_get,
  method_wlr_seat_request_set_selection_event_get,
}

module _ (J : Janet) (H : Headers) (first_word : ℕ → ℕ) where
  abbrev pub jwlr_at_wlr_pointer_axis_event : AbstractType
  jwlr_at_wlr_pointer_axis_event = record {
    name = "wlr/wlr-pointer-axis-event";
    Object = WlrPointerAxisEvent;
    gc = none;
    gcmark = none;
    get = some (struct_get (method_wlr_pointer_axis_event_get J H));
    put = none;
    tostring = none;
    compare = none;
  }

  abbrev pub jwlr_at_wlr_seat_pointer_state : AbstractType
  jwlr_at_wlr_seat_pointer_state = record {
    name = "wlr/wlr-seat-pointer-state";
    Object = WlrSeatPointerState;
    gc = none;
    gcmark = none;
    get = some (struct_get (method_wlr_seat_pointer_state_get J H));
    put = none;
    tostring = none;
    compare = none;
  }

  abbrev pub jwlr_at_wlr_seat_keyboard_state : AbstractType
  jwlr_at_wlr_seat_keyboard_state = record {
    name = "wlr/wlr-seat-keyboard-state";
    Object = WlrSeatKeyboardState;
    gc = none;
    gcmark = none;
    get = some (struct_get (method_wlr_seat_keyboard_state_get J H));
    put = none;
    tostring = none;
    compare = none;
  }

  abbrev pub jwlr_at_wlr_seat_pointer_request_set_cursor_event : AbstractType
  jwlr_at_wlr_seat_pointer_request_set_cursor_event = record {
    name = "wlr/wlr-seat-pointer-request-set-cursor-event";
    Object = WlrSeatPointerRequestSetCursorEvent;
    gc = none;
    gcmark = none;
    get = some (struct_get (method_wlr_seat_pointer_request_set_cursor_event_get J H));
    put = none;
    tostring = none;
    compare = none;
  }

  abbrev pub jwlr_at_wlr_seat_request_set_selection_event : AbstractType
  jwlr_at_wlr_seat_request_set_selection_event = record {
    name = "wlr/wlr-seat-request-set-selection-event";
    Object = WlrSeatRequestSetSelectionEvent;
    gc = none;
    gcmark = none;
    get = some (struct_get (method_wlr_seat_request_set_selection_event_get J H));
    put = none;
    tostring = none;
    compare = none;
  }

  abbrev pub jwlr_at_wlr_data_source : AbstractType
  jwlr_at_wlr_data_source = record {
    name = "wlr/wlr-data-source";
    Object = ℕ;
    gc = none;
    gcmark = none;
    get = none;
    put = none;
    tostring = none;
    compare = none;
  }

  abbrev pub jwlr_at_wlr_keyboard_modifiers : AbstractType
  jwlr_at_wlr_keyboard_modifiers = record {
    name = "wlr/wlr-keyboard-modifiers";
    Object = WlrKeyboardModifiers;
    gc = none;
    gcmark = none;
    get = some (struct_get (method_wlr_keyboard_modifiers_get J H));
    put = none;
    tostring = none;
    compare = none;
  }

  abbrev pub events_abstract_types : List AbstractType
  events_abstract_types =
      jwlr_at_wlr_pointer_axis_event ∷ jwlr_at_wlr_seat_pointer_state
      ∷ jwlr_at_wlr_seat_keyboard_state ∷ jwlr_at_wlr_seat_pointer_request_set_cursor_event
      ∷ jwlr_at_wlr_seat_request_set_selection_event ∷ jwlr_at_wlr_data_source
      ∷ jwlr_at_wlr_keyboard_modifiers ∷ []
