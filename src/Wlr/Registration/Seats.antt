-- ===== src/Wlr/Registration/Seats.antt =====
-- wlr.c: the rows of the registration table for seats.
use janetland.Prelude.{List, [], ◌∷◌}
use janetland.Janet.{Janet}
use janetland.Headers.{Headers}
use janetland.Wlr.Calls.{Wlroots}
use janetland.Wlr.Calls.Seats.{
  cfun_wlr_seat_create, cfun_wlr_seat_set_keyboard, cfun_wlr_seat_keyboard_notify_modifiers,
  cfun_wlr_seat_keyboard_notify_key, cfun_wlr_seat_keyboard_notify_enter,
  cfun_wlr_seat_keyboard_notify_clear_focus, cfun_wlr_seat_pointer_notify_button,
  cfun_wlr_seat_pointer_notify_axis, cfun_wlr_seat_pointer_notify_frame,
  cfun_wlr_seat_pointer_notify_enter, cfun_wlr_seat_pointer_notify_motion,
  cfun_wlr_seat_pointer_notify_clear_focus, cfun_wlr_seat_pointer_clear_focus,
  cfun_wlr_seat_set_capabilities, cfun_wlr_seat_set_selection, cfun_wlr_seat_get_keyboard,
  cfun_wlr_seat_destroy,
}
use janetland.Wlr.Registration.{JanetReg}

module _ {S : Type 0} (H : Headers) (J : Janet) (L : Wlroots S) where
  abbrev pub seat_keyboard_cfuns : List (JanetReg S)
  seat_keyboard_cfuns =
      record {
        name = "wlr-seat-create";
        cfun = cfun_wlr_seat_create H J L;
        documentation = "(wlr/wlr-seat-create wl-display name)\n\nCreates a wlroots seat object.";
      }
      ∷ record {
        name = "wlr-seat-set-keyboard";
        cfun = cfun_wlr_seat_set_keyboard H J L;
        documentation =
            "(wlr/wlr-seat-set-keyboard wlr-seat wlr-keyboard)\n\nConnects a keyboard to a seat object.";
      }
      ∷ record {
        name = "wlr-seat-keyboard-notify-modifiers";
        cfun = cfun_wlr_seat_keyboard_notify_modifiers H J L;
        documentation =
            "(wlr/wlr-seat-keyboard-notify-modifiers wlr-seat wlr-keyboard-modifiers)\n\nNotifies the seat object that the states of keyboard modifiers changed.";
      }
      ∷ record {
        name = "wlr-seat-keyboard-notify-key";
        cfun = cfun_wlr_seat_keyboard_notify_key H J L;
        documentation =
            "(wlr/wlr-seat-keyboard-notify-key wlr-seat time key state)\n\nNotifies the seat object that there's a key event.";
      }
      ∷ record {
        name = "wlr-seat-keyboard-notify-enter";
        cfun = cfun_wlr_seat_keyboard_notify_enter H J L;
        documentation =
            "(wlr/wlr-seat-keyboard-notify-enter wlr-seat wlr-surface keycodes wlr-keyboard-modifiers)\n\nNotifies the seat object that the keyboard focus has changed.";
      }
      ∷ record {
        name = "wlr-seat-keyboard-notify-clear-focus";
        cfun = cfun_wlr_seat_keyboard_notify_clear_focus H J L;
        documentation =
            "(wlr/wlr-seat-keyboard-notify-clear-focus wlr-seat)\n\nNotifies the seat object that the keyboard focus has left the current surface.";
      }
      ∷ []

  abbrev pub seat_pointer_cfuns : List (JanetReg S)
  seat_pointer_cfuns =
      record {
        name = "wlr-seat-pointer-notify-button";
        cfun = cfun_wlr_seat_pointer_notify_button H J L;
        documentation =
            "(wlr/wlr-seat-pointer-notify-button wlr-seat time button state)\n\nNotifies the seat object that there's a pointer button event.";
      }
      ∷ record {
        name = "wlr-seat-pointer-notify-axis";
        cfun = cfun_wlr_seat_pointer_notify_axis H J L;
        documentation =
            "(wlr/wlr-seat-pointer-notify-axis wlr-seat time orientation value value-discrete source)\n\nNotifies the seat object that there's an pointer axis event.";
      }
      ∷ record {
        name = "wlr-seat-pointer-notify-frame";
        cfun = cfun_wlr_seat_pointer_notify_frame H J L;
        documentation =
            "(wlr/wlr-seat-pointer-notify-frame wlr-seat)\n\nNotifies the seat object that there's an pointer frame event.";
      }
      ∷ record {
        name = "wlr-seat-pointer-notify-enter";
        cfun = cfun_wlr_seat_pointer_notify_enter H J L;
        documentation =
            "(wlr/wlr-seat-pointer-notify-enter wlr-seat wlr-surface sx sy)\n\nNotifies the seat object that there's an pointer enter event.";
      }
      ∷ record {
        name = "wlr-seat-pointer-notify-motion";
        cfun = cfun_wlr_seat_pointer_notify_motion H J L;
        documentation =
            "(wlr/wlr-seat-pointer-notify-motion wlr-seat time sx sy)\n\nNotifies the seat object that there's an pointer motion event.";
      }
      ∷ record {
        name = "wlr-seat-pointer-notify-clear-focus";
        cfun = cfun_wlr_seat_pointer_notify_clear_focus H J L;
        documentation =
            "(wlr/wlr-seat-pointer-notify-clear-focus wlr-seat)\n\nNotifies the seat object that the pointer focus has left.";
      }
      ∷ record {
        name = "wlr-seat-pointer-clear-focus";
        cfun = cfun_wlr_seat_pointer_clear_focus H J L;
        documentation =
            "(wlr/wlr-seat-pointer-clear-focus wlr-seat)\n\nClears the focused surface for the pointer.";
      }
      ∷ record {
        name = "wlr-seat-set-capabilities";
        cfun = cfun_wlr_seat_set_capabilities H J L;
        documentation =
            "(wlr/wlr-seat-set-capabilities wlr-seat capabilities)\n\nSets the capabilities of a seat.";
      }
      ∷ record {
        name = "wlr-seat-set-selection";
        cfun = cfun_wlr_seat_set_selection H J L;
        documentation =
            "(wlr/wlr-seat-set-selection wlr-seat wlr-data-source serial)\n\nSets the current selection for the seat.";
      }
      ∷ record {
        name = "wlr-seat-get-keyboard";
        cfun = cfun_wlr_seat_get_keyboard H J L;
        documentation =
            "(wlr/wlr-seat-get-keyboard wlr-seat)\n\nGets the current active keyboard for the seat.";
      }
      ∷ record {
        name = "wlr-seat-destroy";
        cfun = cfun_wlr_seat_destroy H J L;
        documentation = "(wlr/wlr-seat-destroy wlr-seat)\n\nDestroys the wlroots seat object.";
      }
      ∷ []
