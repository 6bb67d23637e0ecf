-- ===== src/Wlr/Calls/Seats.antt =====
-- wlr.c: the functions for seats.
use janetland.Prelude.{ℕ, ◌%◌, ◌^◌, List, [], ◌∷◌, some}
use janetland.Prelude.Int.{unsigned32}
use janetland.Janet.{Janet, Value, nil}
use janetland.Headers.{Headers}
use janetland.KeyDefs.{terminated}
use janetland.Action.{Action}
use janetland.Wlr.Tables.{
  wl_keyboard_key_state_rows, wl_seat_capability_rows, wlr_axis_orientation_rows,
  wlr_axis_source_rows, wlr_button_state_rows,
}
use janetland.Wlr.Calls.{
  Wlroots, ◌>>=◌, ◌>>◌, give, fixarity, call, double, indexed_arg, int, integer_arg, key_def_arg,
  key_flags_arg, number_arg, object_or_nil, object_or_panic, optional_pointer_arg, pointer_arg,
  pointer_by_name_arg, ptr, pure, string_arg, text, uint, uint64_arg, words, wrap_bits,
}
use janetland.Prelude.{◌+◌, length, ltb, leb, if◌then◌else◌}
use janetland.Janet.{Result, ok, fault, guard, ◌>>=◌ as bind}

-- The loop that fills `keycodes`, an array of `cap` words on the stack, from the place `i` on.
unfoldable pub key_codes_loop : Janet → ℕ → ℕ → List Value → Result (List ℕ)
key_codes_loop J cap i [] = ok []
key_codes_loop J cap i (v ∷ items) = bind (J.getuinteger64 v) (λ code.
    if ltb i cap
    then bind (key_codes_loop J cap (i + 1) items) (λ codes. ok (code % 2 ^ 32 ∷ codes))
    else fault)

-- The test of the length, and the loop.
unfoldable pub key_codes : Janet → ℕ → List Value → Result (List ℕ)
unfolding key_codes_loop
key_codes J cap items =
    bind (guard (leb (length items) cap) "expected at most %d key codes, got %d")
      (λ done. key_codes_loop J cap 0 items)

module _ {S : Type 0} (H : Headers) (J : Janet) (L : Wlroots S) where
  unfoldable pub cfun_wlr_seat_create : List Value → Action S Value
  cfun_wlr_seat_create argv = do
    fixarity argv 2
    display ← pointer_by_name_arg J L argv 0 "wl/wl-display"
    name ← string_arg J argv 1
    seat ← call L "wlr_seat_create" (ptr display ∷ text (some name) ∷ [])
    object_or_panic seat.value "wlr/wlr-seat" "failed to create wlroots seat object"

  unfoldable pub cfun_wlr_seat_set_keyboard : List Value → Action S Value
  cfun_wlr_seat_set_keyboard argv = do
    fixarity argv 2
    seat ← pointer_arg J L argv 0 "wlr/wlr-seat"
    keyboard ← pointer_arg J L argv 1 "wlr/wlr-keyboard"
    done ← call L "wlr_seat_set_keyboard" (ptr seat ∷ ptr keyboard ∷ [])
    give nil

  unfoldable pub cfun_wlr_seat_keyboard_notify_modifiers : List Value → Action S Value
  cfun_wlr_seat_keyboard_notify_modifiers argv = do
    fixarity argv 2
    seat ← pointer_arg J L argv 0 "wlr/wlr-seat"
    modifiers ← pointer_arg J L argv 1 "wlr/wlr-keyboard-modifiers"
    done ← call L "wlr_seat_keyboard_notify_modifiers" (ptr seat ∷ ptr modifiers ∷ [])
    give nil

  unfoldable pub cfun_wlr_seat_keyboard_notify_key : List Value → Action S Value
  cfun_wlr_seat_keyboard_notify_key argv = do
    fixarity argv 4
    seat ← pointer_arg J L argv 0 "wlr/wlr-seat"
    time ← uint64_arg J argv 1
    keycode ← uint64_arg J argv 2
    state ← key_def_arg J argv 3 (terminated (wl_keyboard_key_state_rows H))
    done ←
        call L "wlr_seat_keyboard_notify_key"
          (ptr seat ∷ uint (time % 2 ^ 32) ∷ uint (keycode % 2 ^ 32) ∷ uint state ∷ [])
    give nil

  unfoldable pub cfun_wlr_seat_keyboard_notify_clear_focus : List Value → Action S Value
  cfun_wlr_seat_keyboard_notify_clear_focus argv = do
    fixarity argv 1
    seat ← pointer_arg J L argv 0 "wlr/wlr-seat"
    done ← call L "wlr_seat_keyboard_notify_clear_focus" (ptr seat ∷ [])
    give nil

  unfoldable pub cfun_wlr_seat_pointer_notify_button : List Value → Action S Value
  cfun_wlr_seat_pointer_notify_button argv = do
    fixarity argv 4
    seat ← pointer_arg J L argv 0 "wlr/wlr-seat"
    time ← uint64_arg J argv 1
    button ← uint64_arg J argv 2
    state ← key_def_arg J argv 3 (terminated (wlr_button_state_rows H))
    serial ←
        call L "wlr_seat_pointer_notify_button"
          (ptr seat ∷ uint (time % 2 ^ 32) ∷ uint (button % 2 ^ 32) ∷ uint state ∷ [])
    give (wrap_bits J serial.value)

  unfoldable pub cfun_wlr_seat_pointer_notify_axis : List Value → Action S Value
  cfun_wlr_seat_pointer_notify_axis argv = do
    fixarity argv 6
    seat ← pointer_arg J L argv 0 "wlr/wlr-seat"
    time ← uint64_arg J argv 1
    orientation ← key_def_arg J argv 2 (terminated (wlr_axis_orientation_rows H))
    value ← number_arg J argv 3
    value_discrete ← integer_arg J argv 4
    source ← key_def_arg J argv 5 (terminated (wlr_axis_source_rows H))
    done ← call L "wlr_seat_pointer_notify_axis" (
        ptr seat
        ∷ uint (time % 2 ^ 32)
        ∷ uint orientation
        ∷ double value
        ∷ int value_discrete
        ∷ uint source
        ∷ [])
    give nil

  unfoldable pub cfun_wlr_seat_pointer_notify_frame : List Value → Action S Value
  cfun_wlr_seat_pointer_notify_frame argv = do
    fixarity argv 1
    seat ← pointer_arg J L argv 0 "wlr/wlr-seat"
    done ← call L "wlr_seat_pointer_notify_frame" (ptr seat ∷ [])
    give nil

  unfoldable pub cfun_wlr_seat_pointer_notify_enter : List Value → Action S Value
  cfun_wlr_seat_pointer_notify_enter argv = do
    fixarity argv 4
    seat ← pointer_arg J L argv 0 "wlr/wlr-seat"
    surface ← pointer_arg J L argv 1 "wlr/wlr-surface"
    sx ← number_arg J argv 2
    sy ← number_arg J argv 3
    done ←
        call L "wlr_seat_pointer_notify_enter" (ptr seat ∷ ptr surface ∷ double sx ∷ double sy ∷ [])
    give nil

  unfoldable pub cfun_wlr_seat_pointer_notify_motion : List Value → Action S Value
  cfun_wlr_seat_pointer_notify_motion argv = do
    fixarity argv 4
    seat ← pointer_arg J L argv 0 "wlr/wlr-seat"
    time ← uint64_arg J argv 1
    sx ← number_arg J argv 2
    sy ← number_arg J argv 3
    done ←
        call L "wlr_seat_pointer_notify_motion"
          (ptr seat ∷ uint (time % 2 ^ 32) ∷ double sx ∷ double sy ∷ [])
    give nil

  unfoldable pub cfun_wlr_seat_pointer_notify_clear_focus : List Value → Action S Value
  cfun_wlr_seat_pointer_notify_clear_focus argv = do
    fixarity argv 1
    seat ← pointer_arg J L argv 0 "wlr/wlr-seat"
    done ← call L "wlr_seat_pointer_notify_clear_focus" (ptr seat ∷ [])
    give nil

  unfoldable pub cfun_wlr_seat_pointer_clear_focus : List Value → Action S Value
  cfun_wlr_seat_pointer_clear_focus argv = do
    fixarity argv 1
    seat ← pointer_arg J L argv 0 "wlr/wlr-seat"
    done ← call L "wlr_seat_pointer_clear_focus" (ptr seat ∷ [])
    give nil

  unfoldable pub cfun_wlr_seat_set_capabilities : List Value → Action S Value
  cfun_wlr_seat_set_capabilities argv = do
    fixarity argv 2
    seat ← pointer_arg J L argv 0 "wlr/wlr-seat"
    caps ← key_flags_arg J argv 1 (terminated (wl_seat_capability_rows H))
    done ← call L "wlr_seat_set_capabilities" (ptr seat ∷ uint caps ∷ [])
    give nil

  unfoldable pub cfun_wlr_seat_set_selection : List Value → Action S Value
  cfun_wlr_seat_set_selection argv = do
    fixarity argv 3
    seat ← pointer_arg J L argv 0 "wlr/wlr-seat"
    source ← optional_pointer_arg J L argv 1 "wlr/wlr-data-source"
    serial ← integer_arg J argv 2
    done ← call L "wlr_seat_set_selection" (ptr seat ∷ ptr source ∷ uint (unsigned32 serial) ∷ [])
    give nil

  unfoldable pub cfun_wlr_seat_get_keyboard : List Value → Action S Value
  cfun_wlr_seat_get_keyboard argv = do
    fixarity argv 1
    seat ← pointer_arg J L argv 0 "wlr/wlr-seat"
    keyboard ← call L "wlr_seat_get_keyboard" (ptr seat ∷ [])
    give (object_or_nil keyboard.value "wlr/wlr-keyboard")

  unfoldable pub cfun_wlr_seat_destroy : List Value → Action S Value
  cfun_wlr_seat_destroy argv = do
    fixarity argv 1
    seat ← pointer_arg J L argv 0 "wlr/wlr-seat"
    done ← call L "wlr_seat_destroy" (ptr seat ∷ [])
    give nil

  unfoldable pub cfun_wlr_seat_keyboard_notify_enter : List Value → Action S Value
  cfun_wlr_seat_keyboard_notify_enter argv = do
    fixarity argv 4
    seat ← pointer_arg J L argv 0 "wlr/wlr-seat"
    surface ← pointer_arg J L argv 1 "wlr/wlr-surface"
    kc_view ← indexed_arg J argv 2
    modifiers ← pointer_arg J L argv 3 "wlr/wlr-keyboard-modifiers"
    keycodes ← pure (key_codes J (H.const "WLR_KEYBOARD_KEYS_CAP") kc_view)
    done ←
        call L "wlr_seat_keyboard_notify_enter"
          (ptr seat ∷ ptr surface ∷ words keycodes ∷ uint (length keycodes) ∷ ptr modifiers ∷ [])
    give nil
