-- ===== src/Wlr/Registration/Bindings/Seats.antt =====
-- The rows of the registration table for seats, one by one.
use janetland.Prelude.{refl, All}
use janetland.Janet.{Janet}
use janetland.Headers.{Headers}
use janetland.Wlr.Calls.{Wlroots}
use janetland.Wlr.Calls.Seats.{
  cfun_wlr_seat_create, cfun_wlr_seat_set_keyboard, cfun_wlr_seat_keyboard_notify_modifiers,
  cfun_wlr_seat_keyboard_notify_key, cfun_wlr_seat_keyboard_notify_enter,
  cfun_wlr_seat_keyboard_notify_clear_focus, cfun_wlr_seat_pointer_notify_button,
  cfun_wlr_seat_pointer_notify_axis, cfun_wlr_seat_pointer_notify_frame,
  cfun_wlr_seat_pointer_notify_enter, cfun_wlr_seat_pointer_notify_motion,
  cfun_wlr_seat_pointer_notify_clear_focus, cfun_wlr_seat_pointer_clear_focus,
  cfun_wlr_seat_set_capabilities, cfun_wlr_seat_set_selection, cfun_wlr_seat_get_keyboard,
  cfun_wlr_seat_destroy,
}
use janetland.Wlr.Calls.Rules.{call_rules}
use janetland.Wlr.Registration.{IsBinding, binding}
use janetland.Wlr.Registration.Seats.{seat_keyboard_cfuns, seat_pointer_cfuns}

module _ {S : Type 0} (H : Headers) (J : Janet) (L : Wlroots S) where
  pub seat_keyboard_cfuns-IsBinding : All (IsBinding J L) (seat_keyboard_cfuns H J L)
  unfolding cfun_wlr_seat_create cfun_wlr_seat_set_keyboard cfun_wlr_seat_keyboard_notify_modifiers
      cfun_wlr_seat_keyboard_notify_key cfun_wlr_seat_keyboard_notify_enter
      cfun_wlr_seat_keyboard_notify_clear_focus
  seat_keyboard_cfuns-IsBinding = (
    binding "wlr_seat_create" _ refl refl (λ argv. refl)
        (λ argv s args. search call_rules depth 40),
    (
      binding "wlr_seat_set_keyboard" _ refl refl (λ argv. refl)
          (λ argv s args. search call_rules depth 40),
      (
        binding "wlr_seat_keyboard_notify_modifiers" _ refl refl (λ argv. refl)
            (λ argv s args. search call_rules depth 40),
        (
          binding "wlr_seat_keyboard_notify_key" _ refl refl (λ argv. refl)
              (λ argv s args. search call_rules depth 40),
          (
            binding "wlr_seat_keyboard_notify_enter" _ refl refl (λ argv. refl)
                (λ argv s args. search call_rules depth 40),
            (
              binding "wlr_seat_keyboard_notify_clear_focus" _ refl refl (λ argv. refl)
                  (λ argv s args. search call_rules depth 40),
              tt,
            ),
          ),
        ),
      ),
    ),
  )

  pub seat_pointer_cfuns-IsBinding : All (IsBinding J L) (seat_pointer_cfuns H J L)
  unfolding cfun_wlr_seat_pointer_notify_button cfun_wlr_seat_pointer_notify_axis
      cfun_wlr_seat_pointer_notify_frame cfun_wlr_seat_pointer_notify_enter
      cfun_wlr_seat_pointer_notify_motion cfun_wlr_seat_pointer_notify_clear_focus
      cfun_wlr_seat_pointer_clear_focus cfun_wlr_seat_set_capabilities cfun_wlr_seat_set_selection
      cfun_wlr_seat_get_keyboard cfun_wlr_seat_destroy
  seat_pointer_cfuns-IsBinding = (
    binding "wlr_seat_pointer_notify_button" _ refl refl (λ argv. refl)
        (λ argv s args. search call_rules depth 40),
    (
      binding "wlr_seat_pointer_notify_axis" _ refl refl (λ argv. refl)
          (λ argv s args. search call_rules depth 40 fits 8000),
      (
        binding "wlr_seat_pointer_notify_frame" _ refl refl (λ argv. refl)
            (λ argv s args. search call_rules depth 40),
        (
          binding "wlr_seat_pointer_notify_enter" _ refl refl (λ argv. refl)
              (λ argv s args. search call_rules depth 40),
          (
            binding "wlr_seat_pointer_notify_motion" _ refl refl (λ argv. refl)
                (λ argv s args. search call_rules depth 40),
            (
              binding "wlr_seat_pointer_notify_clear_focus" _ refl refl (λ argv. refl)
                  (λ argv s args. search call_rules depth 40),
              (
                binding "wlr_seat_pointer_clear_focus" _ refl refl (λ argv. refl)
                    (λ argv s args. search call_rules depth 40),
                (
                  binding "wlr_seat_set_capabilities" _ refl refl (λ argv. refl)
                      (λ argv s args. search call_rules depth 40),
                  (
                    binding "wlr_seat_set_selection" _ refl refl (λ argv. refl)
                        (λ argv s args. search call_rules depth 40),
                    (
                      binding "wlr_seat_get_keyboard" _ refl refl (λ argv. refl)
                          (λ argv s args. search call_rules depth 40),
                      (
                        binding "wlr_seat_destroy" _ refl refl (λ argv. refl)
                            (λ argv s args. search call_rules depth 40),
                        tt,
                      ),
                    ),
                  ),
                ),
              ),
            ),
          ),
        ),
      ),
    ),
  )
