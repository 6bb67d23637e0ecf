-- ===== src/AbstractTypes/Getters.antt =====
-- The getters of the abstract types, as a table.
use janetland.Prelude.{ℕ, ◌≢◌, refl, inl, inr, List, [], ◌∷◌, All}
use janetland.Janet.{Janet}
use janetland.Headers.{Headers}
use janetland.AbstractTypes.{AbstractType}
use janetland.AbstractTypes.Wl.{wl_abstract_types}
use janetland.AbstractTypes.Outputs.{outputs_abstract_types}
use janetland.AbstractTypes.Shells.{shells_abstract_types}
use janetland.AbstractTypes.Seats.{seats_abstract_types}
use janetland.AbstractTypes.Devices.{devices_abstract_types}
use janetland.AbstractTypes.Events.{events_abstract_types}
use janetland.AbstractTypes.Xwayland.{xwayland_abstract_types}
use janetland.Wlr.Safety.Outputs.{
  backend_get-IsSafe, output_layout_get-IsSafe, scene_output_get-IsSafe, output_get-IsSafe,
  output_mode_get-IsSafe, scene_tree_get-IsSafe, scene_node_get-IsSafe, scene_surface_get-IsSafe,
  layer_shell_v1_get-IsSafe,
}
use janetland.Wlr.Safety.Shells.{
  xdg_shell_get-IsSafe, surface_get-IsSafe, surface_state_get-IsSafe, xdg_popup_get-IsSafe,
  xdg_toplevel_get-IsSafe, xdg_toplevel_resize_event_get-IsSafe, xdg_toplevel_move_event_get-IsSafe,
}
use janetland.Wlr.Safety.Devices.{
  cursor_get-IsSafe, seat_get-IsSafe, input_device_get-IsSafe, pointer_motion_event_get-IsSafe,
  pointer_motion_absolute_event_get-IsSafe, pointer_button_event_get-IsSafe,
  pointer_axis_event_get-IsSafe, seat_pointer_state_get-IsSafe, seat_keyboard_state_get-IsSafe,
  seat_pointer_request_set_cursor_event_get-IsSafe, seat_request_set_selection_event_get-IsSafe,
  xwayland_get-IsSafe, xwayland_resize_event_get-IsSafe, xwayland_minimize_event_get-IsSafe,
  xwayland_surface_configure_event_get-IsSafe,
}
use janetland.AbstractTypes.Safe.{
  AnswersSafely, struct_get-IsSafe, box_get-IsSafe, keyboard_modifiers_get-IsSafe,
}

module _ (J : Janet) (H : Headers) (first_word : ℕ → ℕ) where
  -- The abstract types of wl_abs_types.h and wlr_abs_types.h.
  abbrev pub abstract_types : List (List AbstractType)
  abstract_types =
      wl_abstract_types J H first_word
      ∷ outputs_abstract_types J H first_word
      ∷ shells_abstract_types J H first_word
      ∷ seats_abstract_types J H first_word
      ∷ devices_abstract_types J H first_word
      ∷ events_abstract_types J H first_word
      ∷ xwayland_abstract_types J H first_word
      ∷ []

  wl_abstract_types-IsSafe :
      (p : ℕ) → p ≢ 0 → All (AnswersSafely p) (wl_abstract_types J H first_word)
  wl_abstract_types-IsSafe p nonzero =
      (inr tt, (inr tt, (inr tt, (inr tt, (inr tt, (inr tt, tt))))))

  outputs_abstract_types-IsSafe :
      (p : ℕ) → p ≢ 0 → All (AnswersSafely p) (outputs_abstract_types J H first_word)
  outputs_abstract_types-IsSafe p nonzero = (
    inr (λ memory. box_get-IsSafe J H (memory p)),
    (
      inr (struct_get-IsSafe p nonzero (backend_get-IsSafe J H)),
      (
        inr tt,
        (
          inr tt,
          (
            inr tt,
            (
              inr tt,
              (
                inr tt,
                (
                  inr (struct_get-IsSafe p nonzero (output_layout_get-IsSafe J H)),
                  (
                    inr tt,
                    (
                      inl refl,
                      (
                        inr (struct_get-IsSafe p nonzero (scene_output_get-IsSafe J H)),
                        (inr (struct_get-IsSafe p nonzero (xdg_shell_get-IsSafe J H)), tt),
                      ),
                    ),
                  ),
                ),
              ),
            ),
          ),
        ),
      ),
    ),
  )

  shells_abstract_types-IsSafe :
      (p : ℕ) → p ≢ 0 → All (AnswersSafely p) (shells_abstract_types J H first_word)
  shells_abstract_types-IsSafe p nonzero = (
    inr (struct_get-IsSafe p nonzero (surface_get-IsSafe J H)),
    (
      inr (struct_get-IsSafe p nonzero (surface_state_get-IsSafe J H)),
      (
        inr (struct_get-IsSafe p nonzero (xdg_popup_get-IsSafe J H)),
        (
          inr (struct_get-IsSafe p nonzero (xdg_toplevel_get-IsSafe J H)),
          (
            inr (struct_get-IsSafe p nonzero (xdg_toplevel_resize_event_get-IsSafe J H)),
            (
              inr (struct_get-IsSafe p nonzero (xdg_toplevel_move_event_get-IsSafe J H)),
              (inl refl, tt),
            ),
          ),
        ),
      ),
    ),
  )

  seats_abstract_types-IsSafe :
      (p : ℕ) → p ≢ 0 → All (AnswersSafely p) (seats_abstract_types J H first_word)
  seats_abstract_types-IsSafe p nonzero = (
    inr (struct_get-IsSafe p nonzero (cursor_get-IsSafe J H)),
    (
      inr tt,
      (
        inl refl,
        (
          inl refl,
          (
            inr (struct_get-IsSafe p nonzero (seat_get-IsSafe J H)),
            (
              inr tt,
              (
                inr (struct_get-IsSafe p nonzero (output_get-IsSafe J H)),
                (inr (struct_get-IsSafe p nonzero (output_mode_get-IsSafe J H)), (inr tt, tt)),
              ),
            ),
          ),
        ),
      ),
    ),
  )

  devices_abstract_types-IsSafe :
      (p : ℕ) → p ≢ 0 → All (AnswersSafely p) (devices_abstract_types J H first_word)
  devices_abstract_types-IsSafe p nonzero = (
    inr (struct_get-IsSafe p nonzero (scene_tree_get-IsSafe J H)),
    (
      inr (struct_get-IsSafe p nonzero (scene_node_get-IsSafe J H)),
      (
        inr tt,
        (
          inr (struct_get-IsSafe p nonzero (scene_surface_get-IsSafe J H)),
          (
            inr (struct_get-IsSafe p nonzero (input_device_get-IsSafe J H)),
            (
              inl refl,
              (
                inr (struct_get-IsSafe p nonzero (pointer_motion_event_get-IsSafe J H)),
                (
                  inr (struct_get-IsSafe p nonzero (pointer_motion_absolute_event_get-IsSafe J H)),
                  (inr (struct_get-IsSafe p nonzero (pointer_button_event_get-IsSafe J H)), tt),
                ),
              ),
            ),
          ),
        ),
      ),
    ),
  )

  events_abstract_types-IsSafe :
      (p : ℕ) → p ≢ 0 → All (AnswersSafely p) (events_abstract_types J H first_word)
  events_abstract_types-IsSafe p nonzero = (
    inr (struct_get-IsSafe p nonzero (pointer_axis_event_get-IsSafe J H)),
    (
      inr (struct_get-IsSafe p nonzero (seat_pointer_state_get-IsSafe J H)),
      (
        inr (struct_get-IsSafe p nonzero (seat_keyboard_state_get-IsSafe J H)),
        (
          inr (struct_get-IsSafe p nonzero (seat_pointer_request_set_cursor_event_get-IsSafe J H)),
          (
            inr (struct_get-IsSafe p nonzero (seat_request_set_selection_event_get-IsSafe J H)),
            (inr tt, (inr (struct_get-IsSafe p nonzero (keyboard_modifiers_get-IsSafe J H)), tt)),
          ),
        ),
      ),
    ),
  )

  xwayland_abstract_types-IsSafe :
      (p : ℕ) → p ≢ 0 → All (AnswersSafely p) (xwayland_abstract_types J H first_word)
  xwayland_abstract_types-IsSafe p nonzero = (
    inl refl,
    (
      inl refl,
      (
        inr (struct_get-IsSafe p nonzero (xwayland_get-IsSafe J H)),
        (
          inl refl,
          (
            inr (struct_get-IsSafe p nonzero (xwayland_resize_event_get-IsSafe J H)),
            (
              inr (struct_get-IsSafe p nonzero (xwayland_minimize_event_get-IsSafe J H)),
              (
                inr (struct_get-IsSafe p nonzero (xwayland_surface_configure_event_get-IsSafe J H)),
                (inr (struct_get-IsSafe p nonzero (layer_shell_v1_get-IsSafe J H)), tt),
              ),
            ),
          ),
        ),
      ),
    ),
  )

  -- Every abstract type of the modules wl and wlr that has a `get` method, but for eight named ones, at an object that
  -- wraps a pointer other than NULL (or whose block is the struct): whatever the struct holds and whatever the key is, a
  -- keyword or not, the method ends in a value, in "no such member" or in a panic. It never reads past a table or
  -- uses a missing text.
  pub types_get-IsSafe : (p : ℕ) → p ≢ 0 → All (All (AnswersSafely p)) abstract_types
  types_get-IsSafe p nonzero = (
    wl_abstract_types-IsSafe p nonzero,
    (
      outputs_abstract_types-IsSafe p nonzero,
      (
        shells_abstract_types-IsSafe p nonzero,
        (
          seats_abstract_types-IsSafe p nonzero,
          (
            devices_abstract_types-IsSafe p nonzero,
            (
              events_abstract_types-IsSafe p nonzero,
              (xwayland_abstract_types-IsSafe p nonzero, tt),
            ),
          ),
        ),
      ),
    ),
  )
