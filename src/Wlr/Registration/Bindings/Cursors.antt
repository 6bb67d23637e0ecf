-- ===== src/Wlr/Registration/Bindings/Cursors.antt =====
-- The rows of the registration table for scene surfaces, cursors and keyboards, one by one.
use janetland.Prelude.{refl, All}
use janetland.Janet.{Janet}
use janetland.Headers.{Headers}
use janetland.Wlr.Calls.{Wlroots}
use janetland.Wlr.Calls.SceneGraph.{
  cfun_wlr_scene_surface_create, cfun_wlr_scene_subsurface_tree_create, cfun_wlr_scene_node_at,
}
use janetland.Wlr.Calls.Setup.{cfun_wlr_xdg_shell_create}
use janetland.Wlr.Calls.Cursors.{
  cfun_wlr_cursor_create, cfun_wlr_cursor_move, cfun_wlr_cursor_warp_absolute,
  cfun_wlr_cursor_attach_output_layout, cfun_wlr_cursor_attach_input_device,
  cfun_wlr_cursor_set_surface, cfun_wlr_cursor_destroy, cfun_wlr_xcursor_manager_create,
  cfun_wlr_xcursor_manager_load, cfun_wlr_xcursor_manager_get_xcursor,
  cfun_wlr_xcursor_manager_set_cursor_image,
}
use janetland.Wlr.Calls.Keyboards.{
  cfun_wlr_keyboard_from_input_device, cfun_wlr_keyboard_set_keymap,
  cfun_wlr_keyboard_set_repeat_info, cfun_wlr_keyboard_get_modifiers,
}
use janetland.Wlr.Calls.Rules.{call_rules}
use janetland.Wlr.Registration.{IsBinding, binding}
use janetland.Wlr.Registration.Cursors.{scene_surface_cfuns, cursor_cfuns, xcursor_cfuns}

module _ {S : Type 0} (H : Headers) (J : Janet) (L : Wlroots S) where
  pub scene_surface_cfuns-IsBinding : All (IsBinding J L) (scene_surface_cfuns H J L)
  unfolding cfun_wlr_scene_surface_create cfun_wlr_scene_subsurface_tree_create
      cfun_wlr_scene_node_at cfun_wlr_xdg_shell_create
  scene_surface_cfuns-IsBinding = (
    binding "wlr_scene_surface_create" _ refl refl (λ argv. refl)
        (λ argv s args. search call_rules depth 40),
    (
      binding "wlr_scene_subsurface_tree_create" _ refl refl (λ argv. refl)
          (λ argv s args. search call_rules depth 40),
      (
        binding "wlr_scene_node_at" _ refl refl (λ argv. refl)
            (λ argv s args. search call_rules depth 40),
        (
          binding "wlr_xdg_shell_create" _ refl refl (λ argv. refl)
              (λ argv s args. search call_rules depth 40),
          tt,
        ),
      ),
    ),
  )

  pub cursor_cfuns-IsBinding : All (IsBinding J L) (cursor_cfuns H J L)
  unfolding cfun_wlr_cursor_create cfun_wlr_cursor_move cfun_wlr_cursor_warp_absolute
      cfun_wlr_cursor_attach_output_layout cfun_wlr_cursor_attach_input_device
      cfun_wlr_cursor_set_surface cfun_wlr_cursor_destroy
  cursor_cfuns-IsBinding = (
    binding "wlr_cursor_create" _ refl refl (λ argv. refl)
        (λ argv s args. search call_rules depth 40),
    (
      binding "wlr_cursor_move" _ refl refl (λ argv. refl)
          (λ argv s args. search call_rules depth 40),
      (
        binding "wlr_cursor_warp_absolute" _ refl refl (λ argv. refl)
            (λ argv s args. search call_rules depth 40),
        (
          binding "wlr_cursor_attach_output_layout" _ refl refl (λ argv. refl)
              (λ argv s args. search call_rules depth 40),
          (
            binding "wlr_cursor_attach_input_device" _ refl refl (λ argv. refl)
                (λ argv s args. search call_rules depth 40),
            (
              binding "wlr_cursor_set_surface" _ refl refl (λ argv. refl)
                  (λ argv s args. search call_rules depth 40),
              (
                binding "wlr_cursor_destroy" _ refl refl (λ argv. refl)
                    (λ argv s args. search call_rules depth 40),
                tt,
              ),
            ),
          ),
        ),
      ),
    ),
  )

  pub xcursor_cfuns-IsBinding : All (IsBinding J L) (xcursor_cfuns H J L)
  unfolding cfun_wlr_xcursor_manager_create cfun_wlr_xcursor_manager_load
      cfun_wlr_xcursor_manager_get_xcursor cfun_wlr_xcursor_manager_set_cursor_image
      cfun_wlr_keyboard_from_input_device cfun_wlr_keyboard_set_keymap
      cfun_wlr_keyboard_set_repeat_info cfun_wlr_keyboard_get_modifiers
  xcursor_cfuns-IsBinding = (
    binding "wlr_xcursor_manager_create" _ refl refl (λ argv. refl)
        (λ argv s args. search call_rules depth 40),
    (
      binding "wlr_xcursor_manager_load" _ refl refl (λ argv. refl)
          (λ argv s args. search call_rules depth 40),
      (
        binding "wlr_xcursor_manager_get_xcursor" _ refl refl (λ argv. refl)
            (λ argv s args. search call_rules depth 40),
        (
          binding "wlr_xcursor_manager_set_cursor_image" _ refl refl (λ argv. refl)
              (λ argv s args. search call_rules depth 40),
          (
            binding "wlr_keyboard_from_input_device" _ refl refl (λ argv. refl)
                (λ argv s args. search call_rules depth 40),
            (
              binding "wlr_keyboard_set_keymap" _ refl refl (λ argv. refl)
                  (λ argv s args. search call_rules depth 40),
              (
                binding "wlr_keyboard_set_repeat_info" _ refl refl (λ argv. refl)
                    (λ argv s args. search call_rules depth 40),
                (
                  binding "wlr_keyboard_get_modifiers" _ refl refl (λ argv. refl)
                      (λ argv s args. search call_rules depth 40),
                  tt,
                ),
              ),
            ),
          ),
        ),
      ),
    ),
  )
