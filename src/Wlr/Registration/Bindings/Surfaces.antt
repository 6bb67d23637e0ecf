-- ===== src/Wlr/Registration/Bindings/Surfaces.antt =====
-- The rows of the registration table for surfaces and shells, one by one.
use janetland.Prelude.{refl, All}
use janetland.Janet.{Janet}
use janetland.Headers.{Headers}
use janetland.Wlr.Calls.{Wlroots}
use janetland.Wlr.Calls.Surfaces.{
  cfun_wlr_surface_get_root_surface, cfun_wlr_surface_is_xwayland_surface,
  cfun_wlr_surface_is_xdg_surface, cfun_wlr_surface_surface_at, cfun_wlr_surface_send_enter,
  cfun_wlr_surface_send_leave, cfun_wlr_surface_send_frame_done,
}
use janetland.Wlr.Calls.XdgShell.{
  cfun_wlr_xdg_surface_from_wlr_surface, cfun_wlr_xdg_surface_schedule_configure,
  cfun_wlr_xdg_surface_get_geometry, cfun_wlr_xdg_toplevel_set_activated,
  cfun_wlr_xdg_toplevel_set_maximized, cfun_wlr_xdg_toplevel_set_fullscreen,
  cfun_wlr_xdg_toplevel_set_resizing, cfun_wlr_xdg_toplevel_set_tiled,
  cfun_wlr_xdg_toplevel_set_size,
}
use janetland.Wlr.Calls.SceneGraph.{
  cfun_wlr_scene_xdg_surface_create, cfun_wlr_scene_get_scene_output, cfun_wlr_scene_output_commit,
  cfun_wlr_scene_output_send_frame_done, cfun_wlr_scene_buffer_from_node,
  cfun_wlr_scene_surface_from_buffer,
}
use janetland.Wlr.Calls.Rules.{call_rules}
use janetland.Wlr.Registration.{IsBinding, binding}
use janetland.Wlr.Registration.Surfaces.{surface_cfuns, xdg_cfuns, scene_output_cfuns}

module _ {S : Type 0} (H : Headers) (J : Janet) (L : Wlroots S) where
  pub surface_cfuns-IsBinding : All (IsBinding J L) (surface_cfuns H J L)
  unfolding cfun_wlr_surface_get_root_surface cfun_wlr_surface_is_xwayland_surface
      cfun_wlr_surface_is_xdg_surface cfun_wlr_surface_surface_at cfun_wlr_surface_send_enter
      cfun_wlr_surface_send_leave cfun_wlr_surface_send_frame_done
  surface_cfuns-IsBinding = (
    binding "wlr_surface_get_root_surface" _ refl refl (λ argv. refl)
        (λ argv s args. search call_rules depth 40),
    (
      binding "wlr_surface_is_xwayland_surface" _ refl refl (λ argv. refl)
          (λ argv s args. search call_rules depth 40),
      (
        binding "wlr_surface_is_xdg_surface" _ refl refl (λ argv. refl)
            (λ argv s args. search call_rules depth 40),
        (
          binding "wlr_surface_surface_at" _ refl refl (λ argv. refl)
              (λ argv s args. search call_rules depth 40),
          (
            binding "wlr_surface_send_enter" _ refl refl (λ argv. refl)
                (λ argv s args. search call_rules depth 40),
            (
              binding "wlr_surface_send_leave" _ refl refl (λ argv. refl)
                  (λ argv s args. search call_rules depth 40),
              (
                binding "wlr_surface_send_frame_done" _ refl refl (λ argv. refl)
                    (λ argv s args. search call_rules depth 40),
                tt,
              ),
            ),
          ),
        ),
      ),
    ),
  )

  pub xdg_cfuns-IsBinding : All (IsBinding J L) (xdg_cfuns H J L)
  unfolding cfun_wlr_xdg_surface_from_wlr_surface cfun_wlr_xdg_surface_schedule_configure
      cfun_wlr_xdg_surface_get_geometry cfun_wlr_xdg_toplevel_set_activated
      cfun_wlr_xdg_toplevel_set_maximized cfun_wlr_xdg_toplevel_set_fullscreen
      cfun_wlr_xdg_toplevel_set_resizing cfun_wlr_xdg_toplevel_set_tiled
      cfun_wlr_xdg_toplevel_set_size
  xdg_cfuns-IsBinding = (
    binding "wlr_xdg_surface_from_wlr_surface" _ refl refl (λ argv. refl)
        (λ argv s args. search call_rules depth 40),
    (
      binding "wlr_xdg_surface_schedule_configure" _ refl refl (λ argv. refl)
          (λ argv s args. search call_rules depth 40),
      (
        binding "wlr_xdg_surface_get_geometry" _ refl refl (λ argv. refl)
            (λ argv s args. search call_rules depth 40),
        (
          binding "wlr_xdg_toplevel_set_activated" _ refl refl (λ argv. refl)
              (λ argv s args. search call_rules depth 40),
          (
            binding "wlr_xdg_toplevel_set_maximized" _ refl refl (λ argv. refl)
                (λ argv s args. search call_rules depth 40),
            (
              binding "wlr_xdg_toplevel_set_fullscreen" _ refl refl (λ argv. refl)
                  (λ argv s args. search call_rules depth 40),
              (
                binding "wlr_xdg_toplevel_set_resizing" _ refl refl (λ argv. refl)
                    (λ argv s args. search call_rules depth 40),
                (
                  binding "wlr_xdg_toplevel_set_tiled" _ refl refl (λ argv. refl)
                      (λ argv s args. search call_rules depth 40),
                  (
                    binding "wlr_xdg_toplevel_set_size" _ refl refl (λ argv. refl)
                        (λ argv s args. search call_rules depth 40),
                    tt,
                  ),
                ),
              ),
            ),
          ),
        ),
      ),
    ),
  )

  pub scene_output_cfuns-IsBinding : All (IsBinding J L) (scene_output_cfuns H J L)
  unfolding cfun_wlr_scene_xdg_surface_create cfun_wlr_scene_get_scene_output
      cfun_wlr_scene_output_commit cfun_wlr_scene_output_send_frame_done
      cfun_wlr_scene_buffer_from_node cfun_wlr_scene_surface_from_buffer
  scene_output_cfuns-IsBinding = (
    binding "wlr_scene_xdg_surface_create" _ refl refl (λ argv. refl)
        (λ argv s args. search call_rules depth 40),
    (
      binding "wlr_scene_get_scene_output" _ refl refl (λ argv. refl)
          (λ argv s args. search call_rules depth 40),
      (
        binding "wlr_scene_output_commit" _ refl refl (λ argv. refl)
            (λ argv s args. search call_rules depth 40),
        (
          binding "wlr_scene_output_send_frame_done" _ refl refl (λ argv. refl)
              (λ argv s args. search call_rules depth 40),
          (
            binding "wlr_scene_buffer_from_node" _ refl refl (λ argv. refl)
                (λ argv s args. search call_rules depth 40),
            (
              binding "wlr_scene_surface_from_buffer" _ refl refl (λ argv. refl)
                  (λ argv s args. search call_rules depth 40),
              tt,
            ),
          ),
        ),
      ),
    ),
  )
