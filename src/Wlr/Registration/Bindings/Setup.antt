-- ===== src/Wlr/Registration/Bindings/Setup.antt =====
-- The rows of the registration table for backends to scene trees, one by one.
use janetland.Prelude.{refl, All}
use janetland.Janet.{Janet}
use janetland.Headers.{Headers}
use janetland.Wlr.Calls.{Wlroots}
use janetland.Wlr.Calls.Setup.{
  cfun_wlr_backend_autocreate, cfun_wlr_backend_destroy, cfun_wlr_backend_start,
  cfun_wlr_renderer_autocreate, cfun_wlr_renderer_init_wl_display, cfun_wlr_allocator_autocreate,
  cfun_wlr_compositor_create, cfun_wlr_subcompositor_create, cfun_wlr_data_device_manager_create,
}
use janetland.Wlr.Calls.SceneGraph.{
  cfun_wlr_scene_create, cfun_wlr_scene_attach_output_layout, cfun_wlr_scene_node_destroy,
  cfun_wlr_scene_node_set_enabled, cfun_wlr_scene_node_set_position,
  cfun_wlr_scene_node_place_above, cfun_wlr_scene_node_place_below,
  cfun_wlr_scene_node_raise_to_top, cfun_wlr_scene_node_lower_to_bottom,
  cfun_wlr_scene_node_reparent, cfun_wlr_scene_node_coords, cfun_wlr_scene_tree_create,
}
use janetland.Wlr.Calls.Rules.{call_rules}
use janetland.Wlr.Registration.{IsBinding, binding}
use janetland.Wlr.Registration.Setup.{setup_cfuns, scene_node_cfuns}

module _ {S : Type 0} (H : Headers) (J : Janet) (L : Wlroots S) where
  pub setup_cfuns-IsBinding : All (IsBinding J L) (setup_cfuns H J L)
  unfolding cfun_wlr_backend_autocreate cfun_wlr_backend_destroy cfun_wlr_backend_start
      cfun_wlr_renderer_autocreate cfun_wlr_renderer_init_wl_display cfun_wlr_allocator_autocreate
      cfun_wlr_compositor_create cfun_wlr_subcompositor_create cfun_wlr_data_device_manager_create
      cfun_wlr_scene_create cfun_wlr_scene_attach_output_layout
  setup_cfuns-IsBinding = (
    binding "wlr_backend_autocreate" _ refl refl (λ argv. refl)
        (λ argv s args. search call_rules depth 40),
    (
      binding "wlr_backend_destroy" _ refl refl (λ argv. refl)
          (λ argv s args. search call_rules depth 40),
      (
        binding "wlr_backend_start" _ refl refl (λ argv. refl)
            (λ argv s args. search call_rules depth 40),
        (
          binding "wlr_renderer_autocreate" _ refl refl (λ argv. refl)
              (λ argv s args. search call_rules depth 40),
          (
            binding "wlr_renderer_init_wl_display" _ refl refl (λ argv. refl)
                (λ argv s args. search call_rules depth 40),
            (
              binding "wlr_allocator_autocreate" _ refl refl (λ argv. refl)
                  (λ argv s args. search call_rules depth 40),
              (
                binding "wlr_compositor_create" _ refl refl (λ argv. refl)
                    (λ argv s args. search call_rules depth 40),
                (
                  binding "wlr_subcompositor_create" _ refl refl (λ argv. refl)
                      (λ argv s args. search call_rules depth 40),
                  (
                    binding "wlr_data_device_manager_create" _ refl refl (λ argv. refl)
                        (λ argv s args. search call_rules depth 40),
                    (
                      binding "wlr_scene_create" _ refl refl (λ argv. refl)
                          (λ argv s args. search call_rules depth 40),
                      (
                        binding "wlr_scene_attach_output_layout" _ refl refl (λ argv. refl)
                            (λ argv s args. search call_rules depth 40),
                        tt,
                      ),
                    ),
                  ),
                ),
              ),
            ),
          ),
        ),
      ),
    ),
  )

  pub scene_node_cfuns-IsBinding : All (IsBinding J L) (scene_node_cfuns H J L)
  unfolding cfun_wlr_scene_node_destroy cfun_wlr_scene_node_set_enabled
      cfun_wlr_scene_node_set_position cfun_wlr_scene_node_place_above
      cfun_wlr_scene_node_place_below cfun_wlr_scene_node_raise_to_top
      cfun_wlr_scene_node_lower_to_bottom cfun_wlr_scene_node_reparent cfun_wlr_scene_node_coords
      cfun_wlr_scene_tree_create
  scene_node_cfuns-IsBinding = (
    binding "wlr_scene_node_destroy" _ refl refl (λ argv. refl)
        (λ argv s args. search call_rules depth 40),
    (
      binding "wlr_scene_node_set_enabled" _ refl refl (λ argv. refl)
          (λ argv s args. search call_rules depth 40),
      (
        binding "wlr_scene_node_set_position" _ refl refl (λ argv. refl)
            (λ argv s args. search call_rules depth 40),
        (
          binding "wlr_scene_node_place_above" _ refl refl (λ argv. refl)
              (λ argv s args. search call_rules depth 40),
          (
            binding "wlr_scene_node_place_below" _ refl refl (λ argv. refl)
                (λ argv s args. search call_rules depth 40),
            (
              binding "wlr_scene_node_raise_to_top" _ refl refl (λ argv. refl)
                  (λ argv s args. search call_rules depth 40),
              (
                binding "wlr_scene_node_lower_to_bottom" _ refl refl (λ argv. refl)
                    (λ argv s args. search call_rules depth 40),
                (
                  binding "wlr_scene_node_reparent" _ refl refl (λ argv. refl)
                      (λ argv s args. search call_rules depth 40),
                  (
                    binding "wlr_scene_node_coords" _ refl refl (λ argv. refl)
                        (λ argv s args. search call_rules depth 40),
                    (
                      binding "wlr_scene_tree_create" _ refl refl (λ argv. refl)
                          (λ argv s args. search call_rules depth 40),
                      tt,
                    ),
                  ),
                ),
              ),
            ),
          ),
        ),
      ),
    ),
  )
