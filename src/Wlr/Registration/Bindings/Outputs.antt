-- ===== src/Wlr/Registration/Bindings/Outputs.antt =====
-- The rows of the registration table for outputs and their layouts, one by one.
use janetland.Prelude.{refl, All}
use janetland.Janet.{Janet}
use janetland.Headers.{Headers}
use janetland.Wlr.Calls.{Wlroots}
use janetland.Wlr.Calls.Outputs.{
  cfun_wlr_output_init_render, cfun_wlr_output_preferred_mode, cfun_wlr_output_set_mode,
  cfun_wlr_output_enable, cfun_wlr_output_commit, cfun_wlr_output_destroy,
}
use janetland.Wlr.Calls.Layouts.{
  cfun_wlr_output_layout_create, cfun_wlr_output_layout_destroy, cfun_wlr_output_layout_get,
  cfun_wlr_output_layout_add_auto, cfun_wlr_output_layout_add, cfun_wlr_output_layout_move,
  cfun_wlr_output_layout_remove, cfun_wlr_output_layout_get_box, cfun_wlr_output_layout_output_at,
  cfun_wlr_output_layout_output_coords, cfun_wlr_output_layout_contains_point,
  cfun_wlr_output_layout_intersects, cfun_wlr_output_layout_closest_point,
  cfun_wlr_output_layout_get_center_output, cfun_wlr_output_layout_adjacent_output,
  cfun_wlr_output_layout_farthest_output,
}
use janetland.Wlr.Calls.Rules.{call_rules}
use janetland.Wlr.Registration.{IsBinding, binding}
use janetland.Wlr.Registration.Outputs.{output_cfuns, layout_cfuns, layout_point_cfuns}

module _ {S : Type 0} (H : Headers) (J : Janet) (L : Wlroots S) where
  pub output_cfuns-IsBinding : All (IsBinding J L) (output_cfuns H J L)
  unfolding cfun_wlr_output_init_render cfun_wlr_output_preferred_mode cfun_wlr_output_set_mode
      cfun_wlr_output_enable cfun_wlr_output_commit cfun_wlr_output_destroy
  output_cfuns-IsBinding = (
    binding "wlr_output_init_render" _ refl refl (λ argv. refl)
        (λ argv s args. search call_rules depth 40),
    (
      binding "wlr_output_preferred_mode" _ refl refl (λ argv. refl)
          (λ argv s args. search call_rules depth 40),
      (
        binding "wlr_output_set_mode" _ refl refl (λ argv. refl)
            (λ argv s args. search call_rules depth 40),
        (
          binding "wlr_output_enable" _ refl refl (λ argv. refl)
              (λ argv s args. search call_rules depth 40),
          (
            binding "wlr_output_commit" _ refl refl (λ argv. refl)
                (λ argv s args. search call_rules depth 40),
            (
              binding "wlr_output_destroy" _ refl refl (λ argv. refl)
                  (λ argv s args. search call_rules depth 40),
              tt,
            ),
          ),
        ),
      ),
    ),
  )

  pub layout_cfuns-IsBinding : All (IsBinding J L) (layout_cfuns H J L)
  unfolding cfun_wlr_output_layout_create cfun_wlr_output_layout_destroy cfun_wlr_output_layout_get
      cfun_wlr_output_layout_add_auto cfun_wlr_output_layout_add cfun_wlr_output_layout_move
      cfun_wlr_output_layout_remove cfun_wlr_output_layout_get_box
  layout_cfuns-IsBinding = (
    binding "wlr_output_layout_create" _ refl refl (λ argv. refl)
        (λ argv s args. search call_rules depth 40),
    (
      binding "wlr_output_layout_destroy" _ refl refl (λ argv. refl)
          (λ argv s args. search call_rules depth 40),
      (
        binding "wlr_output_layout_get" _ refl refl (λ argv. refl)
            (λ argv s args. search call_rules depth 40),
        (
          binding "wlr_output_layout_add_auto" _ refl refl (λ argv. refl)
              (λ argv s args. search call_rules depth 40),
          (
            binding "wlr_output_layout_add" _ refl refl (λ argv. refl)
                (λ argv s args. search call_rules depth 40),
            (
              binding "wlr_output_layout_move" _ refl refl (λ argv. refl)
                  (λ argv s args. search call_rules depth 40),
              (
                binding "wlr_output_layout_remove" _ refl refl (λ argv. refl)
                    (λ argv s args. search call_rules depth 40),
                (
                  binding "wlr_output_layout_get_box" _ refl refl (λ argv. refl)
                      (λ argv s args. search call_rules depth 40),
                  tt,
                ),
              ),
            ),
          ),
        ),
      ),
    ),
  )

  pub layout_point_cfuns-IsBinding : All (IsBinding J L) (layout_point_cfuns H J L)
  unfolding cfun_wlr_output_layout_output_at cfun_wlr_output_layout_output_coords
      cfun_wlr_output_layout_contains_point cfun_wlr_output_layout_intersects
      cfun_wlr_output_layout_closest_point cfun_wlr_output_layout_get_center_output
      cfun_wlr_output_layout_adjacent_output cfun_wlr_output_layout_farthest_output
  layout_point_cfuns-IsBinding = (
    binding "wlr_output_layout_output_at" _ refl refl (λ argv. refl)
        (λ argv s args. search call_rules depth 40),
    (
      binding "wlr_output_layout_output_coords" _ refl refl (λ argv. refl)
          (λ argv s args. search call_rules depth 40),
      (
        binding "wlr_output_layout_contains_point" _ refl refl (λ argv. refl)
            (λ argv s args. search call_rules depth 40),
        (
          binding "wlr_output_layout_intersects" _ refl refl (λ argv. refl)
              (λ argv s args. search call_rules depth 40),
          (
            binding "wlr_output_layout_closest_point" _ refl refl (λ argv. refl)
                (λ argv s args. search call_rules depth 40),
            (
              binding "wlr_output_layout_get_center_output" _ refl refl (λ argv. refl)
                  (λ argv s args. search call_rules depth 40),
              (
                binding "wlr_output_layout_adjacent_output" _ refl refl (λ argv. refl)
                    (λ argv s args. search call_rules depth 40),
                (
                  binding "wlr_output_layout_farthest_output" _ refl refl (λ argv. refl)
                      (λ argv s args. search call_rules depth 40),
                  tt,
                ),
              ),
            ),
          ),
        ),
      ),
    ),
  )
