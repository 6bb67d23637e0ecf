-- ===== src/Wlr/Registration/Bindings/Xwayland.antt =====
-- The rows of the registration table for Xwayland and the layer shell, one by one.
use janetland.Prelude.{refl, All}
use janetland.Janet.{Janet}
use janetland.Headers.{Headers}
use janetland.Wlr.Calls.{Wlroots}
use janetland.Wlr.Calls.Xwayland.{
  cfun_wlr_xwayland_create, cfun_wlr_xwayland_destroy, cfun_wlr_xwayland_set_seat,
  cfun_wlr_xwayland_set_cursor, cfun_wlr_xwayland_or_surface_wants_focus,
  cfun_wlr_xwayland_surface_configure, cfun_wlr_xwayland_surface_activate,
  cfun_wlr_xwayland_surface_set_maximized, cfun_wlr_xwayland_surface_set_minimized,
  cfun_wlr_xwayland_surface_set_fullscreen, cfun_wlr_xwayland_surface_close,
  cfun_wlr_xwayland_surface_restack, cfun_wlr_xwayland_surface_from_wlr_surface,
}
use janetland.Wlr.Calls.Setup.{cfun_wlr_layer_shell_v1_create}
use janetland.Wlr.Calls.Rules.{call_rules}
use janetland.Wlr.Registration.{IsBinding, binding}
use janetland.Wlr.Registration.Xwayland.{xwayland_cfuns, xwayland_surface_cfuns}

module _ {S : Type 0} (H : Headers) (J : Janet) (L : Wlroots S) where
  pub xwayland_cfuns-IsBinding : All (IsBinding J L) (xwayland_cfuns H J L)
  unfolding cfun_wlr_xwayland_create cfun_wlr_xwayland_destroy cfun_wlr_xwayland_set_seat
      cfun_wlr_xwayland_set_cursor cfun_wlr_xwayland_or_surface_wants_focus
      cfun_wlr_xwayland_surface_configure
  xwayland_cfuns-IsBinding = (
    binding "wlr_xwayland_create" _ refl refl (λ argv. refl)
        (λ argv s args. search call_rules depth 40),
    (
      binding "wlr_xwayland_destroy" _ refl refl (λ argv. refl)
          (λ argv s args. search call_rules depth 40),
      (
        binding "wlr_xwayland_set_seat" _ refl refl (λ argv. refl)
            (λ argv s args. search call_rules depth 40),
        (
          binding "wlr_xwayland_set_cursor" _ refl refl (λ argv. refl)
              (λ argv s args. search call_rules depth 40 fits 8000),
          (
            binding "wlr_xwayland_or_surface_wants_focus" _ refl refl (λ argv. refl)
                (λ argv s args. search call_rules depth 40),
            (
              binding "wlr_xwayland_surface_configure" _ refl refl (λ argv. refl)
                  (λ argv s args. search call_rules depth 40),
              tt,
            ),
          ),
        ),
      ),
    ),
  )

  pub xwayland_surface_cfuns-IsBinding : All (IsBinding J L) (xwayland_surface_cfuns H J L)
  unfolding cfun_wlr_xwayland_surface_activate cfun_wlr_xwayland_surface_set_maximized
      cfun_wlr_xwayland_surface_set_minimized cfun_wlr_xwayland_surface_set_fullscreen
      cfun_wlr_xwayland_surface_close cfun_wlr_xwayland_surface_restack
      cfun_wlr_xwayland_surface_from_wlr_surface cfun_wlr_layer_shell_v1_create
  xwayland_surface_cfuns-IsBinding = (
    binding "wlr_xwayland_surface_activate" _ refl refl (λ argv. refl)
        (λ argv s args. search call_rules depth 40),
    (
      binding "wlr_xwayland_surface_set_maximized" _ refl refl (λ argv. refl)
          (λ argv s args. search call_rules depth 40),
      (
        binding "wlr_xwayland_surface_set_minimized" _ refl refl (λ argv. refl)
            (λ argv s args. search call_rules depth 40),
        (
          binding "wlr_xwayland_surface_set_fullscreen" _ refl refl (λ argv. refl)
              (λ argv s args. search call_rules depth 40),
          (
            binding "wlr_xwayland_surface_close" _ refl refl (λ argv. refl)
                (λ argv s args. search call_rules depth 40),
            (
              binding "wlr_xwayland_surface_restack" _ refl refl (λ argv. refl)
                  (λ argv s args. search call_rules depth 40),
              (
                binding "wlr_xwayland_surface_from_wlr_surface" _ refl refl (λ argv. refl)
                    (λ argv s args. search call_rules depth 40),
                (
                  binding "wlr_layer_shell_v1_create" _ refl refl (λ argv. refl)
                      (λ argv s args. search call_rules depth 40),
                  tt,
                ),
              ),
            ),
          ),
        ),
      ),
    ),
  )
