-- ===== src/Wlr/Registration/Bindings.antt =====
-- The registration table of wlr.c as a whole.
pub mod Setup
pub mod Cursors
pub mod Seats
pub mod Outputs
pub mod Surfaces
pub mod Xwayland
use janetland.Prelude.{List, [], ◌∷◌, All}
use janetland.Janet.{Janet}
use janetland.Headers.{Headers}
use janetland.Wlr.Calls.{Wlroots}
use janetland.Wlr.Registration.{JanetReg, IsBinding}
use janetland.Wlr.Registration.Setup.{setup_cfuns, scene_node_cfuns}
use janetland.Wlr.Registration.Bindings.Setup.{setup_cfuns-IsBinding, scene_node_cfuns-IsBinding}
use janetland.Wlr.Registration.Cursors.{scene_surface_cfuns, cursor_cfuns, xcursor_cfuns}
use janetland.Wlr.Registration.Bindings.Cursors.{
  scene_surface_cfuns-IsBinding, cursor_cfuns-IsBinding, xcursor_cfuns-IsBinding,
}
use janetland.Wlr.Registration.Seats.{seat_keyboard_cfuns, seat_pointer_cfuns}
use janetland.Wlr.Registration.Bindings.Seats.{
  seat_keyboard_cfuns-IsBinding, seat_pointer_cfuns-IsBinding,
}
use janetland.Wlr.Registration.Outputs.{output_cfuns, layout_cfuns, layout_point_cfuns}
use janetland.Wlr.Registration.Bindings.Outputs.{
  output_cfuns-IsBinding, layout_cfuns-IsBinding, layout_point_cfuns-IsBinding,
}
use janetland.Wlr.Registration.Surfaces.{surface_cfuns, xdg_cfuns, scene_output_cfuns}
use janetland.Wlr.Registration.Bindings.Surfaces.{
  surface_cfuns-IsBinding, xdg_cfuns-IsBinding, scene_output_cfuns-IsBinding,
}
use janetland.Wlr.Registration.Xwayland.{xwayland_cfuns, xwayland_surface_cfuns}
use janetland.Wlr.Registration.Bindings.Xwayland.{
  xwayland_cfuns-IsBinding, xwayland_surface_cfuns-IsBinding,
}

module _ {S : Type 0} (H : Headers) (J : Janet) (L : Wlroots S) where
  -- The parts of `cfuns`, without the rows of the log functions, of `box` and of `wlr-scene-tree-from-node`.
  abbrev pub cfuns : List (List (JanetReg S))
  cfuns =
      setup_cfuns H J L
      ∷ scene_node_cfuns H J L
      ∷ scene_surface_cfuns H J L
      ∷ cursor_cfuns H J L
      ∷ xcursor_cfuns H J L
      ∷ seat_keyboard_cfuns H J L
      ∷ seat_pointer_cfuns H J L
      ∷ output_cfuns H J L
      ∷ layout_cfuns H J L
      ∷ layout_point_cfuns H J L
      ∷ surface_cfuns H J L
      ∷ xdg_cfuns H J L
      ∷ scene_output_cfuns H J L
      ∷ xwayland_cfuns H J L
      ∷ xwayland_surface_cfuns H J L
      ∷ []

  -- Each of the 115 functions of the table, with whatever arguments in whatever state: its documentation is that
  -- of its name; with another number of arguments than in its usage line it panics and changes nothing. Where all
  -- arguments are whole (an object wraps no NULL, and the block of a box or a timespec is a struct), it either panics
  -- and changes nothing, or calls the function of wlroots that has its own name, once. The arguments of that call are
  -- those of the caller, every one of them and in their order, each converted as it was in the state before the call;
  -- besides them there are only variables for results, a new box and the length of an array. Nothing else changes the
  -- state but the new box. Then the function answers with a whole value, or panics, and the latter only where
  -- wlroots handed back 0. It never faults.
  pub cfuns-IsBinding : All (All (IsBinding J L)) cfuns
  cfuns-IsBinding = (
    setup_cfuns-IsBinding H J L,
    (
      scene_node_cfuns-IsBinding H J L,
      (
        scene_surface_cfuns-IsBinding H J L,
        (
          cursor_cfuns-IsBinding H J L,
          (
            xcursor_cfuns-IsBinding H J L,
            (
              seat_keyboard_cfuns-IsBinding H J L,
              (
                seat_pointer_cfuns-IsBinding H J L,
                (
                  output_cfuns-IsBinding H J L,
                  (
                    layout_cfuns-IsBinding H J L,
                    (
                      layout_point_cfuns-IsBinding H J L,
                      (
                        surface_cfuns-IsBinding H J L,
                        (
                          xdg_cfuns-IsBinding H J L,
                          (
                            scene_output_cfuns-IsBinding H J L,
                            (
                              xwayland_cfuns-IsBinding H J L,
                              (xwayland_surface_cfuns-IsBinding H J L, tt),
                            ),
                          ),
                        ),
                      ),
                    ),
                  ),
                ),
              ),
            ),
          ),
        ),
      ),
    ),
  )
