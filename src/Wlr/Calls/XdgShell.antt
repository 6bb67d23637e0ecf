-- ===== src/Wlr/Calls/XdgShell.antt =====
-- wlr.c: the functions for xdg surfaces and toplevels.
use janetland.Prelude.{List, [], ◌∷◌}
use janetland.Janet.{Janet, Value}
use janetland.Headers.{Headers}
use janetland.KeyDefs.{terminated}
use janetland.Action.{Action}
use janetland.Wlr.Tables.{wlr_edges_rows}
use janetland.Wlr.Calls.{
  Wlroots, ◌>>=◌, ◌>>◌, give, fixarity, boolean_arg, call, flag, int, integer_arg, key_flags_arg,
  new_box, object_or_panic, pointer_arg, ptr, uint, wrap_bits, wrap_box,
}

module _ {S : Type 0} (H : Headers) (J : Janet) (L : Wlroots S) where
  unfoldable pub cfun_wlr_xdg_surface_from_wlr_surface : List Value → Action S Value
  cfun_wlr_xdg_surface_from_wlr_surface argv = do
    fixarity argv 1
    surface ← pointer_arg J L argv 0 "wlr/wlr-surface"
    xdg_surface ← call L "wlr_xdg_surface_from_wlr_surface" (ptr surface ∷ [])
    object_or_panic xdg_surface.value "wlr/wlr-xdg-surface"
        "cannot retrieve xdg surface from wlr-surface"

  unfoldable pub cfun_wlr_xdg_surface_schedule_configure : List Value → Action S Value
  cfun_wlr_xdg_surface_schedule_configure argv = do
    fixarity argv 1
    surface ← pointer_arg J L argv 0 "wlr/wlr-xdg-surface"
    serial ← call L "wlr_xdg_surface_schedule_configure" (ptr surface ∷ [])
    give (wrap_bits J serial.value)

  unfoldable pub cfun_wlr_xdg_surface_get_geometry : List Value → Action S Value
  cfun_wlr_xdg_surface_get_geometry argv = do
    fixarity argv 1
    surface ← pointer_arg J L argv 0 "wlr/wlr-xdg-surface"
    box ← new_box L
    done ← call L "wlr_xdg_surface_get_geometry" (ptr surface ∷ ptr box ∷ [])
    give (wrap_box box)

  unfoldable pub cfun_wlr_xdg_toplevel_set_activated : List Value → Action S Value
  cfun_wlr_xdg_toplevel_set_activated argv = do
    fixarity argv 2
    toplevel ← pointer_arg J L argv 0 "wlr/wlr-xdg-toplevel"
    activated ← boolean_arg J argv 1
    serial ← call L "wlr_xdg_toplevel_set_activated" (ptr toplevel ∷ flag activated ∷ [])
    give (wrap_bits J serial.value)

  unfoldable pub cfun_wlr_xdg_toplevel_set_maximized : List Value → Action S Value
  cfun_wlr_xdg_toplevel_set_maximized argv = do
    fixarity argv 2
    toplevel ← pointer_arg J L argv 0 "wlr/wlr-xdg-toplevel"
    maximized ← boolean_arg J argv 1
    serial ← call L "wlr_xdg_toplevel_set_maximized" (ptr toplevel ∷ flag maximized ∷ [])
    give (wrap_bits J serial.value)

  unfoldable pub cfun_wlr_xdg_toplevel_set_fullscreen : List Value → Action S Value
  cfun_wlr_xdg_toplevel_set_fullscreen argv = do
    fixarity argv 2
    toplevel ← pointer_arg J L argv 0 "wlr/wlr-xdg-toplevel"
    fullscreen ← boolean_arg J argv 1
    serial ← call L "wlr_xdg_toplevel_set_fullscreen" (ptr toplevel ∷ flag fullscreen ∷ [])
    give (wrap_bits J serial.value)

  unfoldable pub cfun_wlr_xdg_toplevel_set_resizing : List Value → Action S Value
  cfun_wlr_xdg_toplevel_set_resizing argv = do
    fixarity argv 2
    toplevel ← pointer_arg J L argv 0 "wlr/wlr-xdg-toplevel"
    resizing ← boolean_arg J argv 1
    serial ← call L "wlr_xdg_toplevel_set_resizing" (ptr toplevel ∷ flag resizing ∷ [])
    give (wrap_bits J serial.value)

  unfoldable pub cfun_wlr_xdg_toplevel_set_tiled : List Value → Action S Value
  cfun_wlr_xdg_toplevel_set_tiled argv = do
    fixarity argv 2
    toplevel ← pointer_arg J L argv 0 "wlr/wlr-xdg-toplevel"
    tiled_edges ← key_flags_arg J argv 1 (terminated (wlr_edges_rows H))
    serial ← call L "wlr_xdg_toplevel_set_tiled" (ptr toplevel ∷ uint tiled_edges ∷ [])
    give (wrap_bits J serial.value)

  unfoldable pub cfun_wlr_xdg_toplevel_set_size : List Value → Action S Value
  cfun_wlr_xdg_toplevel_set_size argv = do
    fixarity argv 3
    toplevel ← pointer_arg J L argv 0 "wlr/wlr-xdg-toplevel"
    width ← integer_arg J argv 1
    height ← integer_arg J argv 2
    serial ← call L "wlr_xdg_toplevel_set_size" (ptr toplevel ∷ int width ∷ int height ∷ [])
    give (wrap_bits J serial.value)
