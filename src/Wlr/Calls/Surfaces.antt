-- ===== src/Wlr/Calls/Surfaces.antt =====
-- wlr.c: the functions for surfaces.
use janetland.Prelude.{List, [], ◌∷◌, some}
use janetland.Janet.{Janet, Value, nil, number}
use janetland.Headers.{Headers}
use janetland.Action.{Action}
use janetland.Wlr.Calls.{
  Wlroots, ◌>>=◌, ◌>>◌, give, fixarity, call, double, number_arg, object_or_nil, out, pointer_arg,
  ptr, struct_by_name_arg, wrap_boolean, wrap_tuple,
}

module _ {S : Type 0} (H : Headers) (J : Janet) (L : Wlroots S) where
  unfoldable pub cfun_wlr_surface_get_root_surface : List Value → Action S Value
  cfun_wlr_surface_get_root_surface argv = do
    fixarity argv 1
    surface ← pointer_arg J L argv 0 "wlr/wlr-surface"
    root ← call L "wlr_surface_get_root_surface" (ptr surface ∷ [])
    give (object_or_nil root.value "wlr/wlr-surface")

  unfoldable pub cfun_wlr_surface_is_xwayland_surface : List Value → Action S Value
  cfun_wlr_surface_is_xwayland_surface argv = do
    fixarity argv 1
    surface ← pointer_arg J L argv 0 "wlr/wlr-surface"
    ret ← call L "wlr_surface_is_xwayland_surface" (ptr surface ∷ [])
    give (wrap_boolean ret.value)

  unfoldable pub cfun_wlr_surface_is_xdg_surface : List Value → Action S Value
  cfun_wlr_surface_is_xdg_surface argv = do
    fixarity argv 1
    surface ← pointer_arg J L argv 0 "wlr/wlr-surface"
    ret ← call L "wlr_surface_is_xdg_surface" (ptr surface ∷ [])
    give (wrap_boolean ret.value)

  unfoldable pub cfun_wlr_surface_surface_at : List Value → Action S Value
  cfun_wlr_surface_surface_at argv = do
    fixarity argv 3
    surface ← pointer_arg J L argv 0 "wlr/wlr-surface"
    sx ← number_arg J argv 1
    sy ← number_arg J argv 2
    sub_surface ←
        call L "wlr_surface_surface_at"
          (ptr surface ∷ double sx ∷ double sy ∷ out (some 0) ∷ out (some 0) ∷ [])
    give (
        wrap_tuple (
          object_or_nil sub_surface.value "wlr/wlr-surface"
          ∷ number sub_surface.first
          ∷ number sub_surface.second
          ∷ []))

  unfoldable pub cfun_wlr_surface_send_enter : List Value → Action S Value
  cfun_wlr_surface_send_enter argv = do
    fixarity argv 2
    surface ← pointer_arg J L argv 0 "wlr/wlr-surface"
    output ← pointer_arg J L argv 1 "wlr/wlr-output"
    done ← call L "wlr_surface_send_enter" (ptr surface ∷ ptr output ∷ [])
    give nil

  unfoldable pub cfun_wlr_surface_send_leave : List Value → Action S Value
  cfun_wlr_surface_send_leave argv = do
    fixarity argv 2
    surface ← pointer_arg J L argv 0 "wlr/wlr-surface"
    output ← pointer_arg J L argv 1 "wlr/wlr-output"
    done ← call L "wlr_surface_send_leave" (ptr surface ∷ ptr output ∷ [])
    give nil

  unfoldable pub cfun_wlr_surface_send_frame_done : List Value → Action S Value
  cfun_wlr_surface_send_frame_done argv = do
    fixarity argv 2
    surface ← pointer_arg J L argv 0 "wlr/wlr-surface"
    when ← struct_by_name_arg J argv 1 "util/timespec"
    done ← call L "wlr_surface_send_frame_done" (ptr surface ∷ ptr when ∷ [])
    give nil
