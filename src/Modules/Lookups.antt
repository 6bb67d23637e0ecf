-- ===== src/Modules/Lookups.antt =====
-- The lookups of types by their names, and the getter that looks for one that there is not.
use janetland.Prelude.{◌≢◌, refl, ==_differ}
use janetland.Janet.{Janet, keyword, IsPanic}
use janetland.Headers.{Headers}
use janetland.Jl.{pointer_to_abs_obj_by_name, get_abstract_type_by_name}
use janetland.Wlr.{get_abstract_struct_signal_member, find_member}
use janetland.Wlr.XwaylandSurface.{WlrXwaylandSurface, method_wlr_xwayland_surface_get}
use janetland.Modules.{IsLoaded}

module _ (J : Janet) (loaded : IsLoaded J) where
  -- With all modules loaded, and no type under their names but theirs, `:size-hints` of a surface of XWayland that has them always panics: the getter
  -- looks for a type of the module xkb, and it is the module xcb that registers it.
  pub size_hints-IsPanic :
      (H : Headers) (s : WlrXwaylandSurface)
      → s.size_hints ≢ 0
      → IsPanic (method_wlr_xwayland_surface_get J H s (keyword "size-hints"))
  unfolding method_wlr_xwayland_surface_get get_abstract_struct_signal_member find_member
      pointer_to_abs_obj_by_name get_abstract_type_by_name
  size_hints-IsPanic H s set =
      rw (==_differ s.size_hints 0 set, loaded "xkb/xkb-size-hints-t" refl) tt
