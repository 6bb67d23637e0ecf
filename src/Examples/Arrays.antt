-- ===== src/Examples/Arrays.antt =====
-- The getters of wlr.c that read arrays, and the one that looks for a type that there is not, at concrete values.
use janetland.Prelude.{
  true, if◌then◌else◌, ℕ, ◌≡◌, ◌≢◌, ◌<◌, ◌^◌, refl, false, none, some, [], ◌∷◌, arith, length,
}
use janetland.Prelude.Int.{pos}
use janetland.Janet.{Janet, keyword, buffer, IsPanic, IsSafe}
use janetland.Wlr.{found}
use janetland.Wlr.Members.{has_name}
use janetland.Wlr.Keyboard.{method_wlr_keyboard_get}
use janetland.Wlr.Xcursor.{WlrXcursorImage, method_wlr_xcursor_get, method_wlr_xcursor_image_get}
use janetland.Wlr.XwaylandSurface.{WlrXwaylandSurface, method_wlr_xwayland_surface_get}
use janetland.Wlr.Safety.Arrays.{ArrayObjects, array_getters-IsSafe, image_get_buffer}
use janetland.Modules.{IsLoaded, is_module_type, registered_types}
use janetland.Modules.Lookups.{size_hints-IsPanic}
use janetland.Examples.{janet, headers}

abbrev image : WlrXcursorImage
image = record {
  width = 1;
  height = 2;
  hotspot_x = 0;
  hotspot_y = 1;
  delay = 50;
  pixels = 1 ∷ 2 ∷ 3 ∷ 4 ∷ 5 ∷ 6 ∷ 7 ∷ 8 ∷ [];
}

abbrev window : WlrXwaylandSurface
window = record {
  addr = 64;
  surface = 0;
  x = pos 5;
  y = pos 5;
  width = pos 5;
  height = pos 5;
  override_redirect = false;
  mapped = false;
  title = none;
  class = none;
  instance = none;
  role = none;
  startup_id = none;
  pid = pos 5;
  parent = 0;
  window_type = some (300 ∷ []);
  window_type_len = 1;
  protocols = none;
  protocols_len = 0;
  size_hints = 512;
  modal = false;
  fullscreen = false;
  maximized_vert = false;
  maximized_horz = false;
  minimized = false;
  has_alpha = false;
  data_p = 0;
}

abbrev objects : ArrayObjects
objects = record {
  keyboard = record {
    addr = 64;
    at_base = 64;
    keymap_string = some (120 ∷ 107 ∷ 98 ∷ []);
    keymap_size = 2;
    xkb_state = 128;
    keycodes = 30 ∷ 31 ∷ [];
    num_keycodes = 2;
    at_modifiers = 96;
    data_p = 0;
  };
  keymap = (omega arith, omega arith);
  keycodes = omega arith;
  xcursor = record {
    image_count = 1;
    images = some (256 ∷ []);
    name = some "left_ptr";
    total_delay = 0;
  };
  images = omega arith;
  xwayland_surface = window;
  window_type = omega arith;
  protocols = tt;
}

array_getters-IsSafe_example :
    IsSafe (method_wlr_keyboard_get janet headers objects.keyboard (keyword "keycodes"))
    × IsSafe (method_wlr_xcursor_get janet objects.xcursor (keyword "keycodes"))
    × IsSafe (
        method_wlr_xwayland_surface_get janet headers objects.xwayland_surface (keyword "keycodes"))
array_getters-IsSafe_example = array_getters-IsSafe janet headers objects (keyword "keycodes")

image_small : length image.pixels < 2 ^ 31
image_small = omega arith

image_get_buffer_example :
    method_wlr_xcursor_image_get janet image (keyword "buffer") ≡ found (buffer image.pixels)
image_get_buffer_example = image_get_buffer janet image refl image_small

-- The Janet of a program that has loaded all modules, with all other types that there may be.
abbrev loaded_janet : Janet
loaded_janet = record janet {
  registered = λ name. if is_module_type name then has_name name registered_types else true;
}

all-IsLoaded : IsLoaded loaded_janet
all-IsLoaded name ours = rw ours refl

has_hints : ◌≢◌ {A = ℕ} 512 0
has_hints e = omega (arith, e)

size_hints-IsPanic_example :
    IsPanic (method_wlr_xwayland_surface_get loaded_janet headers window (keyword "size-hints"))
size_hints-IsPanic_example = size_hints-IsPanic loaded_janet all-IsLoaded headers window has_hints
