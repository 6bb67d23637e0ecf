-- ===== src/Wlr/Safety/Arrays.antt =====
-- The getters of wlr.c that read arrays: keyboards, cursors of a theme and surfaces of XWayland.
use janetland.Prelude.{
  ℕ, zero, suc, ◌*◌, ◌%◌, ◌^◌, ◌≤◌, ◌<◌, ◌≡◌, refl, true, Option, none, some, List, [], ◌∷◌, length,
  ltb, arith,
}
use janetland.Janet.{Janet, Value, keyword, buffer, ok, IsSafe, safe_ok, bind-IsSafe}
use janetland.Wlr.{Headers, found}
use janetland.Wlr.Arrays.{push_items, items_or_nil, numbers_or_nil}
use janetland.Wlr.Members.{pointer_to_abs_obj_by_name-IsSafe}
use janetland.Wlr.Safety.{safe}
use janetland.Wlr.Keyboard.{WlrKeyboard, keymap_buffer, method_wlr_keyboard_get}
use janetland.Wlr.Xcursor.{
  WlrXcursor, WlrXcursorImage, pushed, image_buffer, method_wlr_xcursor_get,
  method_wlr_xcursor_image_get,
}
use janetland.Wlr.XwaylandSurface.{WlrXwaylandSurface, method_wlr_xwayland_surface_get}

-- The array has as many items as the count says, or it is NULL.
abbrev pub Counted : ℕ → Option (List ℕ) → Type 0
Counted n none = Unit
Counted n (some items) = n ≤ length items

push_items-IsSafe :
    (wrap : ℕ → Value) (n : ℕ) (items : List ℕ)
    → n ≤ length items
    → IsSafe (push_items wrap n items)
unfolding push_items
push_items-IsSafe wrap zero items h = safe_ok []
push_items-IsSafe wrap (suc n) [] h = absurd (omega arith)
push_items-IsSafe wrap (suc n) (x ∷ items) h =
    bind-IsSafe (push_items-IsSafe wrap n items (omega arith)) (λ vs. safe_ok _)

pushed-IsSafe : (n : ℕ) (bytes : List ℕ) → n ≤ length bytes → IsSafe (pushed n bytes)
pushed-IsSafe zero bytes h = safe_ok []
pushed-IsSafe (suc n) [] h = absurd (omega arith)
pushed-IsSafe (suc n) (b ∷ bytes) h =
    bind-IsSafe (pushed-IsSafe n bytes (omega arith)) (λ rest. safe_ok _)

items_or_nil-IsSafe :
    (wrap : ℕ → Value) (n : ℕ) (items : Option (List ℕ))
    → Counted n items
    → IsSafe (items_or_nil wrap n items)
unfolding items_or_nil
items_or_nil-IsSafe wrap n none h = safe_ok _
items_or_nil-IsSafe wrap n (some items) h =
    bind-IsSafe (push_items-IsSafe wrap n items h) (λ vs. safe_ok _)

numbers_or_nil-IsSafe :
    (J : Janet) (n : ℕ) (items : Option (List ℕ))
    → Counted n items
    → IsSafe (numbers_or_nil J n items)
unfolding numbers_or_nil
numbers_or_nil-IsSafe J n items h = items_or_nil-IsSafe J.wrap_u64 n items h

-- The text of a keymap is as long as its size says, which is less than 2^31, or it is NULL.
abbrev pub CountedKeymap : ℕ → Option (List ℕ) → Type 0
CountedKeymap n none = Unit
CountedKeymap n (some bytes) = (n ≤ length bytes) × (n < 2 ^ 31)

keymap_buffer-IsSafe :
    (n : ℕ) (bytes : Option (List ℕ)) → CountedKeymap n bytes → IsSafe (keymap_buffer n bytes)
unfolding keymap_buffer
keymap_buffer-IsSafe n none h = safe_ok _
keymap_buffer-IsSafe n (some bytes) h =
    let same : n % 2 ^ 32 ≡ n = omega (arith, h.1) in
    let small : ltb n (2 ^ 31) ≡ true = ground (arith, h.1) in
    rw (same, small) (bind-IsSafe (pushed-IsSafe n bytes h.0) (λ text. safe_ok _))

ruleset array_safe = (
  safe, pointer_to_abs_obj_by_name-IsSafe, items_or_nil-IsSafe, numbers_or_nil-IsSafe,
  keymap_buffer-IsSafe,
)

-- One object of each type, each array of which has as many items as its count says, and a keymap of less than 2^31 bytes.
pub record ArrayObjects : Type 0 where
  pub keyboard : WlrKeyboard
  pub keymap : CountedKeymap keyboard.keymap_size keyboard.keymap_string
  pub keycodes : Counted keyboard.num_keycodes (some keyboard.keycodes)
  pub xcursor : WlrXcursor
  pub images : Counted xcursor.image_count xcursor.images
  pub xwayland_surface : WlrXwaylandSurface
  pub window_type : Counted xwayland_surface.window_type_len xwayland_surface.window_type
  pub protocols : Counted xwayland_surface.protocols_len xwayland_surface.protocols

module _ (J : Janet) (H : Headers) where
  keyboard_get-IsSafe :
      (s : WlrKeyboard) (key : Value)
      → CountedKeymap s.keymap_size s.keymap_string
      → Counted s.num_keycodes (some s.keycodes)
      → IsSafe (method_wlr_keyboard_get J H s key)
  unfolding method_wlr_keyboard_get
  keyboard_get-IsSafe s key keymap keycodes = search array_safe depth 40

  xcursor_get-IsSafe :
      (s : WlrXcursor) (key : Value)
      → Counted s.image_count s.images
      → IsSafe (method_wlr_xcursor_get J s key)
  unfolding method_wlr_xcursor_get
  xcursor_get-IsSafe s key images = search array_safe depth 40

  xwayland_surface_get-IsSafe :
      (s : WlrXwaylandSurface) (key : Value)
      → Counted s.window_type_len s.window_type
      → Counted s.protocols_len s.protocols
      → IsSafe (method_wlr_xwayland_surface_get J H s key)
  unfolding method_wlr_xwayland_surface_get
  xwayland_surface_get-IsSafe s key types protocols = search array_safe depth 60

  -- Where the arrays of keyboards, of the cursors of a theme and of surfaces of XWayland are as long as their
  -- counts say, and the text of a keymap has less than 2^31 bytes, no key makes their getters read past one of them, or past a table of members.
  pub array_getters-IsSafe :
      (o : ArrayObjects) (key : Value)
      → IsSafe (method_wlr_keyboard_get J H o.keyboard key)
        × IsSafe (method_wlr_xcursor_get J o.xcursor key)
        × IsSafe (method_wlr_xwayland_surface_get J H o.xwayland_surface key)
  array_getters-IsSafe o key = (
    keyboard_get-IsSafe o.keyboard key o.keymap o.keycodes,
    xcursor_get-IsSafe o.xcursor key o.images,
    xwayland_surface_get-IsSafe o.xwayland_surface key o.window_type o.protocols,
  )

-- All bytes of a text are pushed.
pushed_all : (bytes : List ℕ) → pushed (length bytes) bytes ≡ ok bytes
pushed_all [] = refl
pushed_all (b ∷ bytes) = rw (pushed_all bytes) refl

area_fits : (area n : ℕ) → n ≡ area * 4 → n < 2 ^ 31 → (area % 2 ^ 32) * 4 % 2 ^ 32 ≡ n
area_fits area n sized small = omega arith

-- A cursor image whose pixels are four bytes each and less than 2^31 bytes in all, has them as its `:buffer`.
pub image_get_buffer :
    (J : Janet) (s : WlrXcursorImage)
    → length s.pixels ≡ s.width * s.height * 4
    → length s.pixels < 2 ^ 31
    → method_wlr_xcursor_image_get J s (keyword "buffer") ≡ found (buffer s.pixels)
unfolding method_wlr_xcursor_image_get image_buffer
image_get_buffer J s sized small =
    let below : ltb (length s.pixels) (2 ^ 31) ≡ true = ground arith in
    rw (area_fits (s.width * s.height) (length s.pixels) sized small, below, pushed_all s.pixels)
      refl
