-- ===== src/Wlr/Xcursor.antt =====
-- The getters of wlr.c for cursor images and for the cursors of a theme.
use janetland.Prelude.{
  ℕ, zero, suc, ◌*◌, ◌%◌, ◌^◌, Option, List, [], ◌∷◌, String, str_eq, ltb, if◌then◌else◌,
}
use janetland.Prelude.Int.{signed32}
use janetland.Janet.{Janet, Value, buffer, Result, ok, fault, ◌>>=◌}
use janetland.Jl.{pointer_to_abs_obj}
use janetland.Wlr.{Getter, found, missing, keyword_of, text_or_nil}
use janetland.Wlr.Arrays.{items_or_nil}

-- What `method_wlr_xcursor_image_get` reads of a `struct wlr_xcursor_image`; `pixels` are the bytes at `buffer`.
pub record WlrXcursorImage : Type 0 where
  pub width : ℕ
  pub height : ℕ
  pub hotspot_x : ℕ
  pub hotspot_y : ℕ
  pub delay : ℕ
  pub pixels : List ℕ

-- `janet_buffer_push_bytes(buf, p, n)` to an empty buffer.
abbrev pub pushed : ℕ → List ℕ → Result (List ℕ)
pushed zero bytes = ok []
pushed (suc n) [] = fault
pushed (suc n) (b ∷ bytes) = do rest ← pushed n bytes; ok (b ∷ rest)

-- The product is a `uint32_t`, and the assertion that it fits an `int32_t` ends the process: a fault.
unfoldable pub image_buffer : WlrXcursorImage → Getter
image_buffer s =
    let buf_len = (s.width * s.height % 2 ^ 32) * 4 % 2 ^ 32 in
    if ltb buf_len (2 ^ 31)
    then (do bytes ← pushed buf_len s.pixels; found (buffer bytes))
    else fault

unfoldable pub method_wlr_xcursor_image_get : Janet → WlrXcursorImage → Value → Getter
unfolding image_buffer
method_wlr_xcursor_image_get J s key = do
  kw ← keyword_of key
  if str_eq kw "width"
      then found (J.wrap_u64 s.width)
      else if str_eq kw "height"
      then found (J.wrap_u64 s.height)
      else if str_eq kw "hotspot-x"
      then found (J.wrap_integer (signed32 s.hotspot_x))
      else if str_eq kw "hotspot-y"
      then found (J.wrap_integer (signed32 s.hotspot_y))
      else if str_eq kw "delay"
      then found (J.wrap_u64 s.delay)
      else if str_eq kw "buffer"
      then image_buffer s
      else missing

-- What `method_wlr_xcursor_get` reads of a `struct wlr_xcursor`.
pub record WlrXcursor : Type 0 where
  pub image_count : ℕ
  pub images : Option (List ℕ)
  pub name : Option String
  pub total_delay : ℕ

abbrev pub image_object : ℕ → Value
unfolding pointer_to_abs_obj
image_object p = pointer_to_abs_obj p "wlr/wlr-xcursor-image"

unfoldable pub method_wlr_xcursor_get : Janet → WlrXcursor → Value → Getter
unfolding items_or_nil
method_wlr_xcursor_get J s key = do
  kw ← keyword_of key
  if str_eq kw "image-count"
      then found (J.wrap_u64 s.image_count)
      else if str_eq kw "images"
      then items_or_nil image_object s.image_count s.images
      else if str_eq kw "name"
      then found (text_or_nil s.name)
      else if str_eq kw "total-delay"
      then found (J.wrap_u64 s.total_delay)
      else missing
