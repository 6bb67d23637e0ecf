-- ===== src/Wlr/Surface.antt =====
-- The getters and the setter of wlr.c for surfaces and their state.
use janetland.Prelude.{ℕ, some, none, Option, str_eq, if◌then◌else◌}
use janetland.Prelude.Int.{ℤ}
use janetland.Janet.{Janet, Value, ◌>>=◌, Result, ok, panic}
use janetland.KeyDefs.{terminated}
use janetland.Jl.{pointer_to_abs_obj, value_to_data_pointer}
use janetland.Wlr.{
  Headers, Getter, found, missing, or_else, keyword_of, pointer_or_nil, object_or_nil, found_flags,
  get_abstract_struct_signal_member,
}
use janetland.Wlr.Tables.{wlr_surface_state_field_rows}
use janetland.Wlr.SignalTables.{wlr_surface_signal_offsets}

-- What `method_wlr_surface_get` reads of a `struct wlr_surface`.
pub record WlrSurface : Type 0 where
  pub addr : ℕ
  pub renderer : ℕ
  pub sx : ℤ
  pub sy : ℤ
  pub at_current : ℕ
  pub data_p : ℕ

unfoldable pub method_wlr_surface_get : Janet → Headers → WlrSurface → Value → Getter
method_wlr_surface_get J H s key = do
  kw ← keyword_of key
  signal ← get_abstract_struct_signal_member J s.addr kw (wlr_surface_signal_offsets H)
  or_else signal (
      if str_eq kw "renderer"
      then found (object_or_nil s.renderer "wlr/wlr-renderer")
      else if str_eq kw "sx"
      then found (J.wrap_integer s.sx)
      else if str_eq kw "sy"
      then found (J.wrap_integer s.sy)
      else if str_eq kw "current"
      then found (pointer_to_abs_obj s.at_current "wlr/wlr-surface-state")
      else if str_eq kw "pending"
      then found (pointer_to_abs_obj s.at_current "wlr/wlr-surface-state")
      else if str_eq kw "data"
      then found (pointer_or_nil s.data_p)
      else missing)

-- What `method_wlr_surface_state_get` reads of a `struct wlr_surface_state`.
pub record WlrSurfaceState : Type 0 where
  pub addr : ℕ
  pub committed : ℕ
  pub seq : ℕ
  pub dx : ℤ
  pub dy : ℤ
  pub scale : ℤ
  pub width : ℤ
  pub height : ℤ
  pub buffer_width : ℤ
  pub buffer_height : ℤ

unfoldable pub method_wlr_surface_state_get : Janet → Headers → WlrSurfaceState → Value → Getter
method_wlr_surface_state_get J H s key = do
  kw ← keyword_of key
  if str_eq kw "committed"
      then found_flags s.committed (terminated (wlr_surface_state_field_rows H))
      else if str_eq kw "seq"
      then found (J.wrap_u64 s.seq)
      else if str_eq kw "dx"
      then found (J.wrap_integer s.dx)
      else if str_eq kw "dy"
      then found (J.wrap_integer s.dy)
      else if str_eq kw "scale"
      then found (J.wrap_integer s.scale)
      else if str_eq kw "width"
      then found (J.wrap_integer s.width)
      else if str_eq kw "height"
      then found (J.wrap_integer s.height)
      else if str_eq kw "buffer-width"
      then found (J.wrap_integer s.buffer_width)
      else if str_eq kw "buffer-height"
      then found (J.wrap_integer s.buffer_height)
      else missing

-- `if (!janet_checkint(value)) janet_panicf(...)`, and the write of the unwrapped integer.
abbrev pub int_member {ℓ} : {A : Type ℓ} → Option ℤ → (ℤ → A) → Result A
int_member none write = panic "expected a 32-bit signed integer, got %v"
int_member (some i) write = ok (write i)

unfoldable pub method_wlr_surface_put :
    Janet → (ℕ → ℕ) → WlrSurface → Value → Value → Result WlrSurface
method_wlr_surface_put J first_word s key value = do
  kw ← keyword_of key
  if str_eq kw "sx"
      then int_member (J.checkint value) (λ i. record s { sx = i })
      else if str_eq kw "sy"
      then int_member (J.checkint value) (λ i. record s { sy = i })
      else if str_eq kw "data"
      then (do p ← value_to_data_pointer first_word value; ok (record s { data_p = p }))
      else panic "unknown key: %v"
