-- ===== src/Wlr/Backend.antt =====
-- The getters of wlr.c for the backend and the layer shell.
use janetland.Prelude.{ℕ, str_eq, if◌then◌else◌}
use janetland.Janet.{Janet, Value, ◌>>=◌}
use janetland.Wlr.{
  Headers, Getter, found, missing, or_else, keyword_of, pointer_or_nil,
  get_abstract_struct_signal_member,
}
use janetland.Wlr.SignalTables.{wlr_backend_signal_offsets, wlr_layer_shell_v1_signal_offsets}

-- What `method_wlr_backend_get` reads of a `struct wlr_backend`.
pub record WlrBackend : Type 0 where
  pub addr : ℕ

unfoldable pub method_wlr_backend_get : Janet → Headers → WlrBackend → Value → Getter
method_wlr_backend_get J H s key = do
  kw ← keyword_of key
  signal ← get_abstract_struct_signal_member J s.addr kw (wlr_backend_signal_offsets H)
  or_else signal missing

-- What `method_wlr_layer_shell_v1_get` reads of a `struct wlr_layer_shell_v1`.
pub record WlrLayerShellV1 : Type 0 where
  pub addr : ℕ
  pub data_p : ℕ

unfoldable pub method_wlr_layer_shell_v1_get : Janet → Headers → WlrLayerShellV1 → Value → Getter
method_wlr_layer_shell_v1_get J H s key = do
  kw ← keyword_of key
  signal ← get_abstract_struct_signal_member J s.addr kw (wlr_layer_shell_v1_signal_offsets H)
  or_else signal (if str_eq kw "data" then found (pointer_or_nil s.data_p) else missing)
