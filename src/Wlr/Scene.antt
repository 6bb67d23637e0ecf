-- ===== src/Wlr/Scene.antt =====
-- The getters and the setter of wlr.c for the scene graph.
use janetland.Prelude.{ℕ, Bool, str_eq, if◌then◌else◌}
use janetland.Prelude.Int.{ℤ}
use janetland.Janet.{Janet, Value, ◌>>=◌, boolean, Result, ok, panic}
use janetland.KeyDefs.{terminated}
use janetland.Jl.{pointer_to_abs_obj, value_to_data_pointer}
use janetland.Wlr.{
  Headers, Getter, found, missing, or_else, keyword_of, pointer_or_nil, object_or_nil, enum_keyword,
  get_abstract_struct_signal_member, get_abstract_struct_list_member,
}
use janetland.Wlr.Tables.{wlr_scene_node_type_rows}
use janetland.Wlr.SignalTables.{
  wlr_scene_list_offsets, wlr_scene_node_signal_offsets, wlr_scene_output_signal_offsets,
  wlr_scene_tree_list_offsets,
}

-- What `method_wlr_scene_get` reads of a `struct wlr_scene`.
pub record WlrScene : Type 0 where
  pub addr : ℕ
  pub at_tree : ℕ

unfoldable pub method_wlr_scene_get : Janet → Headers → WlrScene → Value → Getter
method_wlr_scene_get J H s key = do
  kw ← keyword_of key
  list ← get_abstract_struct_list_member J s.addr kw (wlr_scene_list_offsets H)
  or_else list (
      if str_eq kw "tree"
      then found (pointer_to_abs_obj s.at_tree "wlr/wlr-scene-tree")
      else missing)

-- What `method_wlr_scene_output_get` reads of a `struct wlr_scene_output`.
pub record WlrSceneOutput : Type 0 where
  pub addr : ℕ
  pub output : ℕ
  pub scene : ℕ
  pub x : ℤ
  pub y : ℤ

unfoldable pub method_wlr_scene_output_get : Janet → Headers → WlrSceneOutput → Value → Getter
method_wlr_scene_output_get J H s key = do
  kw ← keyword_of key
  signal ← get_abstract_struct_signal_member J s.addr kw (wlr_scene_output_signal_offsets H)
  or_else signal (
      if str_eq kw "output"
      then found (pointer_to_abs_obj s.output "wlr/wlr-output")
      else if str_eq kw "scene"
      then found (pointer_to_abs_obj s.scene "wlr/wlr-scene")
      else if str_eq kw "x"
      then found (J.wrap_integer s.x)
      else if str_eq kw "y"
      then found (J.wrap_integer s.y)
      else missing)

-- What `method_wlr_scene_tree_get` reads of a `struct wlr_scene_tree`.
pub record WlrSceneTree : Type 0 where
  pub addr : ℕ
  pub at_node : ℕ

unfoldable pub method_wlr_scene_tree_get : Janet → Headers → WlrSceneTree → Value → Getter
method_wlr_scene_tree_get J H s key = do
  kw ← keyword_of key
  list ← get_abstract_struct_list_member J s.addr kw (wlr_scene_tree_list_offsets H)
  or_else list (
      if str_eq kw "node"
      then found (pointer_to_abs_obj s.at_node "wlr/wlr-scene-node")
      else missing)

-- What `method_wlr_scene_node_get` reads of a `struct wlr_scene_node`.
pub record WlrSceneNode : Type 0 where
  pub addr : ℕ
  pub type : ℕ
  pub parent : ℕ
  pub enabled : Bool
  pub x : ℤ
  pub y : ℤ
  pub data_p : ℕ

unfoldable pub method_wlr_scene_node_get : Janet → Headers → WlrSceneNode → Value → Getter
method_wlr_scene_node_get J H s key = do
  kw ← keyword_of key
  signal ← get_abstract_struct_signal_member J s.addr kw (wlr_scene_node_signal_offsets H)
  or_else signal (
      if str_eq kw "type"
      then enum_keyword s.type (terminated (wlr_scene_node_type_rows H))
          "unknown node type from wlroots scene node: %d"
      else if str_eq kw "parent"
      then found (object_or_nil s.parent "wlr/wlr-scene-tree")
      else if str_eq kw "enabled"
      then found (boolean s.enabled)
      else if str_eq kw "x"
      then found (J.wrap_integer s.x)
      else if str_eq kw "y"
      then found (J.wrap_integer s.y)
      else if str_eq kw "data"
      then found (pointer_or_nil s.data_p)
      else missing)

-- What `method_wlr_scene_surface_get` reads of a `struct wlr_scene_surface`.
pub record WlrSceneSurface : Type 0 where
  pub addr : ℕ
  pub buffer : ℕ
  pub surface : ℕ

unfoldable pub method_wlr_scene_surface_get : Janet → Headers → WlrSceneSurface → Value → Getter
method_wlr_scene_surface_get J H s key = do
  kw ← keyword_of key
  if str_eq kw "buffer"
      then found (object_or_nil s.buffer "wlr/wlr-scene-buffer")
      else if str_eq kw "surface"
      then found (object_or_nil s.surface "wlr/wlr-surface")
      else missing

unfoldable pub method_wlr_scene_node_put :
    (ℕ → ℕ) → WlrSceneNode → Value → Value → Result WlrSceneNode
method_wlr_scene_node_put first_word s key value = do
  kw ← keyword_of key
  if str_eq kw "data"
      then (do p ← value_to_data_pointer first_word value; ok (record s { data_p = p }))
      else panic "unknown key: %v"
