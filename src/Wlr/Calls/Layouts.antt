-- ===== src/Wlr/Calls/Layouts.antt =====
-- wlr.c: the functions for output layouts.
use janetland.Prelude.{List, [], ◌∷◌, none, some}
use janetland.Janet.{Janet, Value, nil, number}
use janetland.Headers.{Headers}
use janetland.KeyDefs.{terminated}
use janetland.Action.{Action}
use janetland.Wlr.Tables.{wlr_direction_rows}
use janetland.Wlr.Calls.{
  Wlroots, ◌>>=◌, ◌>>◌, give, fixarity, call, double, int, integer_arg, key_def_arg, new_box,
  number_arg, object_or_nil, object_or_panic, optional_pointer_arg, out, pointer_arg, ptr,
  struct_arg, uint, wrap_boolean, wrap_box, wrap_tuple,
}

module _ {S : Type 0} (H : Headers) (J : Janet) (L : Wlroots S) where
  unfoldable pub cfun_wlr_output_layout_create : List Value → Action S Value
  cfun_wlr_output_layout_create argv = do
    fixarity argv 0
    layout ← call L "wlr_output_layout_create" []
    object_or_panic layout.value "wlr/wlr-output-layout"
        "failed to create wlroots output layout object"

  unfoldable pub cfun_wlr_output_layout_destroy : List Value → Action S Value
  cfun_wlr_output_layout_destroy argv = do
    fixarity argv 1
    layout ← pointer_arg J L argv 0 "wlr/wlr-output-layout"
    done ← call L "wlr_output_layout_destroy" (ptr layout ∷ [])
    give nil

  unfoldable pub cfun_wlr_output_layout_get : List Value → Action S Value
  cfun_wlr_output_layout_get argv = do
    fixarity argv 2
    layout ← pointer_arg J L argv 0 "wlr/wlr-output-layout"
    reference ← pointer_arg J L argv 1 "wlr/wlr-output"
    layout_output ← call L "wlr_output_layout_get" (ptr layout ∷ ptr reference ∷ [])
    give (object_or_nil layout_output.value "wlr/wlr-output-layout-output")

  unfoldable pub cfun_wlr_output_layout_add_auto : List Value → Action S Value
  cfun_wlr_output_layout_add_auto argv = do
    fixarity argv 2
    layout ← pointer_arg J L argv 0 "wlr/wlr-output-layout"
    output ← pointer_arg J L argv 1 "wlr/wlr-output"
    done ← call L "wlr_output_layout_add_auto" (ptr layout ∷ ptr output ∷ [])
    give nil

  unfoldable pub cfun_wlr_output_layout_add : List Value → Action S Value
  cfun_wlr_output_layout_add argv = do
    fixarity argv 4
    layout ← pointer_arg J L argv 0 "wlr/wlr-output-layout"
    output ← pointer_arg J L argv 1 "wlr/wlr-output"
    lx ← integer_arg J argv 2
    ly ← integer_arg J argv 3
    done ← call L "wlr_output_layout_add" (ptr layout ∷ ptr output ∷ int lx ∷ int ly ∷ [])
    give nil

  unfoldable pub cfun_wlr_output_layout_move : List Value → Action S Value
  cfun_wlr_output_layout_move argv = do
    fixarity argv 4
    layout ← pointer_arg J L argv 0 "wlr/wlr-output-layout"
    output ← pointer_arg J L argv 1 "wlr/wlr-output"
    lx ← integer_arg J argv 2
    ly ← integer_arg J argv 3
    done ← call L "wlr_output_layout_move" (ptr layout ∷ ptr output ∷ int lx ∷ int ly ∷ [])
    give nil

  unfoldable pub cfun_wlr_output_layout_remove : List Value → Action S Value
  cfun_wlr_output_layout_remove argv = do
    fixarity argv 2
    layout ← pointer_arg J L argv 0 "wlr/wlr-output-layout"
    output ← pointer_arg J L argv 1 "wlr/wlr-output"
    done ← call L "wlr_output_layout_remove" (ptr layout ∷ ptr output ∷ [])
    give nil

  unfoldable pub cfun_wlr_output_layout_get_box : List Value → Action S Value
  cfun_wlr_output_layout_get_box argv = do
    fixarity argv 2
    layout ← pointer_arg J L argv 0 "wlr/wlr-output-layout"
    output ← optional_pointer_arg J L argv 1 "wlr/wlr-output"
    box ← new_box L
    done ← call L "wlr_output_layout_get_box" (ptr layout ∷ ptr output ∷ ptr box ∷ [])
    give (wrap_box box)

  unfoldable pub cfun_wlr_output_layout_output_at : List Value → Action S Value
  cfun_wlr_output_layout_output_at argv = do
    fixarity argv 3
    layout ← pointer_arg J L argv 0 "wlr/wlr-output-layout"
    lx ← number_arg J argv 1
    ly ← number_arg J argv 2
    output ← call L "wlr_output_layout_output_at" (ptr layout ∷ double lx ∷ double ly ∷ [])
    give (object_or_nil output.value "wlr/wlr-output")

  unfoldable pub cfun_wlr_output_layout_output_coords : List Value → Action S Value
  cfun_wlr_output_layout_output_coords argv = do
    fixarity argv 4
    layout ← pointer_arg J L argv 0 "wlr/wlr-output-layout"
    reference ← pointer_arg J L argv 1 "wlr/wlr-output"
    lx ← number_arg J argv 2
    ly ← number_arg J argv 3
    done ←
        call L "wlr_output_layout_output_coords"
          (ptr layout ∷ ptr reference ∷ out (some lx) ∷ out (some ly) ∷ [])
    give (wrap_tuple (number done.first ∷ number done.second ∷ []))

  unfoldable pub cfun_wlr_output_layout_contains_point : List Value → Action S Value
  cfun_wlr_output_layout_contains_point argv = do
    fixarity argv 4
    layout ← pointer_arg J L argv 0 "wlr/wlr-output-layout"
    reference ← pointer_arg J L argv 1 "wlr/wlr-output"
    lx ← integer_arg J argv 2
    ly ← integer_arg J argv 3
    ret ←
        call L "wlr_output_layout_contains_point"
          (ptr layout ∷ ptr reference ∷ int lx ∷ int ly ∷ [])
    give (wrap_boolean ret.value)

  unfoldable pub cfun_wlr_output_layout_intersects : List Value → Action S Value
  cfun_wlr_output_layout_intersects argv = do
    fixarity argv 3
    layout ← pointer_arg J L argv 0 "wlr/wlr-output-layout"
    reference ← pointer_arg J L argv 1 "wlr/wlr-output"
    target_lbox ← struct_arg J argv 2 "wlr/box"
    ret ← call L "wlr_output_layout_intersects" (ptr layout ∷ ptr reference ∷ ptr target_lbox ∷ [])
    give (wrap_boolean ret.value)

  unfoldable pub cfun_wlr_output_layout_closest_point : List Value → Action S Value
  cfun_wlr_output_layout_closest_point argv = do
    fixarity argv 4
    layout ← pointer_arg J L argv 0 "wlr/wlr-output-layout"
    reference ← pointer_arg J L argv 1 "wlr/wlr-output"
    lx ← number_arg J argv 2
    ly ← number_arg J argv 3
    done ←
        call L "wlr_output_layout_closest_point"
          (ptr layout ∷ ptr reference ∷ double lx ∷ double ly ∷ out none ∷ out none ∷ [])
    give (wrap_tuple (number done.first ∷ number done.second ∷ []))

  unfoldable pub cfun_wlr_output_layout_get_center_output : List Value → Action S Value
  cfun_wlr_output_layout_get_center_output argv = do
    fixarity argv 1
    layout ← pointer_arg J L argv 0 "wlr/wlr-output-layout"
    output ← call L "wlr_output_layout_get_center_output" (ptr layout ∷ [])
    give (object_or_nil output.value "wlr/wlr-output")

  unfoldable pub cfun_wlr_output_layout_adjacent_output : List Value → Action S Value
  cfun_wlr_output_layout_adjacent_output argv = do
    fixarity argv 5
    layout ← pointer_arg J L argv 0 "wlr/wlr-output-layout"
    direction ← key_def_arg J argv 1 (terminated (wlr_direction_rows H))
    reference ← pointer_arg J L argv 2 "wlr/wlr-output"
    ref_lx ← number_arg J argv 3
    ref_ly ← number_arg J argv 4
    output ←
        call L "wlr_output_layout_adjacent_output"
          (ptr layout ∷ uint direction ∷ ptr reference ∷ double ref_lx ∷ double ref_ly ∷ [])
    give (object_or_nil output.value "wlr/wlr-output")

  unfoldable pub cfun_wlr_output_layout_farthest_output : List Value → Action S Value
  cfun_wlr_output_layout_farthest_output argv = do
    fixarity argv 5
    layout ← pointer_arg J L argv 0 "wlr/wlr-output-layout"
    direction ← key_def_arg J argv 1 (terminated (wlr_direction_rows H))
    reference ← pointer_arg J L argv 2 "wlr/wlr-output"
    ref_lx ← number_arg J argv 3
    ref_ly ← number_arg J argv 4
    output ←
        call L "wlr_output_layout_farthest_output"
          (ptr layout ∷ uint direction ∷ ptr reference ∷ double ref_lx ∷ double ref_ly ∷ [])
    give (object_or_nil output.value "wlr/wlr-output")
