-- ===== src/Wlr/Registration/Outputs.antt =====
-- wlr.c: the rows of the registration table for outputs and their layouts.
use janetland.Prelude.{List, [], ◌∷◌}
use janetland.Janet.{Janet}
use janetland.Headers.{Headers}
use janetland.Wlr.Calls.{Wlroots}
use janetland.Wlr.Calls.Outputs.{
  cfun_wlr_output_init_render, cfun_wlr_output_preferred_mode, cfun_wlr_output_set_mode,
  cfun_wlr_output_enable, cfun_wlr_output_commit, cfun_wlr_output_destroy,
}
use janetland.Wlr.Calls.Layouts.{
  cfun_wlr_output_layout_create, cfun_wlr_output_layout_destroy, cfun_wlr_output_layout_get,
  cfun_wlr_output_layout_add_auto, cfun_wlr_output_layout_add, cfun_wlr_output_layout_move,
  cfun_wlr_output_layout_remove, cfun_wlr_output_layout_get_box, cfun_wlr_output_layout_output_at,
  cfun_wlr_output_layout_output_coords, cfun_wlr_output_layout_contains_point,
  cfun_wlr_output_layout_intersects, cfun_wlr_output_layout_closest_point,
  cfun_wlr_output_layout_get_center_output, cfun_wlr_output_layout_adjacent_output,
  cfun_wlr_output_layout_farthest_output,
}
use janetland.Wlr.Registration.{JanetReg}

module _ {S : Type 0} (H : Headers) (J : Janet) (L : Wlroots S) where
  abbrev pub output_cfuns : List (JanetReg S)
  output_cfuns =
      record {
        name = "wlr-output-init-render";
        cfun = cfun_wlr_output_init_render H J L;
        documentation =
            "(wlr/wlr-output-init-render wlr-output wlr-allocator wlr-renderer)\n\nConfigures the output object to use specified allocator & renderer.";
      }
      ∷ record {
        name = "wlr-output-preferred-mode";
        cfun = cfun_wlr_output_preferred_mode H J L;
        documentation =
            "(wlr/wlr-output-preferred-mode wlr-output)\n\nRetrieves a preferred mode for an output object.";
      }
      ∷ record {
        name = "wlr-output-set-mode";
        cfun = cfun_wlr_output_set_mode H J L;
        documentation =
            "(wlr/wlr-output-set-mode wlr-output wlr-output-mode)\n\nSets a mode for an output object.";
      }
      ∷ record {
        name = "wlr-output-enable";
        cfun = cfun_wlr_output_enable H J L;
        documentation =
            "(wlr/wlr-output-enable wlr-output bool)\n\nSets whether an output object is enabled or not.";
      }
      ∷ record {
        name = "wlr-output-commit";
        cfun = cfun_wlr_output_commit H J L;
        documentation = "(wlr/wlr-output-commit wlr-output)\n\nCommits an output object.";
      }
      ∷ record {
        name = "wlr-output-destroy";
        cfun = cfun_wlr_output_destroy H J L;
        documentation = "(wlr/wlr-output-destroy wlr-output)\n\nDestroys an output object.";
      }
      ∷ []

  abbrev pub layout_cfuns : List (JanetReg S)
  layout_cfuns =
      record {
        name = "wlr-output-layout-create";
        cfun = cfun_wlr_output_layout_create H J L;
        documentation = "(wlr/wlr-output-layout-create)\n\nCreates a wlroots output layout object.";
      }
      ∷ record {
        name = "wlr-output-layout-destroy";
        cfun = cfun_wlr_output_layout_destroy H J L;
        documentation =
            "(wlr/wlr-output-layout-destroy wlr-output-layout)\n\nDestroys a wlroots output layout object.";
      }
      ∷ record {
        name = "wlr-output-layout-get";
        cfun = cfun_wlr_output_layout_get H J L;
        documentation =
            "(wlr/wlr-output-layout-get wlr-output-layout wlr-output)\n\nGets the output layout for the specified output.";
      }
      ∷ record {
        name = "wlr-output-layout-add-auto";
        cfun = cfun_wlr_output_layout_add_auto H J L;
        documentation =
            "(wlr/wlr-output-layout-add-auto wlr-output-layout wlr-output)\n\nAdds an output object to an output layout.";
      }
      ∷ record {
        name = "wlr-output-layout-add";
        cfun = cfun_wlr_output_layout_add H J L;
        documentation =
            "(wlr/wlr-output-layout-add wlr-output-layout wlr-output lx ly)\n\nAdds the output to the layout at the specified coordinates.";
      }
      ∷ record {
        name = "wlr-output-layout-move";
        cfun = cfun_wlr_output_layout_move H J L;
        documentation =
            "(wlr/wlr-output-layout-move wlr-output-layout wlr-output lx ly)\n\nMoves the output to the specified coordinates.";
      }
      ∷ record {
        name = "wlr-output-layout-remove";
        cfun = cfun_wlr_output_layout_remove H J L;
        documentation =
            "(wlr/wlr-output-layout-remove wlr-output-layout wlr-output)\n\nRemoves the output from the layout.";
      }
      ∷ record {
        name = "wlr-output-layout-get-box";
        cfun = cfun_wlr_output_layout_get_box H J L;
        documentation =
            "(wlr/wlr-output-layout-get-box wlr-output-layout wlr-output)\n\nGets the box of the layout for the given reference output.";
      }
      ∷ []

  abbrev pub layout_point_cfuns : List (JanetReg S)
  layout_point_cfuns =
      record {
        name = "wlr-output-layout-output-at";
        cfun = cfun_wlr_output_layout_output_at H J L;
        documentation =
            "(wlr/wlr-output-layout-output-at wlr-output-layout lx ly)\n\nGets the output at the specified layout coordinates.";
      }
      ∷ record {
        name = "wlr-output-layout-output-coords";
        cfun = cfun_wlr_output_layout_output_coords H J L;
        documentation =
            "(wlr/wlr-output-layout-output-coords wlr-output-layout wlr-output lx ly)\n\nAdjusts lx and ly to local output coordinates.";
      }
      ∷ record {
        name = "wlr-output-layout-contains-point";
        cfun = cfun_wlr_output_layout_contains_point H J L;
        documentation =
            "(wlr/wlr-output-layout-contains-point wlr-output-layout wlr-output lx ly)\n\nChecks whether the coordinates are inside the specified output.";
      }
      ∷ record {
        name = "wlr-output-layout-intersects";
        cfun = cfun_wlr_output_layout_intersects H J L;
        documentation =
            "(wlr/wlr-output-layout-intersects wlr-output-layout wlr-output box)\n\nChecks whether the output intersects with the specified box.";
      }
      ∷ record {
        name = "wlr-output-layout-closest-point";
        cfun = cfun_wlr_output_layout_closest_point H J L;
        documentation =
            "(wlr/wlr-output-layout-closest-point wlr-output-layout wlr-output lx ly)\n\nGets the closest point on this layout from the given point from the specified output.";
      }
      ∷ record {
        name = "wlr-output-layout-get-center-output";
        cfun = cfun_wlr_output_layout_get_center_output H J L;
        documentation =
            "(wlr/wlr-output-layout-get-center-output wlr-output-layout)\n\nGets the output closest to the center of the layout.";
      }
      ∷ record {
        name = "wlr-output-layout-adjacent-output";
        cfun = cfun_wlr_output_layout_adjacent_output H J L;
        documentation =
            "(wlr/wlr-output-layout-adjacent-output wlr-output-layout direction wlr-output ref-lx ref-ly)\n\nGets the closest adjacent output to the reference output from the reference point in the given direction.";
      }
      ∷ record {
        name = "wlr-output-layout-farthest-output";
        cfun = cfun_wlr_output_layout_farthest_output H J L;
        documentation =
            "(wlr/wlr-output-layout-farthest-output wlr-output-layout direction wlr-output ref-lx ref-ly)\n\nGets the farthest output to the reference output from the reference point in the given direction.";
      }
      ∷ []
