-- ===== src/AbstractTypes/Seats.antt =====
-- struct_get, one abstract type each.
use janetland.Prelude.{ℕ, none, some, List, [], ◌∷◌}
use janetland.Janet.{Janet}
use janetland.Headers.{Headers}
use janetland.AbstractTypes.{AbstractType}
use janetland.AbstractTypes.{AbstractType, struct_get, struct_put}
use janetland.Wlr.Address.{method_wlr_abs_obj_compare}
use janetland.Wlr.Cursor.{WlrCursor, method_wlr_cursor_get}
use janetland.Wlr.Output.{
  WlrOutput, WlrOutputMode, method_wlr_output_get, method_wlr_output_mode_get,
  method_wlr_output_put,
}
use janetland.Wlr.Seat.{WlrSeat, method_wlr_seat_get}
use janetland.Wlr.Xcursor.{
  WlrXcursor, WlrXcursorImage, method_wlr_xcursor_get, method_wlr_xcursor_image_get,
}

module _ (J : Janet) (H : Headers) (first_word : ℕ → ℕ) where
  abbrev pub jwlr_at_wlr_cursor : AbstractType
  jwlr_at_wlr_cursor = record {
    name = "wlr/wlr-cursor";
    Object = WlrCursor;
    gc = none;
    gcmark = none;
    get = some (struct_get (method_wlr_cursor_get J H));
    put = none;
    tostring = none;
    compare = none;
  }

  abbrev pub jwlr_at_wlr_xcursor_manager : AbstractType
  jwlr_at_wlr_xcursor_manager = record {
    name = "wlr/wlr-xcursor-manager";
    Object = ℕ;
    gc = none;
    gcmark = none;
    get = none;
    put = none;
    tostring = none;
    compare = none;
  }

  abbrev pub jwlr_at_wlr_xcursor_image : AbstractType
  jwlr_at_wlr_xcursor_image = record {
    name = "wlr/wlr-xcursor-image";
    Object = WlrXcursorImage;
    gc = none;
    gcmark = none;
    get = some (struct_get (method_wlr_xcursor_image_get J));
    put = none;
    tostring = none;
    compare = none;
  }

  abbrev pub jwlr_at_wlr_xcursor : AbstractType
  jwlr_at_wlr_xcursor = record {
    name = "wlr/wlr-xcursor";
    Object = WlrXcursor;
    gc = none;
    gcmark = none;
    get = some (struct_get (method_wlr_xcursor_get J));
    put = none;
    tostring = none;
    compare = none;
  }

  abbrev pub jwlr_at_wlr_seat : AbstractType
  jwlr_at_wlr_seat = record {
    name = "wlr/wlr-seat";
    Object = WlrSeat;
    gc = none;
    gcmark = none;
    get = some (struct_get (method_wlr_seat_get J H));
    put = none;
    tostring = none;
    compare = none;
  }

  abbrev pub jwlr_at_wlr_seat_client : AbstractType
  jwlr_at_wlr_seat_client = record {
    name = "wlr/wlr-seat-client";
    Object = ℕ;
    gc = none;
    gcmark = none;
    get = none;
    put = none;
    tostring = none;
    compare = some method_wlr_abs_obj_compare;
  }

  abbrev pub jwlr_at_wlr_output : AbstractType
  jwlr_at_wlr_output = record {
    name = "wlr/wlr-output";
    Object = WlrOutput;
    gc = none;
    gcmark = none;
    get = some (struct_get (method_wlr_output_get J H));
    put = some (struct_put (method_wlr_output_put first_word));
    tostring = none;
    compare = none;
  }

  abbrev pub jwlr_at_wlr_output_mode : AbstractType
  jwlr_at_wlr_output_mode = record {
    name = "wlr/wlr-output-mode";
    Object = WlrOutputMode;
    gc = none;
    gcmark = none;
    get = some (struct_get (method_wlr_output_mode_get J H));
    put = none;
    tostring = none;
    compare = none;
  }

  abbrev pub jwlr_at_wlr_output_cursor : AbstractType
  jwlr_at_wlr_output_cursor = record {
    name = "wlr/wlr-output-cursor";
    Object = ℕ;
    gc = none;
    gcmark = none;
    get = none;
    put = none;
    tostring = none;
    compare = none;
  }

  abbrev pub seats_abstract_types : List AbstractType
  seats_abstract_types =
      jwlr_at_wlr_cursor ∷ jwlr_at_wlr_xcursor_manager ∷ jwlr_at_wlr_xcursor_image
      ∷ jwlr_at_wlr_xcursor ∷ jwlr_at_wlr_seat ∷ jwlr_at_wlr_seat_client ∷ jwlr_at_wlr_output
      ∷ jwlr_at_wlr_output_mode ∷ jwlr_at_wlr_output_cursor ∷ []
