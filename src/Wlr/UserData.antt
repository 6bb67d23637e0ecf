-- ===== src/Wlr/UserData.antt =====
-- The `data` member that Janet code keeps in a wlroots object: setter against getter.
use janetland.Prelude.{ℕ, ◌≡◌, refl, false, String, str_eq}
use janetland.Janet.{Janet, Value, keyword, ok}
use janetland.Jl.{value_to_data_pointer}
use janetland.Wlr.{Headers, found, pointer_or_nil, get_abstract_struct_signal_member}
use janetland.Wlr.Surface.{WlrSurface, method_wlr_surface_get, method_wlr_surface_put}

module _ (J : Janet) (H : Headers) (first_word : ℕ → ℕ) (s : WlrSurface) where
  -- A value that has a data pointer can be stored under :data of a surface; :data then reads as
  -- that pointer (nil for NULL) and every other keyword reads as before.
  pub surface_put-surface_get :
      (value : Value) (p : ℕ) (kw : String)
      → value_to_data_pointer first_word value ≡ ok p
      → str_eq kw "data" ≡ false
      → (t : WlrSurface) × (method_wlr_surface_put J first_word s (keyword "data") value ≡ ok t)
        × (method_wlr_surface_get J H t (keyword "data") ≡ found (pointer_or_nil p))
        × (method_wlr_surface_get J H t (keyword kw) ≡ method_wlr_surface_get J H s (keyword kw))
  unfolding method_wlr_surface_get method_wlr_surface_put get_abstract_struct_signal_member
  surface_put-surface_get value p kw e other = (record s { data_p = p }, rw e, refl, rw other)

  -- Under :pending the getter of a surface gives what it gives under :current.
  pub surface_get_pending :
      method_wlr_surface_get J H s (keyword "pending")
      ≡ method_wlr_surface_get J H s (keyword "current")
  unfolding method_wlr_surface_get get_abstract_struct_signal_member
  surface_get_pending = refl
