-- ===== src/Util/Data.antt =====
-- The raw pointers that a listener gets, as objects.
use janetland.Prelude.{ℕ, ◌≡◌, ◌≢◌, refl, true, [], ◌∷◌, String, ==_differ, eq_refl}
use janetland.Janet.{Janet, Value, symbol, pointer, abstract, wraps, ok}
use janetland.Jl.{
  get_abs_obj_pointer, pointer_to_abs_obj_by_key, get_abstract_type_by_key,
  get_abstract_type_by_name, pointer_to_abs_obj,
}
use janetland.Util.{cfun_get_abstract_listener_data, cfun_pointer_to_abstract_object}

-- Under the symbol of a registered type, `get-abstract-listener-data` and `pointer-to-abstract-object` make
-- of a pointer other than NULL one and the same object, in which `jl_get_abs_obj_pointer` finds the pointer under
-- that type.
pub get_abs_obj_pointer-listener_data :
    (J : Janet) (first_word : ℕ → ℕ) (p : ℕ) (at : String)
    → p ≢ 0
    → J.registered at ≡ true
    → (v : Value) × (cfun_get_abstract_listener_data J (pointer p ∷ symbol at ∷ []) ≡ ok v)
      × (cfun_pointer_to_abstract_object J (pointer p ∷ symbol at ∷ []) ≡ ok v)
      × (get_abs_obj_pointer J first_word v at ≡ ok p)
unfolding cfun_get_abstract_listener_data cfun_pointer_to_abstract_object pointer_to_abs_obj_by_key
    get_abstract_type_by_key get_abstract_type_by_name get_abs_obj_pointer pointer_to_abs_obj
get_abs_obj_pointer-listener_data J first_word p at nonzero known =
    let get = J.getpointer-IsAccessor.accepts (pointer p) p refl in
    let object =
      (J.getabstract-IsAccessor at).accepts (abstract at (wraps p)) (wraps p)
        (rw (eq_refl at) refl) in
    (
      abstract at (wraps p),
      rw (get, ==_differ p 0 nonzero, known) refl,
      rw (get, ==_differ p 0 nonzero, known) refl,
      rw object refl,
    )
