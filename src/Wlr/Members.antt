-- ===== src/Wlr/Members.antt =====
-- The lookup of a signal or list member by its name, on tables with and without their NULL row.
use janetland.Prelude.{
  ℕ, ◌+◌, ◌≡◌, refl, Bool, false, ◌||◌, Option, none, some, List, [], ◌∷◌, String, str_eq,
  if◌then◌else◌, eq_iff, arith,
}
use janetland.Janet.{
  Janet, Value, Result, ok, fault, ◌>>=◌, IsSafe, safe_ok, safe_panic, bind-IsSafe, if-IsSafe,
}
use janetland.Jl.{pointer_to_abs_obj_by_name}
use janetland.Wlr.{
  offsets_terminated, offsets_unterminated, find_member, get_abstract_struct_signal_member,
  get_abstract_struct_list_member,
}

-- Does the name stand in the list?
abbrev pub has_name : String → List String → Bool
has_name kw [] = false
has_name kw (n ∷ names) = str_eq kw n || has_name kw names

-- The abstract object that points to the member `kw` of the struct at `p`.
abbrev pub member_object : Janet → String → ℕ → Result (Option Value)
member_object J at q = do v ← pointer_to_abs_obj_by_name J q at; ok (some v)

module _ (J : Janet) (at : String) (p : ℕ) (kw : String) (offset : String → ℕ) where
  -- With the NULL row, a name of the table gives the object at its own offset and any other gives
  -- NULL; without that row, any other runs off the end of the array.
  pub find_member-has_name :
      (names : List String)
      → (find_member J at p kw (offsets_terminated offset names)
          ≡ (if has_name kw names then member_object J at (p + offset kw) else ok none))
        × (find_member J at p kw (offsets_unterminated offset names)
            ≡ (if has_name kw names then member_object J at (p + offset kw) else fault))
  unfolding find_member
  find_member-has_name [] = (refl, refl)
  find_member-has_name (n ∷ names) = (
    ground (arith, eq_iff kw n, (find_member-has_name names).0),
    ground (arith, eq_iff kw n, (find_member-has_name names).1),
  )

pub pointer_to_abs_obj_by_name-IsSafe :
    (J : Janet) (q : ℕ) (at : String) → IsSafe (pointer_to_abs_obj_by_name J q at)
unfolding pointer_to_abs_obj_by_name
pointer_to_abs_obj_by_name-IsSafe J q at =
    bind-IsSafe (if-IsSafe (J.registered at) (safe_ok at) (safe_panic _)) (λ name. safe_ok _)

find_member-IsSafe :
    (J : Janet) (at : String) (p : ℕ) (kw : String) (offset : String → ℕ) (names : List String)
    → IsSafe (find_member J at p kw (offsets_terminated offset names))
find_member-IsSafe J at p kw offset names = rw (find_member-has_name J at p kw offset names).0 (
    if-IsSafe (has_name kw names)
      (bind-IsSafe (pointer_to_abs_obj_by_name-IsSafe J (p + offset kw) at) (λ v. safe_ok _))
      (safe_ok none))

module _ (J : Janet) (p : ℕ) (kw : String) (offset : String → ℕ) (names : List String) where
  pub signal_member-IsSafe :
      IsSafe (get_abstract_struct_signal_member J p kw (offsets_terminated offset names))
  unfolding get_abstract_struct_signal_member
  signal_member-IsSafe = find_member-IsSafe J "wl/wl-signal" p kw offset names

  pub list_member-IsSafe :
      IsSafe (get_abstract_struct_list_member J p kw (offsets_terminated offset names))
  unfolding get_abstract_struct_list_member
  list_member-IsSafe = find_member-IsSafe J "wl/wl-list" p kw offset names
