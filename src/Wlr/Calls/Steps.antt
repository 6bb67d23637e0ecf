-- ===== src/Wlr/Calls/Steps.antt =====
-- The steps of which the functions of wlr.c are made: none that reads an argument faults, and each answer is a
-- whole value.
use janetland.Prelude.{
  ℕ, zero, suc, ◌≡◌, refl, Bool, true, false, some, List, [], ◌∷◌, String, ltb, str_eq, inl, inr,
  Option-cases, All, arith, eq_iff,
}
use janetland.Janet.{
  Janet, Value, tuple, array, keyword, abstract, to_list, Content, wraps, cell, Result, ok,
  ◌>>=◌ as bind, arg, argc, address, guard, IsSafe, safe_ok, safe_panic, bind-IsSafe, if-IsSafe,
  IsSafe-accessor, IsSafe-panic, bind-IsPanic, as_abstract,
}
use janetland.Jl.{get_abs_obj_pointer, get_abs_obj_pointer_by_name, get_abstract_type_by_name}
use janetland.KeyDefs.{terminated, get_key_def, get_key_flags, find_key, key_flags_loop, is_keyword}
use janetland.Wlr.Calls.{pure, read_arg}
use janetland.Wlr.Calls.Effects.{IsWhole, is_struct_type, Arguments, Reads}

-- The argument at a place that the arity allows: a whole value.
IsWhole-arg :
    (argv : List Value) (i : ℕ)
    → ltb i (argc argv) ≡ true
    → All IsWhole argv
    → (v : Value) × (arg argv i ≡ ok v) × IsWhole v
IsWhole-arg [] i h whole = absurd (ground arith)
IsWhole-arg (v ∷ vs) zero h whole = (v, refl, whole.0)
IsWhole-arg (v ∷ vs) (suc i) h whole = IsWhole-arg vs i (ground arith) whole.1

module _ {argv : List Value} {n : ℕ} where
  pub arg-IsSafe :
      {A : Type 0} {get : Value → Result A} (i : ℕ)
      → ltb i n ≡ true
      → Arguments argv n
      → ((v : Value) → IsWhole v → IsSafe (get v))
      → IsSafe (bind (arg argv i) get)
  arg-IsSafe i within args safe =
      let (v, e, whole) = IsWhole-arg argv i (rw args.count within) args.whole in
      rw e (safe v whole)

  pub read_arg-Reads :
      {S A : Type 0} {get : Value → Result A} (i : ℕ)
      → ltb i n ≡ true
      → Arguments argv n
      → ((v : Value) → IsWhole v → IsSafe (get v))
      → Reads (read_arg {S = S} get argv i)
  unfolding pure
  read_arg-Reads i within args safe = record { at = λ s. (refl, arg-IsSafe i within args safe) }

find_key-IsSafe : (rows : List (String × ℕ)) (kw : String) → IsSafe (find_key (terminated rows) kw)
unfolding find_key
find_key-IsSafe [] kw = safe_panic _
find_key-IsSafe ((n, k) ∷ rows) kw = if-IsSafe (str_eq kw n) (safe_ok k) (find_key-IsSafe rows kw)

guard-IsSafe : (b : Bool) (m : String) → IsSafe (guard b m)
guard-IsSafe true m = safe_ok tt
guard-IsSafe false m = safe_panic m

-- What lies behind a whole value of a type.
IsWhole-content :
    (at : String) (v : Value) (c : Content)
    → as_abstract at v ≡ some c
    → IsWhole v
    → IsWhole (abstract at c)
IsWhole-content at (abstract name (wraps p)) c e whole = ground (arith, eq_iff name at)
IsWhole-content at (abstract name (cell a)) c e whole = ground (arith, eq_iff name at)
IsWhole-content at _ c e whole = cc

module _ (J : Janet) where
  block-IsSafe :
      (at : String) (c : Content)
      → is_struct_type at ≡ true
      → IsWhole (abstract at c)
      → IsSafe (address c)
  block-IsSafe at (cell zero) h whole = absurd (whole refl)
  block-IsSafe at (cell (suc a)) h whole = safe_ok (suc a)
  block-IsSafe at (wraps p) h whole = absurd (cc (h, whole.1))

  pub struct-IsSafe :
      (at : String) (v : Value)
      → is_struct_type at ≡ true
      → IsWhole v
      → IsSafe (bind (J.getabstract at v) address)
  struct-IsSafe at v h whole = elim (Option-cases (as_abstract at v)) [
    | inl e ↦ IsSafe-panic (bind-IsPanic _ address ((J.getabstract-IsAccessor at).rejects v e))
    | inr (c, e) ↦
        rw ((J.getabstract-IsAccessor at).accepts v c e)
          (block-IsSafe at c h (IsWhole-content at v c e whole))
  ]

  pub pointer-IsSafe :
      (at : String) (first_word : ℕ → ℕ) (v : Value)
      → IsSafe (get_abs_obj_pointer J first_word v at)
  unfolding get_abs_obj_pointer
  pointer-IsSafe at first_word v =
      bind-IsSafe (IsSafe-accessor (J.getabstract-IsAccessor at) v) (λ c. safe_ok _)

  pub pointer_by_name-IsSafe :
      (name : String) (first_word : ℕ → ℕ) (v : Value)
      → IsSafe (get_abs_obj_pointer_by_name J first_word v name)
  unfolding get_abs_obj_pointer_by_name get_abstract_type_by_name
  pointer_by_name-IsSafe name first_word v =
      bind-IsSafe (if-IsSafe (J.registered name) (safe_ok name) (safe_panic _))
        (λ at. pointer-IsSafe at first_word v)

  pub key_def-IsSafe :
      (rows : List (String × ℕ)) (v : Value) → IsSafe (get_key_def J v (terminated rows))
  unfolding get_key_def
  key_def-IsSafe rows v =
      bind-IsSafe (IsSafe-accessor J.getkeyword-IsAccessor v) (λ kw. find_key-IsSafe rows kw)

  key_flags_loop-IsSafe :
      (rows : List (String × ℕ)) (vs : List Value) (flags : ℕ)
      → IsSafe (key_flags_loop J (terminated rows) vs flags)
  unfolding key_flags_loop
  key_flags_loop-IsSafe rows [] flags = safe_ok flags
  key_flags_loop-IsSafe rows (v ∷ vs) flags =
      bind-IsSafe (guard-IsSafe (is_keyword v) _)
        (λ done. bind-IsSafe (key_def-IsSafe rows v) (λ key. key_flags_loop-IsSafe rows vs _))

  pub key_flags-IsSafe :
      (rows : List (String × ℕ)) (v : Value) → IsSafe (get_key_flags J v (terminated rows))
  unfolding get_key_flags
  key_flags-IsSafe rows (keyword s) = key_def-IsSafe rows (keyword s)
  key_flags-IsSafe rows (tuple vs) = key_flags_loop-IsSafe rows (to_list vs) 0
  key_flags-IsSafe rows (array vs) = key_flags_loop-IsSafe rows (to_list vs) 0
  key_flags-IsSafe rows _ = safe_panic _
