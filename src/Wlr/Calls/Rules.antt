-- ===== src/Wlr/Calls/Rules.antt =====
-- The rules by which `search` takes a function of wlr.c apart: one for each kind of argument and of answer.
use janetland.Prelude.{
  ℕ, ◌≡◌, ◌≢◌, refl, true, false, Option, none, some, List, String, ltb, ◌==◌, Bool-cases, inl, inr,
  arith,
}
use janetland.Prelude.Int.{signed32}
use janetland.Janet.{
  array, from_list, Janet, Value, Result, safe_ok, safe_panic, bind-IsSafe, if-IsSafe,
  IsSafe-accessor, IsAccessor,
}
use janetland.Jl.{get_abstract_type_by_name, pointer_to_abs_obj}
use janetland.KeyDefs.{terminated, get_flag_keys}
use janetland.KeyDefs.Flags.{get_flag_keys-names_of}
use janetland.Wlr.Calls.Seats.{key_codes}
use janetland.Wlr.Calls.KeyCodes.{key_codes-IsSafe}
use janetland.Wlr.Calls.{
  Returned, Wlroots, ◌>>=◌, pure, give, fail, is_nil, read_arg, pointer_arg, pointer_by_name_arg,
  optional_pointer_arg, struct_arg, struct_by_name_arg, integer_arg, uint64_arg, number_arg,
  boolean_arg, cstring_arg, string_arg, optional_string_arg, buffer_arg, indexed_arg, key_def_arg,
  key_flags_arg, object_or_panic, object_or_nil, wrap_boolean, wrap_bits, wrap_box,
}
use janetland.Wlr.Calls.Effects.{
  IsWhole, is_struct_type, Arguments, Answer, answer_ok, answer_panic, Reads, Answers,
  CallsOnce-bind, CallsOnce-fixarity, CallsOnce-call, CallsNow-call, CallsOnce-new_box, Passed-all,
  next, own_variable, own_box, next_counted, from_pointer, from_pointer_by_name,
  from_optional_pointer, from_struct, from_struct_by_name, from_integer, from_integer_unsigned,
  from_integer_int16, from_integer_uint16, from_uint64, from_number, from_number_float,
  from_number_out, from_boolean, from_cstring, from_string, from_optional_string, from_buffer,
  from_key_def, from_key_flags, from_key_codes,
}
use janetland.Wlr.Calls.Steps.{
  arg-IsSafe, read_arg-Reads, struct-IsSafe, pointer-IsSafe, pointer_by_name-IsSafe, key_def-IsSafe,
  key_flags-IsSafe,
}

module _ {S : Type 0} (J : Janet) {argv : List Value} {n : ℕ} (i : ℕ) (within : ltb i n ≡ true)
    (args : Arguments argv n) where
  accessor_arg-Reads :
      {A : Type 0} {view : Value → Option A} {get : Value → Result A}
      → IsAccessor view get
      → Reads (read_arg {S = S} get argv i)
  accessor_arg-Reads accessor = read_arg-Reads i within args (λ v whole. IsSafe-accessor accessor v)

  pub integer_arg-Reads : Reads (integer_arg {S = S} J argv i)
  unfolding integer_arg
  integer_arg-Reads = accessor_arg-Reads J.getinteger-IsAccessor

  pub uint64_arg-Reads : Reads (uint64_arg {S = S} J argv i)
  unfolding uint64_arg
  uint64_arg-Reads = accessor_arg-Reads J.getuinteger64-IsAccessor

  pub number_arg-Reads : Reads (number_arg {S = S} J argv i)
  unfolding number_arg
  number_arg-Reads = accessor_arg-Reads J.getnumber-IsAccessor

  pub boolean_arg-Reads : Reads (boolean_arg {S = S} J argv i)
  unfolding boolean_arg
  boolean_arg-Reads = accessor_arg-Reads J.getboolean-IsAccessor

  pub cstring_arg-Reads : Reads (cstring_arg {S = S} J argv i)
  unfolding cstring_arg
  cstring_arg-Reads = accessor_arg-Reads J.getcstring-IsAccessor

  pub string_arg-Reads : Reads (string_arg {S = S} J argv i)
  unfolding string_arg
  string_arg-Reads = accessor_arg-Reads J.getstring-IsAccessor

  pub buffer_arg-Reads : Reads (buffer_arg {S = S} J argv i)
  unfolding buffer_arg
  buffer_arg-Reads = accessor_arg-Reads J.getbuffer-IsAccessor

  pub indexed_arg-Reads : Reads (indexed_arg {S = S} J argv i)
  unfolding indexed_arg
  indexed_arg-Reads = accessor_arg-Reads J.getindexed-IsAccessor

  pub optional_string_arg-Reads : Reads (optional_string_arg {S = S} J argv i)
  unfolding optional_string_arg
  optional_string_arg-Reads = read_arg-Reads i within args (λ v whole.
      if-IsSafe (is_nil v) (safe_ok none)
        (bind-IsSafe (IsSafe-accessor J.getstring-IsAccessor v) (λ s. safe_ok (some s))))

  pub key_def_arg-Reads :
      (rows : List (String × ℕ)) → Reads (key_def_arg {S = S} J argv i (terminated rows))
  unfolding key_def_arg
  key_def_arg-Reads rows = read_arg-Reads i within args (λ v whole. key_def-IsSafe J rows v)

  pub key_flags_arg-Reads :
      (rows : List (String × ℕ)) → Reads (key_flags_arg {S = S} J argv i (terminated rows))
  unfolding key_flags_arg
  key_flags_arg-Reads rows = read_arg-Reads i within args (λ v whole. key_flags-IsSafe J rows v)

  pub struct_arg-Reads :
      (at : String) → is_struct_type at ≡ true → Reads (struct_arg {S = S} J argv i at)
  unfolding struct_arg
  struct_arg-Reads at h = read_arg-Reads i within args (λ v whole. struct-IsSafe J at v h whole)

  module _ (L : Wlroots S) (at : String) where
    pub pointer_arg-Reads : Reads (pointer_arg J L argv i at)
    unfolding pointer_arg
    pointer_arg-Reads = record {
      at =
          λ s. (refl, arg-IsSafe i within args (λ v whole. pointer-IsSafe J at (L.first_word s) v));
    }

    pub pointer_by_name_arg-Reads : Reads (pointer_by_name_arg J L argv i at)
    unfolding pointer_by_name_arg
    pointer_by_name_arg-Reads = record {
      at = λ s. (
        refl,
        arg-IsSafe i within args (λ v whole. pointer_by_name-IsSafe J at (L.first_word s) v),
      );
    }

    pub optional_pointer_arg-Reads : Reads (optional_pointer_arg J L argv i at)
    unfolding optional_pointer_arg
    optional_pointer_arg-Reads = record {
      at = λ s. (
        refl,
        arg-IsSafe i within args
            (λ v whole. if-IsSafe (is_nil v) (safe_ok 0) (pointer-IsSafe J at (L.first_word s) v)),
      );
    }

  pub struct_by_name_arg-Reads :
      (at : String) → is_struct_type at ≡ true → Reads (struct_by_name_arg {S = S} J argv i at)
  unfolding struct_by_name_arg pure get_abstract_type_by_name
  struct_by_name_arg-Reads at h = record {
    at = λ s. (
      refl,
      elim (Bool-cases (J.registered at)) [
        | inl e ↦ rw e (arg-IsSafe i within args (λ v whole. struct-IsSafe J at v h whole))
        | inr e ↦ rw e (safe_panic _)
      ],
    );
  }

module _ {S : Type 0} (ret : Returned) where
  pub Answers-give : (v : Value) → IsWhole v → Answers {S = S} ret (give v)
  unfolding pure
  Answers-give v whole = record { at = λ s. (refl, answer_ok whole) }

  Answers-fail : (m : String) → ret.value ≡ 0 → Answers {S = S} ret (fail m)
  unfolding pure
  Answers-fail m none_made = record { at = λ s. (refl, answer_panic none_made) }

  pub Answers-object_or_panic :
      (at m : String)
      → is_struct_type at ≡ false
      → Answers {S = S} ret (object_or_panic ret.value at m)
  unfolding object_or_panic pointer_to_abs_obj
  Answers-object_or_panic at m h = elim (Bool-cases (ret.value == 0)) [
    | inl e ↦ rw e (Answers-fail m (ground arith))
    | inr e ↦ rw e (Answers-give _ (λ z. ground arith, h))
  ]

pub object_or_nil-IsWhole :
    (p : ℕ) (at : String) → is_struct_type at ≡ false → IsWhole (object_or_nil p at)
unfolding object_or_nil pointer_to_abs_obj
object_or_nil-IsWhole p at h = elim (Bool-cases (p == 0)) [
  | inl e ↦ rw e tt
  | inr e ↦ rw e (λ z. ground arith, h)
]

pub wrap_boolean-IsWhole : (b : ℕ) → IsWhole (wrap_boolean b)
unfolding wrap_boolean
wrap_boolean-IsWhole b = tt

pub wrap_box-IsWhole : (box : ℕ) → box ≢ 0 → IsWhole (wrap_box box)
unfolding wrap_box
wrap_box-IsWhole box h = h

pub wrap_bits-IsWhole : (J : Janet) (n : ℕ) → IsWhole (wrap_bits J n)
unfolding wrap_bits
wrap_bits-IsWhole J n = let (bits, e) = J.wrap_integer_number (signed32 n) in rw e tt

-- The keys of a flag set, and the key codes of a keyboard.
pub Answers-flag_keys :
    {S : Type 0} (ret : Returned) (flags : ℕ) (rows : List (String × ℕ))
    → Answers {S = S} ret
        (pure (get_flag_keys flags (terminated rows)) >>= λ keys. give (array (from_list keys)))
unfolding ◌>>=◌ pure
Answers-flag_keys ret flags rows = rw (get_flag_keys-names_of flags rows) (Answers-give ret _ tt)

pub key_codes-Reads :
    {S : Type 0} (J : Janet) (cap : ℕ) (items : List Value)
    → Reads {S = S} (pure (key_codes J cap items))
unfolding pure
key_codes-Reads J cap items = record { at = λ s. (refl, key_codes-IsSafe J cap items) }

pub ruleset call_rules = (
  CallsOnce-bind, CallsOnce-fixarity, CallsOnce-call, CallsNow-call, CallsOnce-new_box, next,
  next_counted, own_variable, own_box, Passed-all, from_pointer, from_pointer_by_name,
  from_optional_pointer, from_struct, from_struct_by_name, from_integer, from_integer_unsigned,
  from_integer_int16, from_integer_uint16, from_uint64, from_number, from_number_float,
  from_number_out, from_boolean, from_cstring, from_string, from_optional_string, from_buffer,
  from_key_def, from_key_flags, from_key_codes, integer_arg-Reads, uint64_arg-Reads,
  number_arg-Reads, boolean_arg-Reads, cstring_arg-Reads, string_arg-Reads, buffer_arg-Reads,
  indexed_arg-Reads, optional_string_arg-Reads, key_def_arg-Reads, key_flags_arg-Reads,
  struct_arg-Reads, struct_by_name_arg-Reads, pointer_arg-Reads, pointer_by_name_arg-Reads,
  optional_pointer_arg-Reads, Answers-give, Answers-object_or_panic, object_or_nil-IsWhole,
  wrap_boolean-IsWhole, wrap_box-IsWhole, wrap_bits-IsWhole, Answers-flag_keys, key_codes-Reads,
)
