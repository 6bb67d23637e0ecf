-- ===== src/Wlr/Calls/Effects.antt =====
-- What a function of wlr.c may do: read its arguments, hand each of them to the one function of wlroots that it is
-- for, and make its answer. One rule for each way to build such a function.
use janetland.Prelude.{
  ℕ, suc, ◌≡◌, ◌≢◌, ◌%◌, ◌^◌, refl, Bool, true, false, Option, some, List, [], ◌∷◌, String, ◌==◌,
  str_eq, inl, inr, Bool-cases, if◌then◌else◌, All, ==_iff, length,
}
use janetland.Prelude.Int.{ℤ, unsigned32}
use janetland.KeyDefs.{KeyDef}
use janetland.Janet.{
  Janet, Value, tuple, abstract, Items, end, item, wraps, cell, Result, ok, panic, argc, IsSafe,
  safe_ok, safe_panic,
}
use janetland.Action.{Action, then_do}
use janetland.Wlr.Calls.Seats.{key_codes}
use janetland.Wlr.Calls.{
  CArg, ptr, int, uint, flag, double, float, text, bytes, words, out, Returned, Wlroots, ◌>>=◌,
  ◌>>◌, pure, fixarity, call, new_box, pointer_arg, pointer_by_name_arg, optional_pointer_arg,
  struct_arg, struct_by_name_arg, integer_arg, uint64_arg, number_arg, boolean_arg, cstring_arg,
  string_arg, optional_string_arg, buffer_arg, indexed_arg, key_def_arg, key_flags_arg, to_int16,
  to_uint16,
}

-- The types whose blocks are a struct of their own, and not a pointer.
abbrev pub is_struct_type : String → Bool
is_struct_type at = if str_eq at "wlr/box" then true else str_eq at "util/timespec"

-- A value that wraps no NULL, and whose block is what its type says, all items of a tuple included.
abbrev mutual
  pub IsWhole : Value → Type 0
  IsWhole (abstract at (wraps p)) = (p ≢ 0) × (is_struct_type at ≡ false)
  IsWhole (abstract at (cell a)) = a ≢ 0
  IsWhole (tuple vs) = AllWhole vs
  IsWhole _ = Unit

  pub AllWhole : Items → Type 0
  AllWhole end = Unit
  AllWhole (item v vs) = IsWhole v × AllWhole vs

-- The arguments of a call of a function that takes `n`.
pub record Arguments (argv : List Value) (n : ℕ) : Type 0 where
  pub count : argc argv ≡ n
  pub whole : All IsWhole argv

-- A step that changes nothing and does not fault.
pub record Reads {S A : Type 0} (m : Action S A) : Type 0 where
  pub at : (s : S) → ((m s).1 ≡ s) × IsSafe (m s).0

-- An answer that Janet code gets, or a panic, which needs that wlroots handed back 0 (NULL or `false`).
pub data Answer (ret : Returned) : Result Value → Type 0 where
  answer_ok : {v : Value} → IsWhole v → Answer ret (ok v)
  answer_panic : {m : String} → ret.value ≡ 0 → Answer ret (panic m)

-- What makes an answer of what wlroots handed back, and changes nothing.
pub record Answers {S : Type 0} (ret : Returned) (m : Action S Value) : Type 0 where
  pub at : (s : S) → ((m s).1 ≡ s) × Answer ret (m s).0

-- The state in which wlroots is called: that of the caller, or with a new object.
pub data Prepared {S : Type 0} (L : Wlroots S) (s : S) : S → Type 0 where
  as_is : Prepared L s s
  with_new : Prepared L s (L.new_abstract s).1

module _ {S : Type 0} (J : Janet) (L : Wlroots S) (argv : List Value) (s : S) where
  -- What the `i`-th argument of the caller becomes as an argument of a C function, in the state `s`.
  pub data From (i : ℕ) : CArg → Type 0 where
    from_pointer : (at : String) {p : ℕ} → (pointer_arg J L argv i at s).0 ≡ ok p → From i (ptr p)
    from_pointer_by_name :
        (at : String) {p : ℕ} → (pointer_by_name_arg J L argv i at s).0 ≡ ok p → From i (ptr p)
    from_optional_pointer :
        (at : String) {p : ℕ} → (optional_pointer_arg J L argv i at s).0 ≡ ok p → From i (ptr p)
    from_struct : (at : String) {p : ℕ} → (struct_arg J argv i at s).0 ≡ ok p → From i (ptr p)
    from_struct_by_name :
        (at : String) {p : ℕ} → (struct_by_name_arg J argv i at s).0 ≡ ok p → From i (ptr p)
    from_integer : {n : ℤ} → (integer_arg J argv i s).0 ≡ ok n → From i (int n)
    from_integer_unsigned :
        {n : ℤ} → (integer_arg J argv i s).0 ≡ ok n → From i (uint (unsigned32 n))
    from_integer_int16 : {n : ℤ} → (integer_arg J argv i s).0 ≡ ok n → From i (int (to_int16 n))
    from_integer_uint16 : {n : ℤ} → (integer_arg J argv i s).0 ≡ ok n → From i (uint (to_uint16 n))
    from_uint64 : {n : ℕ} → (uint64_arg J argv i s).0 ≡ ok n → From i (uint (n % 2 ^ 32))
    from_number : {n : ℕ} → (number_arg J argv i s).0 ≡ ok n → From i (double n)
    from_number_float : {n : ℕ} → (number_arg J argv i s).0 ≡ ok n → From i (float (L.to_float n))
    from_number_out : {n : ℕ} → (number_arg J argv i s).0 ≡ ok n → From i (out (some n))
    from_boolean : {b : Bool} → (boolean_arg J argv i s).0 ≡ ok b → From i (flag b)
    from_cstring : {t : String} → (cstring_arg J argv i s).0 ≡ ok t → From i (text (some t))
    from_string : {t : String} → (string_arg J argv i s).0 ≡ ok t → From i (text (some t))
    from_optional_string :
        {t : Option String} → (optional_string_arg J argv i s).0 ≡ ok t → From i (text t)
    from_buffer : {b : List ℕ} → (buffer_arg J argv i s).0 ≡ ok b → From i (bytes b)
    from_key_def :
        (defs : List KeyDef) {n : ℕ} → (key_def_arg J argv i defs s).0 ≡ ok n → From i (uint n)
    from_key_flags :
        (defs : List KeyDef) {n : ℕ} → (key_flags_arg J argv i defs s).0 ≡ ok n → From i (uint n)
    from_key_codes :
        (cap : ℕ) (items : List Value) {codes : List ℕ}
        → (indexed_arg J argv i s).0 ≡ ok items
        → (pure (key_codes J cap items) s).0 ≡ ok codes
        → From i (words codes)

  -- The arguments of the caller from the `i`-th on, all of them and in their order; between them there is only what
  -- the function itself provides: variables for results, a new box, and the length of an array.
  pub data Passed : ℕ → List CArg → Type 0 where
    no_more : {i : ℕ} → argc argv ≡ i → Passed i []
    next : {i : ℕ} {c : CArg} {cs : List CArg} → From i c → Passed (suc i) cs → Passed i (c ∷ cs)
    own_variable : {i : ℕ} {o : Option ℕ} {cs : List CArg} → Passed i cs → Passed i (out o ∷ cs)
    own_box :
        {i box : ℕ} {cs : List CArg}
        → box ≡ (L.new_abstract s).0
        → Passed i cs
        → Passed i (ptr box ∷ cs)
    next_counted :
        {i : ℕ} {codes : List ℕ} {cs : List CArg}
        → From i (words codes)
        → Passed (suc i) cs
        → Passed i (words codes ∷ uint (length codes) ∷ cs)

  -- A function panics before it has changed anything, or it calls the function `name` of wlroots once, with all its
  -- arguments in their order, as they were before the call, and nothing else changes the state; then it answers, or
  -- panics at a 0 that wlroots handed back.
  pub data Outcome (name : String) : Result Value × S → Type 0 where
    refused : {m : String} {u : S} → u ≡ s → Outcome name (panic m, u)
    called :
        {r : Result Value} {u : S} (t : S) (args : List CArg)
        → Prepared L s t
        → Passed 0 args
        → u ≡ (L.call name args t).1
        → Answer (L.call name args t).0 r
        → Outcome name (r, u)

  pub record CallsOnce (name : String) (m : Action S Value) : Type 0 where
    pub at : Outcome name (m s)

  -- The same of what is left to do once the state is prepared.
  pub record CallsNow (name : String) (m : Action S Value) : Type 0 where
    pub at : (t : S) → Prepared L s t → Outcome name (m t)

pub Passed-all :
    {S : Type 0} {J : Janet} {L : Wlroots S} {argv : List Value} {s : S} {n : ℕ}
    → Arguments argv n
    → Passed J L argv s n []
Passed-all args = no_more args.count

module _ {S : Type 0} {J : Janet} {L : Wlroots S} {argv : List Value} {s : S} {name : String} where
  step-Outcome :
      {A : Type 0} (r : Result A) (k : A → Action S Value) (u : S)
      → u ≡ s
      → IsSafe r
      → ((a : A) → r ≡ ok a → CallsOnce J L argv s name (k a))
      → Outcome J L argv s name (then_do k (r, u))
  step-Outcome _ k u e (safe_ok a) rest = rw e ((rest a refl).at)
  step-Outcome _ k u e (safe_panic m) rest = refused e

  -- What comes behind a step that reads may use what the step read.
  pub CallsOnce-bind :
      {A : Type 0} {m : Action S A} {k : A → Action S Value}
      → Reads m
      → ((a : A) → (m s).0 ≡ ok a → CallsOnce J L argv s name (k a))
      → CallsOnce J L argv s name (m >>= k)
  unfolding ◌>>=◌
  CallsOnce-bind {m = m} {k = k} reads rest = record {
    at = step-Outcome (m s).0 k (m s).1 (reads.at s).0 (reads.at s).1 rest;
  }

  -- With the right number of arguments the rest of the function runs, and with any other none of it does.
  pub CallsOnce-fixarity :
      (n : ℕ) {k : Action S Value}
      → All IsWhole argv
      → (Arguments argv n → CallsOnce J L argv s name k)
      → CallsOnce J L argv s name (fixarity argv n >> k)
  unfolding ◌>>=◌ pure
  CallsOnce-fixarity n whole rest = elim (Bool-cases (argc argv == n)) [
    | inl e ↦ record {
      at = rw e ((rest (record { count = (==_iff (argc argv) n).0 e; whole = whole })).at);
    }
    | inr e ↦ record { at = rw e (refused refl) }
  ]

  -- The call itself, with nothing but the making of an answer behind it.
  pub CallsNow-call :
      (args : List CArg) {k : Returned → Action S Value}
      → Passed J L argv s 0 args
      → ((r : Returned) → Answers r (k r))
      → CallsNow J L argv s name (call L name args >>= k)
  unfolding ◌>>=◌ call
  CallsNow-call args passed answers = record {
    at = λ t prepared.
        let r = L.call name args t in
        let (state, answer) = (answers r.0).at r.1 in called t args prepared passed state answer;
  }

  pub CallsOnce-call :
      (args : List CArg) {k : Returned → Action S Value}
      → Passed J L argv s 0 args
      → ((r : Returned) → Answers r (k r))
      → CallsOnce J L argv s name (call L name args >>= k)
  CallsOnce-call args passed answers = record {
    at = (CallsNow-call args passed answers).at s as_is;
  }

  -- A new box, and then the call.
  pub CallsOnce-new_box :
      {k : ℕ → Action S Value}
      → ((box : ℕ) → box ≡ (L.new_abstract s).0 → box ≢ 0 → CallsNow J L argv s name (k box))
      → CallsOnce J L argv s name (new_box L >>= k)
  unfolding ◌>>=◌ new_box
  CallsOnce-new_box calls = record {
    at =
        (calls (L.new_abstract s).0 refl (L.new_abstract_nonzero s)).at (L.new_abstract s).1
          with_new;
  }
