-- ===== src/AbstractTypes/Names.antt =====
-- The names of the abstract types: the functions of jl.h tell the objects of the modules wl and wlr apart by them.
use janetland.Prelude.{
  ◌≢◌, ◌||◌, ◌⊎◌, eq_refl, ℕ, ◌≡◌, refl, Bool, true, false, String, str_eq, eq_iff, arith, inl, inr,
  List, [], ◌∷◌, ◌++◌, map, All, Bool-cases, if◌then◌else◌,
}
use janetland.Janet.{
  Janet, Value, abstract, Content, cell, Result, ok, ◌>>=◌ as bind, address, IsPanic, bind-IsPanic,
}
use janetland.Headers.{Headers}
use janetland.Jl.{pointer_to_abs_obj, get_abs_obj_pointer, built_by_us, value_to_data_pointer}
use janetland.Jl.Pointers.{get_abs_obj_pointer_same}
use janetland.Wl.Roots.{address_lem}
use janetland.Wlr.Members.{has_name}
use janetland.AbstractTypes.Wl.{wl_abstract_types}
use janetland.AbstractTypes.Outputs.{outputs_abstract_types}
use janetland.AbstractTypes.Shells.{shells_abstract_types}
use janetland.AbstractTypes.Seats.{seats_abstract_types}
use janetland.AbstractTypes.Devices.{devices_abstract_types}
use janetland.AbstractTypes.Events.{events_abstract_types}
use janetland.AbstractTypes.Xwayland.{xwayland_abstract_types}

-- No name occurs twice.
abbrev pub all_differ : List String → Bool
all_differ [] = true
all_differ (n ∷ names) = if has_name n names then false else all_differ names

-- jl.h takes objects of each of the types as its own.
unfoldable all_ours : List String → Bool
unfolding built_by_us
all_ours [] = true
all_ours (n ∷ names) = if built_by_us n then all_ours names else false

abbrev pub Pairwise {κ} : (String → String → Type κ) → List String → Type κ
Pairwise R [] = Unit
Pairwise R (n ∷ names) = All (R n) names × Pairwise R names

str_eq_sym : (a b : String) → str_eq a b ≡ false → str_eq b a ≡ false
str_eq_sym a b h = elim (Bool-cases (str_eq b a)) [
  | inl e ↦ ground (arith, eq_iff a b, eq_iff b a)
  | inr e ↦ e
]

-- The types whose objects are a struct of their own; the objects of the others hold a pointer to one of C.
abbrev pub is_block_type : String → Bool
is_block_type at = str_eq at "wlr/box" || str_eq at "wl/event-source" || str_eq at "wl/listener"

module _ (J : Janet) (first_word : ℕ → ℕ) where
  -- `janet_getabstract` of an object that is a struct of its own.
  abbrev pub get_block : Value → String → Result ℕ
  get_block v at = bind (J.getabstract at v) address

  -- The object that wraps the pointer is read back, and its data pointer is that of the C object.
  abbrev pub WrapperReadBack : ℕ → String → Type 0
  WrapperReadBack ptr at =
      (get_abs_obj_pointer J first_word (pointer_to_abs_obj ptr at) at ≡ ok ptr)
      × (value_to_data_pointer first_word (pointer_to_abs_obj ptr at) ≡ ok ptr)

  abbrev pub ReadBack : ℕ → String → Type 0
  ReadBack ptr at =
      ((is_block_type at ≡ true) × (get_block (abstract at (cell ptr)) at ≡ ok ptr))
      ⊎ ((is_block_type at ≡ false) × WrapperReadBack ptr at)

  wrapper_read_back : (ptr : ℕ) (at : String) → built_by_us at ≡ true → WrapperReadBack ptr at
  unfolding pointer_to_abs_obj value_to_data_pointer get_abs_obj_pointer
  wrapper_read_back ptr at h = (get_abs_obj_pointer_same J first_word ptr at, rw h refl)

  block_read_back :
      (ptr : ℕ) (at : String) → ptr ≢ 0 → get_block (abstract at (cell ptr)) at ≡ ok ptr
  block_read_back ptr at nonzero =
      rw
        (
          (J.getabstract-IsAccessor at).accepts (abstract at (cell ptr)) (cell ptr)
              (rw (eq_refl at) refl),
          address_lem ptr nonzero,
        )
        refl

  read_back : (ptr : ℕ) (at : String) → ptr ≢ 0 → built_by_us at ≡ true → ReadBack ptr at
  read_back ptr at nonzero h = elim (Bool-cases (is_block_type at)) [
    | inl e ↦ inl (e, block_read_back ptr at nonzero)
    | inr e ↦ inr (e, wrapper_read_back ptr at h)
  ]

  -- Where an object of the type `b` is wanted, one of the type `a` is refused, whatever its block holds.
  abbrev pub Refused : String → String → Type 0
  Refused a b =
      (c : Content)
      → IsPanic (get_abs_obj_pointer J first_word (abstract a c) b)
        × IsPanic (get_block (abstract a c) b)

  abbrev pub KeptApart : String → String → Type 0
  KeptApart a b = Refused a b × Refused b a

  refused : (a b : String) → str_eq a b ≡ false → Refused a b
  unfolding get_abs_obj_pointer
  refused a b h c =
      let no_object = (J.getabstract-IsAccessor b).rejects (abstract a c) (rw h refl) in
      (bind-IsPanic _ _ no_object, bind-IsPanic _ address no_object)

  kept_apart : (a b : String) → str_eq a b ≡ false → KeptApart a b
  kept_apart a b h = (refused a b h, refused b a (str_eq_sym a b h))

  has_name-KeptApart :
      (n : String) (names : List String) → has_name n names ≡ false → All (KeptApart n) names
  has_name-KeptApart n [] h = tt
  has_name-KeptApart n (m ∷ names) h =
      (kept_apart n m (ground arith), has_name-KeptApart n names (ground arith))

  all_differ-KeptApart : (names : List String) → all_differ names ≡ true → Pairwise KeptApart names
  all_differ-KeptApart [] h = tt
  all_differ-KeptApart (n ∷ names) h =
      (has_name-KeptApart n names (ground arith), all_differ-KeptApart names (ground arith))

module _ (J : Janet) (H : Headers) (first_word : ℕ → ℕ) where
  abbrev pub type_names : List String
  type_names =
      map (λ type. type.name)
        (wl_abstract_types J H first_word
          ++ outputs_abstract_types J H first_word
          ++ shells_abstract_types J H first_word
          ++ seats_abstract_types J H first_word
          ++ devices_abstract_types J H first_word
          ++ events_abstract_types J H first_word
          ++ xwayland_abstract_types J H first_word)

  ours-ReadBack :
      (ptr : ℕ) (names : List String)
      → ptr ≢ 0
      → all_ours names ≡ true
      → All (ReadBack J first_word ptr) names
  unfolding all_ours
  ours-ReadBack ptr [] nonzero h = tt
  ours-ReadBack ptr (n ∷ names) nonzero h = (
    read_back J first_word ptr n nonzero (ground arith),
    ours-ReadBack ptr names nonzero (ground arith),
  )

  -- The 58 abstract types of the modules wl and wlr. An object of one of them is read back by the functions that want
  -- its type: as the address of its struct where the object is a struct of its own, as it is for three types, and as
  -- the pointer that it wraps for the others, which is also what `jl_value_to_data_pointer` gives. And of any two of
  -- the types, a function that wants an object of the one panics at an object of the other, whatever that object
  -- holds.
  pub types-KeptApart :
      (ptr : ℕ)
      → ptr ≢ 0
      → All (ReadBack J first_word ptr) type_names × Pairwise (KeptApart J first_word) type_names
  unfolding all_ours
  types-KeptApart ptr nonzero =
      (ours-ReadBack ptr type_names nonzero refl, all_differ-KeptApart J first_word type_names refl)
