-- ===== src/AbstractTypes.antt =====
-- wl_abs_types.h and wlr_abs_types.h: the abstract types of the modules wl and wlr, each with its methods. All
-- their `marshal` and `unmarshal` are NULL; `Object` is the record that the methods of a type read
-- in place of the C struct, or the address of the struct where no method reads it. A `get` or `put` method gets the
-- memory as a function from addresses to such records, and the pointer that the object wraps, or the address of its
-- block where that is the struct itself.
pub mod Wl
pub mod Outputs
pub mod Shells
pub mod Seats
pub mod Devices
pub mod Events
pub mod Xwayland
pub mod Safe
pub mod Getters
pub mod Names
use janetland.Prelude.{ℕ, Option, List, String, ◌==◌, if◌then◌else◌}
use janetland.Prelude.Int.{ℤ}
use janetland.Janet.{Janet, Value, Content, Result, fault, ◌>>=◌ as bind}
use janetland.Wlr.{Getter, keyword_of}

-- `JanetAbstractType`; `none` is a NULL method.
pub record AbstractType : Type 1 where
  pub name : String
  pub Object : Type 0
  pub gc : Option (Object → ℤ)
  pub gcmark : Option (Object → List Value)
  pub get : Option ((ℕ → Object) → ℕ → Value → Getter)
  pub put : Option ((ℕ → Object) → ℕ → Value → Value → Result Object)
  pub tostring : Option (Content → List ℕ → List ℕ)
  pub compare : Option (ℕ → ℕ → ℤ)

module _ {O : Type 0} where
  -- A method whose object wraps a pointer, `T *t = *(T **)p;`. The key is tested before the struct is used; with NULL
  -- what follows is undefined, and taken so for every keyword, those that the method does not know included.
  abbrev pub struct_get : (O → Value → Getter) → (ℕ → O) → ℕ → Value → Getter
  struct_get get memory p key =
      if p == 0 then bind (keyword_of key) (λ kw. fault) else get (memory p) key

  abbrev pub struct_put : (O → Value → Value → Result O) → (ℕ → O) → ℕ → Value → Value → Result O
  struct_put put memory p key value =
      if p == 0 then bind (keyword_of key) (λ kw. fault) else put (memory p) key value

  -- A method whose object is the struct itself.
  abbrev pub block_get : (O → Value → Getter) → (ℕ → O) → ℕ → Value → Getter
  block_get get memory block key = get (memory block) key

  abbrev pub block_put : (O → Value → Value → Result O) → (ℕ → O) → ℕ → Value → Value → Result O
  block_put put memory block key value = put (memory block) key value
