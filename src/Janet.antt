-- ===== src/Janet.antt =====
-- The part of the Janet C API that the bindings call. Janet is not part of the repository: its
-- values are the tagged union that `janet_type` tells apart, and the functions that read or make
-- them are fields of the record `Janet`, with what the Janet manual says of them as laws.
use janetland.Prelude.{
  ℕ, zero, suc, ◌<◌, ◌≡◌, refl, Bool, true, false, Option, none, some, List, [], ◌∷◌, String, ◌==◌,
  str_eq, if◌then◌else◌, inl, inr, Option-cases,
}
use janetland.Prelude.Int.{ℤ, IsInt32}

-- What lies behind an abstract value: `wraps p` is a block whose first word is the pointer `p`
-- (all that `jl_pointer_to_abs_obj` writes), `cell a` is a struct of its own at the address `a`.
pub data Content : Type 0 where
  wraps : ℕ → Content
  cell : ℕ → Content

-- Addresses, functions and the bits of a number are native numbers; 0 is NULL.
mutual
  pub data Value : Type 0 where
    nil : Value
    boolean : Bool → Value
    number : ℕ → Value
    string : String → Value
    keyword : String → Value
    symbol : String → Value
    buffer : List ℕ → Value
    tuple : Items → Value
    array : Items → Value
    table : ℕ → Value
    function : ℕ → Value
    cfunction : ℕ → Value
    pointer : ℕ → Value
    abstract : String → Content → Value

  pub data Items : Type 0 where
    end : Items
    item : Value → Items → Items

abbrev pub to_list : Items → List Value
to_list end = []
to_list (item v vs) = v ∷ to_list vs

abbrev pub from_list : List Value → Items
from_list [] = end
from_list (v ∷ vs) = item v (from_list vs)

-- How a C function ends: with a value, by a Janet panic (a long jump, here with the format of
-- its message), or in undefined behaviour, such as a read past the end of an array.
pub data Result {ℓ} (A : Type ℓ) : Type ℓ where
  ok : A → Result A
  panic : String → Result A
  fault : Result A

module _ {ℓ κ} {A : Type ℓ} {B : Type κ} where
  infixl 5 ◌>>=◌
  abbrev pub ◌>>=◌ : Result A → (A → Result B) → Result B
  ok a >>= rest = rest a
  panic message >>= rest = panic message
  fault >>= rest = fault

infixl 5 ◌>>◌
abbrev pub ◌>>◌ {κ} : {B : Type κ} → Result (Unit {0}) → Result B → Result B
step >> rest = step >>= λ done. rest

abbrev pub guard : Bool → String → Result (Unit {0})
guard true m = ok tt
guard false m = panic m

abbrev pub IsPanic {ℓ} : {A : Type ℓ} → Result A → Type 0
IsPanic (ok a) = ⊥
IsPanic (panic m) = Unit
IsPanic fault = ⊥

abbrev pub IsFault {ℓ} : {A : Type ℓ} → Result A → Type 0
IsFault (ok a) = ⊥
IsFault (panic m) = ⊥
IsFault fault = Unit

-- `argv[n]`: the array has as many elements as there are arguments.
abbrev pub arg : List Value → ℕ → Result Value
arg [] n = fault
arg (v ∷ vs) zero = ok v
arg (v ∷ vs) (suc n) = arg vs n

abbrev pub argc : List Value → ℕ
argc [] = 0
argc (v ∷ vs) = suc (argc vs)

-- `janet_fixarity(argc, n)`.
abbrev pub fixarity : List Value → ℕ → Result (Unit {0})
fixarity argv n = guard (argc argv == n) "arity mismatch, expected %d, got %d"

-- The payload of a value whose tag is the wanted one.
abbrev pub as_keyword : Value → Option String
as_keyword (keyword s) = some s
as_keyword _ = none

abbrev pub as_symbol : Value → Option String
as_symbol (symbol s) = some s
as_symbol _ = none

abbrev pub as_string : Value → Option String
as_string (string s) = some s
as_string _ = none

abbrev pub as_number : Value → Option ℕ
as_number (number n) = some n
as_number _ = none

abbrev pub as_buffer : Value → Option (List ℕ)
as_buffer (buffer bytes) = some bytes
as_buffer _ = none

abbrev pub as_pointer : Value → Option ℕ
as_pointer (pointer p) = some p
as_pointer _ = none

-- No function lies at NULL.
abbrev pub as_function : Value → Option ℕ
as_function (function (suc f)) = some (suc f)
as_function _ = none

abbrev pub as_boolean : Value → Option Bool
as_boolean (boolean b) = some b
as_boolean _ = none

abbrev pub as_indexed : Value → Option (List Value)
as_indexed (tuple vs) = some (to_list vs)
as_indexed (array vs) = some (to_list vs)
as_indexed _ = none

abbrev pub as_abstract : String → Value → Option Content
as_abstract at (abstract name c) = if str_eq name at then some c else none
as_abstract at _ = none

-- The address of a struct; no block lies at NULL, and a block that wraps a pointer holds no struct.
abbrev pub address : Content → Result ℕ
address (cell (suc p)) = ok (suc p)
address (cell zero) = fault
address (wraps p) = fault

-- `janet_getX(argv, n)` hands out the payload of an X and panics at any other value.
pub record IsAccessor {A : Type 0} (view : Value → Option A) (get : Value → Result A) : Type 0 where
  pub accepts : (v : Value) (a : A) → view v ≡ some a → get v ≡ ok a
  pub rejects : (v : Value) → view v ≡ none → IsPanic (get v)

-- The functions of Janet that the bindings call, with their documented behaviour.
pub record Janet : Type 0 where
  -- `janet_wrap_integer`, and `janet_checkint` with `janet_unwrap_integer`
  pub wrap_integer : ℤ → Value
  pub wrap_integer_number : (i : ℤ) → (bits : ℕ) × (wrap_integer i ≡ number bits)
  pub checkint : Value → Option ℤ
  pub checkint-wrap_integer : (i : ℤ) → IsInt32 i → checkint (wrap_integer i) ≡ some i
  pub checkint_IsInt32 : (v : Value) (i : ℤ) → checkint v ≡ some i → IsInt32 i
  pub getinteger : Value → Result ℤ
  pub getinteger-IsAccessor : IsAccessor checkint getinteger
  -- `janet_wrap_u64` and `janet_getuinteger64`
  pub wrap_u64 : ℕ → Value
  pub getuinteger64 : Value → Result ℕ
  pub getuinteger64-wrap_u64 :
      (n : ℕ) → n < 0x1_0000_0000_0000_0000 → getuinteger64 (wrap_u64 n) ≡ ok n
  -- the numbers, texts and `core/u64` objects that stand for an unsigned 64-bit integer;
  -- `janet_unwrap_u64` reads the same
  pub checkuint64 : Value → Option ℕ
  pub getuinteger64-IsAccessor : IsAccessor checkuint64 getuinteger64
  -- a double is the number that its bits spell
  pub getnumber : Value → Result ℕ
  pub getnumber-IsAccessor : IsAccessor as_number getnumber
  pub getstring : Value → Result String
  pub getstring-IsAccessor : IsAccessor as_string getstring
  pub getbuffer : Value → Result (List ℕ)
  pub getbuffer-IsAccessor : IsAccessor as_buffer getbuffer
  pub getindexed : Value → Result (List Value)
  pub getindexed-IsAccessor : IsAccessor as_indexed getindexed
  pub getkeyword : Value → Result String
  pub getkeyword-IsAccessor : IsAccessor as_keyword getkeyword
  pub getsymbol : Value → Result String
  pub getsymbol-IsAccessor : IsAccessor as_symbol getsymbol
  pub getcstring : Value → Result String
  -- a string with a zero byte inside is refused too
  pub getcstring-rejects : (v : Value) → as_string v ≡ none → IsPanic (getcstring v)
  pub checkcstring : Value → Option String
  pub getcstring-IsAccessor : IsAccessor checkcstring getcstring
  pub getpointer : Value → Result ℕ
  pub getpointer-IsAccessor : IsAccessor as_pointer getpointer
  pub getfunction : Value → Result ℕ
  pub getfunction-IsAccessor : IsAccessor as_function getfunction
  pub getboolean : Value → Result Bool
  pub getboolean-IsAccessor : IsAccessor as_boolean getboolean
  pub getabstract : String → Value → Result Content
  pub getabstract-IsAccessor : (at : String) → IsAccessor (as_abstract at) (getabstract at)
  -- `janet_get_abstract_type`: is a type of this name registered?
  pub registered : String → Bool

pub bind-IsPanic {ℓ κ} :
    {A : Type ℓ} {B : Type κ} (m : Result A) (f : A → Result B) → IsPanic m → IsPanic (m >>= f)
bind-IsPanic (ok a) f h = absurd h
bind-IsPanic (panic e) f h = h
bind-IsPanic fault f h = absurd h

-- Where two steps return, the first returned a value with which the second returned.
module _ {ℓ κ} {A : Type ℓ} {B : Type κ} {b : B} where
  pub >>=-eq-ok :
      (r : Result A) (rest : A → Result B)
      → (r >>= rest) ≡ ok b
      → (x : A) × (r ≡ ok x) × (rest x ≡ ok b)
  >>=-eq-ok (panic message) rest e = cc
  >>=-eq-ok fault rest e = cc
  >>=-eq-ok (ok x) rest e = (x, refl, e)

-- The call ends in a value or a panic, and not in undefined behaviour.
pub data IsSafe {ℓ} {A : Type ℓ} : Result A → Type ℓ where
  safe_ok : (a : A) → IsSafe (ok a)
  safe_panic : (m : String) → IsSafe (panic m)

module _ {ℓ κ} {A : Type ℓ} {B : Type κ} where
  pub bind-IsSafe :
      {m : Result A} {f : A → Result B} → IsSafe m → ((a : A) → IsSafe (f a)) → IsSafe (m >>= f)
  bind-IsSafe (safe_ok a) h = h a
  bind-IsSafe (safe_panic e) h = safe_panic e

pub if-IsSafe {ℓ} :
    {A : Type ℓ} (b : Bool) {x y : Result A} → IsSafe x → IsSafe y → IsSafe (if b then x else y)
if-IsSafe true h k = h
if-IsSafe false h k = k

pub IsSafe-of {ℓ} : {A : Type ℓ} (r : Result A) → ¬ IsFault r → IsSafe r
IsSafe-of (ok a) h = safe_ok a
IsSafe-of (panic m) h = safe_panic m
IsSafe-of fault h = absurd (h tt)

pub bind-IsFault {ℓ κ} :
    {A : Type ℓ} {B : Type κ} (m : Result A) (f : A → Result B) → IsFault m → IsFault (m >>= f)
bind-IsFault (ok a) f h = absurd h
bind-IsFault (panic e) f h = absurd h
bind-IsFault fault f h = tt

pub IsSafe-panic {ℓ} : {A : Type ℓ} {r : Result A} → IsPanic r → IsSafe r
IsSafe-panic {r = ok a} h = absurd h
IsSafe-panic {r = panic m} h = safe_panic m
IsSafe-panic {r = fault} h = absurd h

pub IsSafe-accessor :
    {A : Type 0} {view : Value → Option A} {get : Value → Result A}
    → IsAccessor view get
    → (v : Value) → IsSafe (get v)
IsSafe-accessor {view = view} {get = get} a v = elim (Option-cases (view v)) [
  | inl h ↦ IsSafe-panic (a.rejects v h)
  | inr (b, h) ↦ rw (a.accepts v b h) (safe_ok b)
]
