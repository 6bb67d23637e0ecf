-- ===== src/Jl/Pointers.antt =====
-- The round trip of a C pointer through an abstract object, and which objects jl.h takes as its own.
use janetland.Prelude.{
  ℕ, ◌≡◌, refl, Bool, true, false, String, str_eq, eq_refl, arith, ◌⊎◌, inl, inr, List, [], ◌∷◌,
  ◌++◌, ◌↔◌, codes, has_prefix, Bool-cases,
}
use janetland.Janet.{Janet, abstract, Content, wraps, ok, IsPanic, bind-IsPanic}
use janetland.Jl.{word, pointer_to_abs_obj, get_abs_obj_pointer, built_by_us, value_to_data_pointer}

module _ (J : Janet) (first_word : ℕ → ℕ) where
  pub get_abs_obj_pointer_same :
      (ptr : ℕ) (at : String)
      → get_abs_obj_pointer J first_word (pointer_to_abs_obj ptr at) at ≡ ok ptr
  unfolding get_abs_obj_pointer pointer_to_abs_obj
  get_abs_obj_pointer_same ptr at = cc (
      (J.getabstract-IsAccessor at).accepts (abstract at (wraps ptr)) (wraps ptr) (rw (eq_refl at)))

  -- A pointer wrapped under a type is what a function that wants that type reads, and a function that
  -- wants a type of another name panics.
  pub get_abs_obj_pointer-pointer_to_abs_obj :
      (ptr : ℕ) (at other : String)
      → str_eq at other ≡ false
      → (get_abs_obj_pointer J first_word (pointer_to_abs_obj ptr at) at ≡ ok ptr)
        × IsPanic (get_abs_obj_pointer J first_word (pointer_to_abs_obj ptr at) other)
  unfolding get_abs_obj_pointer pointer_to_abs_obj
  get_abs_obj_pointer-pointer_to_abs_obj ptr at other differ = (
    get_abs_obj_pointer_same ptr at,
    bind-IsPanic _ _
        ((J.getabstract-IsAccessor other).rejects (abstract at (wraps ptr)) (rw differ)),
  )

has_prefix-append : (cs rest : List ℕ) → has_prefix cs (cs ++ rest) ≡ true
has_prefix-append [] rest = refl
has_prefix-append (c ∷ cs) rest = ground (arith, has_prefix-append cs rest)

append_of-has_prefix :
    (cs ds : List ℕ) → has_prefix cs ds ≡ true → (rest : List ℕ) × (ds ≡ cs ++ rest)
append_of-has_prefix [] ds h = (ds, refl)
append_of-has_prefix (c ∷ cs) [] h = cc
append_of-has_prefix (c ∷ cs) (d ∷ ds) h =
    let (rest, e) = append_of-has_prefix cs ds (ground arith) in (rest, ground arith)

Bool-contradiction : (b : Bool) → b ≡ true → b ≡ false → ⊥
Bool-contradiction b h k = cc

-- The name begins with the prefix.
abbrev pub StartsWith : String → String → Type 0
StartsWith prefix name = (rest : List ℕ) × (codes name ≡ codes prefix ++ rest)

-- The name of a type of one of the modules wl, wlr, xkb and util.
abbrev pub OurName : String → Type 0
OurName name =
    StartsWith "wl/" name
    ⊎ StartsWith "wlr/" name
    ⊎ StartsWith "xkb/" name
    ⊎ StartsWith "util/" name

starts :
    (prefix name : String) → StartsWith prefix name → has_prefix (codes prefix) (codes name) ≡ true
starts prefix name (rest, e) = rw e (has_prefix-append (codes prefix) rest)

built_by_us-OurName : (name : String) → (built_by_us name ≡ true) ↔ OurName name
unfolding built_by_us
built_by_us-OurName name = (ours, test)
  where
    ours : built_by_us name ≡ true → OurName name
    ours h = elim (Bool-cases (has_prefix (codes "wl/") (codes name))) [
      | inl e ↦ inl (append_of-has_prefix (codes "wl/") (codes name) e)
      | inr no_wl ↦ inr (elim (Bool-cases (has_prefix (codes "wlr/") (codes name))) [
        | inl e ↦ inl (append_of-has_prefix (codes "wlr/") (codes name) e)
        | inr no_wlr ↦ inr (elim (Bool-cases (has_prefix (codes "xkb/") (codes name))) [
          | inl e ↦ inl (append_of-has_prefix (codes "xkb/") (codes name) e)
          | inr no_xkb ↦ inr (append_of-has_prefix (codes "util/") (codes name) (ground arith))
        ])
      ])
    ]

    test : OurName name → built_by_us name ≡ true
    test (inl s) = rw (starts "wl/" name s)
    test (inr (inl s)) = ground (arith, starts "wlr/" name s)
    test (inr (inr (inl s))) = ground (arith, starts "xkb/" name s)
    test (inr (inr (inr s))) = ground (arith, starts "util/" name s)

-- The pointer behind an abstract object is its first word exactly when the name of its type begins
-- with `wl/`, `wlr/`, `xkb/` or `util/`; exactly at the other names it is a panic.
pub value_to_data_pointer-abstract :
    (first_word : ℕ → ℕ) (at : String) (c : Content)
    → ((value_to_data_pointer first_word (abstract at c) ≡ ok (word first_word c)) ↔ OurName at)
      × (IsPanic (value_to_data_pointer first_word (abstract at c)) ↔ (¬ OurName at))
unfolding value_to_data_pointer
value_to_data_pointer-abstract first_word at c = elim (Bool-cases (built_by_us at)) [
  | inl e ↦
      let ours = (built_by_us-OurName at).0 e in
      rw e ((λ h. ours, λ o. refl), (λ bad. absurd bad, λ foreign. foreign ours))
  | inr e ↦
      let foreign : ¬ OurName at =
        λ o. Bool-contradiction (built_by_us at) ((built_by_us-OurName at).1 o) e in
      rw e ((λ h. cc, λ o. absurd (foreign o)), (λ bad. foreign, λ f. tt))
]

-- The objects of the module xcb are left out of the test, though xcb.c makes them with the same
-- functions: whatever type of that module it has and whatever it holds, such an object is a panic.
pub value_to_data_pointer-xcb :
    (first_word : ℕ → ℕ) (at : String) (c : Content)
    → StartsWith "xcb/" at
    → IsPanic (value_to_data_pointer first_word (abstract at c))
unfolding value_to_data_pointer
value_to_data_pointer-xcb first_word at c (rest, e) = rw e tt
