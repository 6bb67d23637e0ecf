-- ===== src/Action.antt =====
-- C functions that change state: a `Result`, and the state it is reached with. A panic keeps what was
-- changed before it.
use janetland.Prelude.{String, ◌≡◌, refl, ◌⊎◌, inl, inr}
use janetland.Janet.{Result, ok, panic, fault}

abbrev pub Action {ℓ κ} : Type ℓ → Type κ → Type (ℓ ⊔ κ)
Action S A = S → Result A × S

module _ {ℓ κ μ} {S : Type ℓ} {A : Type κ} {B : Type μ} where
  abbrev pub then_do : (A → Action S B) → Result A × S → Result B × S
  then_do f (ok a, s) = f a s
  then_do f (panic m, s) = (panic m, s)
  then_do f (fault, s) = (fault, s)

  infixl 5 ◌>>=◌
  abbrev pub ◌>>=◌ : Action S A → (A → Action S B) → Action S B
  (m >>= f) s = then_do f (m s)

infixl 5 ◌>>◌
abbrev pub ◌>>◌ {ℓ κ} : {S : Type ℓ} {B : Type κ} → Action S (Unit {0}) → Action S B → Action S B
m >> k = m >>= λ _. k

module _ {ℓ κ} {S : Type ℓ} {A : Type κ} where
  -- A call that reads and changes no state.
  abbrev pub lift : Result A → Action S A
  lift r s = (r, s)

  abbrev pub give : A → Action S A
  give a s = (ok a, s)

  abbrev pub reading : (S → A) → Action S A
  reading f s = (ok (f s), s)

abbrev pub change {ℓ} : {S : Type ℓ} → (S → S) → Action S (Unit {0})
change f s = (ok tt, f s)

-- What holds at the end of an action, where it returns and where it panics.
pub data Ends {ℓ κ μ} {S : Type ℓ} {A : Type κ} (P : A → S → Type μ) (Q : S → Type μ)
    : Result A × S → Type (ℓ ⊔ κ ⊔ μ) where
  ends_ok : {a : A} {s : S} → P a s → Ends P Q (ok a, s)
  ends_panic : {m : String} {s : S} → Q s → Ends P Q (panic m, s)
  ends_fault : {s : S} → Ends P Q (fault, s)

pub Result-cases {ℓ} :
    {A : Type ℓ} (r : Result A)
    → ((a : A) × (r ≡ ok a)) ⊎ ((m : String) × (r ≡ panic m)) ⊎ (r ≡ fault)
Result-cases (ok a) = inl (a, refl)
Result-cases (panic m) = inr (inl (m, refl))
Result-cases fault = inr (inr refl)

module _ {ℓ κ μ ν} {S : Type ℓ} {A : Type κ} {B : Type μ} {P : B → S → Type ν}
    {Q : S → Type ν} where
  -- A step that changes no state: a panic leaves the state that the action had reached.
  pub lift-Ends :
      (r : Result A) (f : A → Action S B) (s : S)
      → Q s
      → ((a : A) → r ≡ ok a → Ends P Q (f a s))
      → Ends P Q ((lift r >>= f) s)
  lift-Ends (ok a) f s q h = h a refl
  lift-Ends (panic m) f s q h = ends_panic q
  lift-Ends fault f s q h = ends_fault

module _ {ℓ κ μ ν ξ} {S : Type ℓ} {A : Type κ} {B : Type μ} {P : A → S → Type ν} {Q : S → Type ν}
    {R : B → S → Type ξ} {T : S → Type ξ} where
  -- A step of several: what it ends in is what the rest begins with.
  pub bind-Ends :
      (m : Result A × S) (f : A → Action S B)
      → Ends P Q m
      → ((s : S) → Q s → T s)
      → ((a : A) (s : S) → P a s → Ends R T (f a s))
      → Ends R T (then_do f m)
  bind-Ends _ f (ends_ok {a = a} {s = s} p) q h = h a s p
  bind-Ends _ f (ends_panic {s = s} p) q h = ends_panic (q s p)
  bind-Ends _ f ends_fault q h = ends_fault

module _ {ℓ κ μ ν} {S : Type ℓ} {A : Type κ} {B : Type μ} where
  -- A step that changes no state, before a rest that keeps `P`: however it ends, `P` is kept.
  pub lift-keeps :
      (P : S → Type ν) (r : Result A) (f : A → Action S B) (s : S)
      → P s
      → ((a : A) → P (f a s).1)
      → P ((lift r >>= f) s).1
  lift-keeps P (ok a) f s h k = k a
  lift-keeps P (panic m) f s h k = h
  lift-keeps P fault f s h k = h

module _ {ℓ κ μ} {S : Type ℓ} {A : Type κ} {P P' : A → S → Type μ} {Q Q' : S → Type μ} where
  -- What ends with one thing ends with what follows from it.
  pub map-Ends :
      {r : Result A × S}
      → Ends P Q r
      → ((a : A) (s : S) → P a s → P' a s)
      → ((s : S) → Q s → Q' s)
      → Ends P' Q' r
  map-Ends (ends_ok {a = a} {s = s} p) f g = ends_ok (f a s p)
  map-Ends (ends_panic {s = s} q) f g = ends_panic (g s q)
  map-Ends ends_fault f g = ends_fault

module _ {ℓ κ μ} {S : Type ℓ} {A : Type κ} (P : A → S → Type μ) (Q : S → Type μ) where
  -- The same by recursion.
  abbrev pub Post : Result A × S → Type μ
  Post (ok a, s) = P a s
  Post (panic m, s) = Q s
  Post (fault, s) = Unit

  pub Post-Ends : {r : Result A × S} → Ends P Q r → Post r
  Post-Ends (ends_ok p) = p
  Post-Ends (ends_panic q) = q
  Post-Ends ends_fault = tt
