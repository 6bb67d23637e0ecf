-- ===== src/Wlr/Registration.antt =====
-- wlr.c: the table of the functions that it registers, with the name and the documentation that Janet code sees.
-- The documentation starts with how the function is called: `(wlr/wlr-seat-create wl-display name)`.
pub mod Setup
pub mod Cursors
pub mod Seats
pub mod Outputs
pub mod Surfaces
pub mod Xwayland
pub mod Bindings
use janetland.Prelude.{
  ℕ, zero, suc, ◌+◌, ◌≡◌, ◌≢◌, refl, List, [], ◌∷◌, ◌++◌, map, String, Bool, true, ◌==◌, ==_differ,
  if◌then◌else◌, codes, has_prefix, All,
}
use janetland.Janet.{Janet, Value, panic, argc}
use janetland.Headers.{Headers}
use janetland.Action.{Action}
use janetland.Wlr.Calls.{Wlroots, pure, ◌>>=◌, ◌>>◌, fixarity}
use janetland.Wlr.Calls.Effects.{IsWhole, Arguments, CallsOnce, CallsOnce-fixarity}

-- `JanetReg`
pub record JanetReg (S : Type 0) : Type 0 where
  pub name : String
  pub cfun : List Value → Action S Value
  pub documentation : String

-- The number of parameters in the usage line, each with a space before it.
abbrev pub spaces_in_parentheses : List ℕ → ℕ
spaces_in_parentheses [] = 0
spaces_in_parentheses (c ∷ cs) =
    let rest = spaces_in_parentheses cs in
    if c == b')' then 0 else if c == b' ' then suc rest else rest

abbrev pub usage_arity : String → ℕ
usage_arity documentation = spaces_in_parentheses (codes documentation)

-- The name of the function of wlroots that a function of the bindings is named for.
abbrev pub underscore : ℕ → ℕ
underscore c = if c == b'-' then b'_' else c

abbrev pub arity_message : String
arity_message = "arity mismatch, expected %d, got %d"

-- What a row of the table promises: its documentation is that of its name; with another number of arguments
-- than in the usage line it panics and changes nothing; and with whole arguments it panics and changes nothing too, or
-- calls the function of wlroots of the same name, once and with all its arguments in their order, and answers with a whole
-- value, or panics where that function handed back 0.
pub record IsBinding {S : Type 0} (J : Janet) (L : Wlroots S) (row : JanetReg S) : Type 0 where
  pub function : String
  pub named : codes function ≡ map underscore (codes row.name)
  pub documented : has_prefix (codes "(wlr/" ++ codes row.name) (codes row.documentation) ≡ true
  pub arity :
      (argv : List Value) (s : S)
      → argc argv ≢ usage_arity row.documentation
      → row.cfun argv s ≡ (panic arity_message, s)
  pub calls :
      (argv : List Value) (s : S) → All IsWhole argv → CallsOnce J L argv s function (row.cfun argv)

module _ {S : Type 0} {J : Janet} {L : Wlroots S} {row : JanetReg S} where
  -- A function that tests its number of arguments first.
  pub binding :
      (function : String) (rest : List Value → Action S Value)
      → codes function ≡ map underscore (codes row.name)
      → has_prefix (codes "(wlr/" ++ codes row.name) (codes row.documentation) ≡ true
      → ((argv : List Value)
          → row.cfun argv ≡ (fixarity argv (usage_arity row.documentation) >> rest argv))
      → ((argv : List Value) (s : S)
          → Arguments argv (usage_arity row.documentation)
          → CallsOnce J L argv s function (rest argv))
      → IsBinding J L row
  unfolding ◌>>=◌ pure
  binding function rest named documented shape calls = record {
    function = function;
    named = named;
    documented = documented;
    arity =
        λ argv s h. rw (shape argv, ==_differ (argc argv) (usage_arity row.documentation) h) refl;
    calls = λ argv s whole. rw (shape argv) (CallsOnce-fixarity _ whole (calls argv s));
  }
