-- ===== src/Xkb/Symbols.antt =====
-- The key symbols that `xkb-state-key-get-syms` hands to Janet.
use janetland.Prelude.{ℕ, ◌%◌, ◌^◌, ◌≡◌, refl, ◌<◌, List, [], ◌∷◌, All, arith}
use janetland.Janet.{Janet, Value, array, abstract, wraps, from_list, to_list, Result, ok, ◌>>=◌}
use janetland.Headers.{Headers}
use janetland.Jl.{get_abs_obj_pointer}
use janetland.Xkb.{Xkbcommon, wrap_syms, cfun_xkb_state_key_get_syms}

-- The array read back with `janet_getuinteger64`.
abbrev pub read_syms : Janet → List Value → Result (List ℕ)
read_syms J [] = ok []
read_syms J (v ∷ vs) = J.getuinteger64 v >>= λ sym. read_syms J vs >>= λ syms. ok (sym ∷ syms)

module _ {S : Type 0} (J : Janet) (H : Headers) (X : Xkbcommon S) where
  read_syms-wrap_syms :
      (syms : List ℕ)
      → All (λ sym. sym < 2 ^ 32) syms
      → read_syms J (to_list (from_list (wrap_syms J H X syms))) ≡ ok syms
  unfolding wrap_syms
  read_syms-wrap_syms [] hs = refl
  read_syms-wrap_syms (sym ∷ syms) (h, hs) =
      rw (J.getuinteger64-wrap_u64 sym (omega arith), read_syms-wrap_syms syms hs) refl

  -- For a state and a key code, as a 64-bit number whose upper half the cast drops, the array that is
  -- returned holds the symbols of the key, in order, as numbers that read back exactly, where the symbols
  -- are words of 32 bits.
  pub read_syms-key_get_syms :
      (s : S) (state code : ℕ)
      → code < 2 ^ 64
      → All (λ sym. sym < 2 ^ 32) (X.state_key_get_syms s state (code % 2 ^ 32))
      → (vs : List Value) × (cfun_xkb_state_key_get_syms J H X
            (abstract "xkb/xkb-state" (wraps state) ∷ J.wrap_u64 code ∷ [])
            s
          ≡ (ok (array (from_list vs)), s))
        × (read_syms J (to_list (from_list vs)) ≡ ok (X.state_key_get_syms s state (code % 2 ^ 32)))
  unfolding cfun_xkb_state_key_get_syms get_abs_obj_pointer
  read_syms-key_get_syms s state code fits all_fit =
      let object =
        (J.getabstract-IsAccessor "xkb/xkb-state").accepts (abstract "xkb/xkb-state" (wraps state))
          (wraps state) refl in
      (
        _,
        rw (object, J.getuinteger64-wrap_u64 code (omega arith)) refl,
        read_syms-wrap_syms _ all_fit,
      )
