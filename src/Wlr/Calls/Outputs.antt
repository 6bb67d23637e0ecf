-- ===== src/Wlr/Calls/Outputs.antt =====
-- wlr.c: the functions for outputs.
use janetland.Prelude.{List, [], ◌∷◌}
use janetland.Janet.{Janet, Value, nil}
use janetland.Headers.{Headers}
use janetland.Action.{Action}
use janetland.Wlr.Calls.{
  Wlroots, ◌>>=◌, ◌>>◌, give, fixarity, boolean_arg, call, flag, object_or_panic, pointer_arg, ptr,
  wrap_boolean,
}

module _ {S : Type 0} (H : Headers) (J : Janet) (L : Wlroots S) where
  unfoldable pub cfun_wlr_output_init_render : List Value → Action S Value
  cfun_wlr_output_init_render argv = do
    fixarity argv 3
    output ← pointer_arg J L argv 0 "wlr/wlr-output"
    allocator ← pointer_arg J L argv 1 "wlr/wlr-allocator"
    renderer ← pointer_arg J L argv 2 "wlr/wlr-renderer"
    ret ← call L "wlr_output_init_render" (ptr output ∷ ptr allocator ∷ ptr renderer ∷ [])
    give (wrap_boolean ret.value)

  unfoldable pub cfun_wlr_output_preferred_mode : List Value → Action S Value
  cfun_wlr_output_preferred_mode argv = do
    fixarity argv 1
    output ← pointer_arg J L argv 0 "wlr/wlr-output"
    output_mode ← call L "wlr_output_preferred_mode" (ptr output ∷ [])
    object_or_panic output_mode.value "wlr/wlr-output-mode"
        "failed to get preferred mode for output"

  unfoldable pub cfun_wlr_output_set_mode : List Value → Action S Value
  cfun_wlr_output_set_mode argv = do
    fixarity argv 2
    output ← pointer_arg J L argv 0 "wlr/wlr-output"
    output_mode ← pointer_arg J L argv 1 "wlr/wlr-output-mode"
    done ← call L "wlr_output_set_mode" (ptr output ∷ ptr output_mode ∷ [])
    give nil

  unfoldable pub cfun_wlr_output_enable : List Value → Action S Value
  cfun_wlr_output_enable argv = do
    fixarity argv 2
    output ← pointer_arg J L argv 0 "wlr/wlr-output"
    enabled ← boolean_arg J argv 1
    done ← call L "wlr_output_enable" (ptr output ∷ flag enabled ∷ [])
    give nil

  unfoldable pub cfun_wlr_output_commit : List Value → Action S Value
  cfun_wlr_output_commit argv = do
    fixarity argv 1
    output ← pointer_arg J L argv 0 "wlr/wlr-output"
    ret ← call L "wlr_output_commit" (ptr output ∷ [])
    give (wrap_boolean ret.value)

  unfoldable pub cfun_wlr_output_destroy : List Value → Action S Value
  cfun_wlr_output_destroy argv = do
    fixarity argv 1
    output ← pointer_arg J L argv 0 "wlr/wlr-output"
    done ← call L "wlr_output_destroy" (ptr output ∷ [])
    give nil
