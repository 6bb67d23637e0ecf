-- ===== src/Examples/Calls.antt =====
-- The functions of wlr.c at concrete values: a wlroots that keeps the names of the functions that were called, and a
-- log whose callback fails.
use janetland.Prelude.{
  length, ℕ, ◌≡◌, ◌≢◌, ◌≤◌, ◌<◌, ◌+◌, ◌^◌, refl, false, leb, none, some, List, [], ◌∷◌, map, String,
  arith, All, if◌then◌else◌,
}
use janetland.Janet.{Value, nil, keyword, function, number, ok, panic, IsSafe}
use janetland.KeyDefs.{name_at, terminated}
use janetland.Wlr.Calls.{Wlroots}
use janetland.Wlr.Calls.Seats.{key_codes}
use janetland.Wlr.Calls.KeyCodes.{key_codes_fit, words_of}
use janetland.Wlr.Registration.{IsBinding}
use janetland.Wlr.Registration.Bindings.{cfuns, cfuns-IsBinding}
use janetland.Wlr.Log.{int_max, Log, Logger, log_rows, log_callback, cfun_wlr_log_init}
use janetland.Wlr.Log.Rooted.{start, configure, Reaches-roots, own_root}
use janetland.Wlr.Log.Messages.{log_callback_calls, Reported}
use janetland.Examples.{janet, headers, host, Counts}

abbrev wlroots : Wlroots (List String)
wlroots = record {
  call = λ name args s. (record { value = 64; first = 1; second = 2 }, name ∷ s);
  first_word = λ s p. 0;
  new_abstract = λ s. (4096, s);
  new_abstract_nonzero = λ s e. omega (arith, e);
  to_float = λ x. x;
  node_type = λ s p. 0;
}

abbrev logger : Logger host
logger = record {
  log_init = λ v b w. w;
  roots-log_init = λ v b w. refl;
  get_verbosity = λ w. 3;
  log = λ verb text s. s;
  string_format = none;
  pcall = λ fn argv s. (none, record s { callback_fn = 7 });
}

-- Nothing is rooted, and there is no callback; and a log with the callback 9.
abbrev quiet : Log Counts
quiet = record {
  outside = record { rooted = λ v. 0; depth = 1; shut = λ p. false };
  callback_fn = 0;
}

abbrev listening : Log Counts
listening = record quiet { callback_fn = 9 }

-- Two calls of `wlr-log-init` in a row, and a third that panics.
abbrev first_call : List Value
first_call = keyword "debug" ∷ function 9 ∷ []

abbrev second_call : List Value
second_call = keyword "error" ∷ function 11 ∷ []

abbrev third_call : List Value
third_call = number 3 ∷ []

abbrev configured : Log Counts
configured =
    (cfun_wlr_log_init janet headers host logger third_call
      (cfun_wlr_log_init janet headers host logger second_call
        (cfun_wlr_log_init janet headers host logger first_call quiet).1).1).1

cfuns-IsBinding_example : All (All (IsBinding janet wlroots)) (cfuns headers janet wlroots)
cfuns-IsBinding_example = cfuns-IsBinding headers janet wlroots

Reaches-roots_example :
    host.roots configured.outside (function 9)
    ≡ host.roots quiet.outside (function 9)
      + own_root janet headers host logger configured.callback_fn (function 9)
Reaches-roots_example =
    Reaches-roots janet headers host logger (function 9)
      (configure third_call (configure second_call (configure first_call start))) refl

-- A log with a `string/format` that prints a percent sign alone.
not_set : ◌≢◌ {A = ℕ} 9 0
not_set e = omega (arith, e)

debug_fits : 0 ≤ headers.const "WLR_LOG_IMPORTANCE_LAST"
debug_fits = omega arith

rows_fit : headers.const "WLR_LOG_IMPORTANCE_LAST" < 5
rows_fit = omega arith

short_fits : length {A = ℕ} (104 ∷ 105 ∷ []) < int_max
short_fits = omega arith

log_callback_calls_example :
    (name : Value) × (name_at (terminated (log_rows headers)) 0 ≡ ok name)
    × Reported janet headers host logger 9 name
        (104 ∷ 105 ∷ [])
        listening
        (log_callback janet headers host logger 0 (some (104 ∷ 105 ∷ [])) listening)
log_callback_calls_example =
    log_callback_calls janet headers host logger 0 (104 ∷ 105 ∷ []) listening not_set debug_fits
      rows_fit short_fits

codes_small : All (λ code. code < 2 ^ 64) (30 ∷ 4294967327 ∷ [])
codes_small = (omega arith, (omega arith, tt))

key_codes_fit_example :
    IsSafe (key_codes janet 32 (nil ∷ []))
    × (key_codes janet 32 (map janet.wrap_u64 (30 ∷ 4294967327 ∷ [])) ≡ (
        if leb 2 32
        then ok (words_of (30 ∷ 4294967327 ∷ []))
        else panic "expected at most %d key codes, got %d"))
key_codes_fit_example = key_codes_fit janet 32 (nil ∷ []) (30 ∷ 4294967327 ∷ []) codes_small
