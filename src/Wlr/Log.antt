-- ===== src/Wlr/Log.antt =====
-- wlr.c: the log of wlroots. The bindings keep the Janet function that the log calls in a variable of the
-- thread, `jwlr_log_callback_fn`; the rest of the state belongs to Janet and wlroots.
pub mod Rooted
pub mod Messages
use janetland.Prelude.{
  ℕ, zero, suc, ◌+◌, ◌-◌, ◌^◌, ◌≡◌, Bool, true, false, Option, none, some, List, [], ◌∷◌, ◌++◌,
  String, ltb, leb, ◌==◌, ◌||◌, codes, length, if◌then◌else◌,
}
use janetland.Janet.{
  Janet, Value, nil, function, buffer, Result, ok, panic, fault, arg, argc, guard, fixarity,
  ◌>>=◌ as bind, ◌>>◌ as after,
}
use janetland.Headers.{Headers}
use janetland.KeyDefs.{terminated, get_key_def, name_at}
use janetland.Action.{Action, ◌>>=◌, ◌>>◌, lift, give, reading, change}
use janetland.Wl.{Host}

abbrev pub log_rows : Headers → List (String × ℕ)
log_rows H =
    ("silent", H.const "WLR_SILENT")
    ∷ ("error", H.const "WLR_ERROR")
    ∷ ("info", H.const "WLR_INFO")
    ∷ ("debug", H.const "WLR_DEBUG")
    ∷ ("log-importance-last", H.const "WLR_LOG_IMPORTANCE_LAST")
    ∷ []

-- `jwlr_log_callback_fn`, 0 where it is NULL, and what is not of the bindings.
pub record Log (W : Type 0) : Type 0 where
  pub outside : W
  pub callback_fn : ℕ

-- What the log functions call. `_wlr_log` and `janet_pcall` can come back to these functions.
pub record Logger {W : Type 0} (N : Host W) : Type 0 where
  -- `wlr_log_init`, with a callback (`true`) or NULL
  pub log_init : ℕ → Bool → W → W
  pub roots-log_init : (v : ℕ) (b : Bool) (w : W) → N.roots (log_init v b w) ≡ N.roots w
  pub get_verbosity : W → ℕ
  -- `_wlr_log` of a text in which no conversion takes an argument
  pub log : ℕ → String → Log W → Log W
  -- the core function `string/format`, if there is one
  pub string_format : Option (List Value → Result String)
  pub pcall : ℕ → List Value → Log W → Option Value × Log W

-- `janet_arity(argc, min, max)`; `none` is -1.
unfoldable pub arity : List Value → ℕ → Option ℕ → Result (Unit {0})
arity argv min none = guard (leb min (argc argv)) "arity mismatch, expected at least %d, got %d"
arity argv min (some max) =
    after (guard (leb min (argc argv)) "arity mismatch, expected at least %d, got %d")
      (guard (leb (argc argv) max) "arity mismatch, expected at most %d, got %d")

abbrev function_or_null : Janet → Value → Result ℕ
function_or_null J nil = ok 0
function_or_null J v = J.getfunction v

-- `janet_optfunction(argv, argc, n, NULL)`
unfoldable pub optfunction : Janet → List Value → ℕ → Result ℕ
optfunction J argv n = if leb (argc argv) n then ok 0 else bind (arg argv n) (function_or_null J)

-- A format of printf that takes no argument: each `%` stands before another, or before `m`, which prints `errno`.
abbrev pub is_plain : Bool → List ℕ → Bool
is_plain pending [] = if pending then false else true
is_plain false (c ∷ cs) = is_plain (c == b'%') cs
is_plain true (c ∷ cs) = if c == b'%' || c == b'm' then is_plain false cs else false

-- `vsnprintf(data, size, ...)` of a text: as many bytes as there is room for before the zero byte.
abbrev pub print : ℕ → List ℕ → List ℕ
print zero bytes = []
print (suc zero) bytes = 0 ∷ []
print (suc (suc n)) [] = 0 ∷ []
print (suc (suc n)) (b ∷ bytes) = b ∷ print (suc n) bytes

abbrev pub first_bytes : ℕ → List ℕ → Result (List ℕ)
first_bytes zero memory = ok []
first_bytes (suc n) [] = fault
first_bytes (suc n) (b ∷ memory) = bind (first_bytes n memory) (λ bytes. ok (b ∷ bytes))

-- `INT_MAX`
abbrev pub int_max : ℕ
int_max = 2 ^ 31 - 1

-- The buffer of the log callback: 256 bytes, and printed again with room for all if those do not do. The length is an
-- `int`, and `str_len + 1` overflows at the greatest one.
unfoldable pub log_buffer : List ℕ → Result (List ℕ)
log_buffer bytes =
    let str_len = length bytes in
    if leb 256 str_len
    then (if leb int_max str_len then fault else first_bytes str_len (print (str_len + 1) bytes))
    else first_bytes str_len (print 256 bytes)

abbrev resolved : Option (List Value → Result String) → Result (List Value → Result String)
resolved none = panic "core cfun string/format not found"
resolved (some format) = ok format

abbrev tail : List Value → List Value
tail [] = []
tail (v ∷ vs) = vs

module _ {W : Type 0} (J : Janet) (H : Headers) (N : Host W) (O : Logger N) where
  abbrev on_outside : (W → W) → Action (Log W) (Unit {0})
  on_outside f = change (λ s. record s { outside = f s.outside })

  abbrev report_failure : Option Value → Action (Log W) (Unit {0})
  report_failure (some ret) = give tt
  report_failure none = on_outside N.stacktrace

  -- `if (cb) {...}`: the function of before gives its root to the new one.
  unfoldable pub set_callback : ℕ → Log W → Log W
  set_callback cb s = if cb == 0 then s else record {
    outside =
        N.gcroot (function cb)
          (if s.callback_fn == 0 then s.outside else N.gcunroot (function s.callback_fn) s.outside);
    callback_fn = cb;
  }

  unfoldable pub cfun_wlr_log_init : List Value → Action (Log W) Value
  unfolding arity optfunction set_callback
  cfun_wlr_log_init argv = do
    lift (arity argv 1 (some 2))
    verbosity ← lift (bind (arg argv 0) (λ v. get_key_def J v (terminated (log_rows H))))
    cb ← lift (optfunction J argv 1)
    change (set_callback cb)
    on_outside (O.log_init verbosity (if cb == 0 then false else true))
    give nil

  unfoldable pub cfun_wlr_log_get_verbosity : List Value → Action (Log W) Value
  cfun_wlr_log_get_verbosity argv = do
    lift (fixarity argv 0)
    verb ← reading (λ s. O.get_verbosity s.outside)
    lift (guard (leb verb (H.const "WLR_LOG_IMPORTANCE_LAST")) "unknown log level: %d")
    lift (name_at (terminated (log_rows H)) verb)

  -- `_wlr_log(verb, text)`: the text is the format, and a conversion in it has no argument to print.
  unfoldable pub log_format : ℕ → String → Action (Log W) (Unit {0})
  log_format verb text =
      if is_plain false (codes text) then change (O.log verb text) else lift fault

  unfoldable pub cfun_wlr_log : List Value → Action (Log W) Value
  unfolding arity log_format
  cfun_wlr_log argv = do
    lift (arity argv 2 none)
    verb ← lift (bind (arg argv 0) (λ v. get_key_def J v (terminated (log_rows H))))
    limit ← reading (λ s. O.get_verbosity s.outside)
    if ltb limit verb then give nil else (do
      format ← lift (resolved O.string_format)
      text ← lift (format (tail argv))
      log_format verb text
      give nil)

  -- The call of the callback with a message, and the report of one that failed.
  unfoldable pub call_back : ℕ → List ℕ → Action (Log W) (Unit {0})
  unfolding log_buffer
  call_back importance text = do
    buf ← lift (log_buffer text)
    name ← lift (name_at (terminated (log_rows H)) importance)
    fn ← reading (λ s. s.callback_fn)
    locked ← reading (λ s. N.lock s.outside)
    on_outside N.gclock
    ret ← (λ s.
        (ok (O.pcall fn (name ∷ buffer buf ∷ []) s).0, (O.pcall fn (name ∷ buffer buf ∷ []) s).1))
    on_outside (N.gcunlock locked)
    report_failure ret

  -- `message` is what the format and its arguments print, or `none` where vsnprintf fails, as it does
  -- for more than INT_MAX bytes.
  unfoldable pub log_callback : ℕ → Option (List ℕ) → Action (Log W) (Unit {0})
  unfolding call_back
  log_callback importance message = do
    fn ← reading (λ s. s.callback_fn)
    if fn == 0 then give tt else (do
      lift (guard (leb importance (H.const "WLR_LOG_IMPORTANCE_LAST")) "unknown log level: %d")
      elim message [ some text ↦ call_back importance text | none ↦ give tt ])
