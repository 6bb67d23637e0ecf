-- ===== src/Wlr/Log/Messages.antt =====
-- What the log callback prints and calls.
use janetland.Prelude.{
  ℕ, zero, suc, ◌+◌, ◌≤◌, ◌<◌, ◌≡◌, ◌≢◌, refl, ◌∙◌, true, false, Option, none, some, List,
  if◌then◌else◌, [], ◌∷◌, String, leb, Option-cases, inl, inr, Bool-cases, length, arith, ==_differ,
}
use janetland.Janet.{Janet, Value, buffer, keyword, Result, ok, fault}
use janetland.Headers.{Headers}
use janetland.KeyDefs.{terminated, name_at}
use janetland.Wl.{Host}
use janetland.Wlr.Log.{
  int_max, Log, Logger, log_rows, print, first_bytes, log_buffer, call_back, log_callback,
}

-- With room for more bytes than a text has, its bytes are all printed.
first_bytes-print :
    (room : ℕ) (bytes : List ℕ)
    → length bytes < room
    → first_bytes (length bytes) (print room bytes) ≡ ok bytes
first_bytes-print zero bytes h = absurd (omega arith)
first_bytes-print (suc zero) [] h = refl
first_bytes-print (suc zero) (b ∷ bytes) h = absurd (omega arith)
first_bytes-print (suc (suc n)) [] h = refl
first_bytes-print (suc (suc n)) (b ∷ bytes) h =
    rw (first_bytes-print (suc n) bytes (omega arith)) refl

pub log_buffer_whole :
    (bytes : List ℕ) → log_buffer bytes ≡ (if leb int_max (length bytes) then fault else ok bytes)
unfolding log_buffer
log_buffer_whole bytes = elim (Bool-cases (leb 256 (length bytes))) [
  | inl e ↦ elim (Bool-cases (leb int_max (length bytes))) [
    | inl long ↦ rw (e, long) refl
    | inr fits ↦ rw (e, fits) (first_bytes-print (length bytes + 1) bytes (omega arith))
  ]
  | inr e ↦
      let short : leb int_max (length bytes) ≡ false = ground arith in
      rw (e, short) (first_bytes-print 256 bytes (ground arith))
]

name_at-found :
    (rows : List (String × ℕ)) (i : ℕ)
    → i < length rows
    → (name : Value) × (name_at (terminated rows) i ≡ ok name)
unfolding name_at
name_at-found [] i h = absurd (omega arith)
name_at-found ((n, k) ∷ rows) zero h = (keyword n, refl)
name_at-found ((n, k) ∷ rows) (suc i) h = name_at-found rows i (omega arith)

module _ {W : Type 0} (J : Janet) (H : Headers) (N : Host W) (O : Logger N) where
  -- The state in which the callback is called: the lock one deeper.
  abbrev locked : Log W → Log W
  locked s = record s { outside = N.gclock s.outside }

  -- The call of the function `fn` with the name of the level and the whole message.
  abbrev call_of : ℕ → Value → List ℕ → Log W → Option Value × Log W
  call_of fn name text s = O.pcall fn (name ∷ buffer text ∷ []) (locked s)

  -- What the log callback leaves behind a call: the lock is set back, and a call that failed is reported.
  abbrev pub finished : ℕ → Option Value → Log W → Log W
  finished lock (some v) t = record t { outside = N.gcunlock lock t.outside }
  finished lock none t = record t { outside = N.stacktrace (N.gcunlock lock t.outside) }

  -- The log callback returns, in the state that this call left behind, and the lock is as deep as before.
  abbrev pub Reported : ℕ → Value → List ℕ → Log W → Result (Unit {0}) × Log W → Type 0
  Reported fn name text s r =
      (r ≡ (
        ok tt,
        finished (N.lock s.outside) (call_of fn name text s).0 (call_of fn name text s).1,
      ))
      × (N.lock r.1.outside ≡ N.lock s.outside)

  call_back-Reported :
      (importance : ℕ) (text : List ℕ) (s : Log W) (name : Value)
      → length text < int_max
      → name_at (terminated (log_rows H)) importance ≡ ok name
      → Reported s.callback_fn name text s (call_back J H N O importance text s)
  unfolding call_back
  call_back-Reported importance text s name fits named =
      let lock : ℕ = N.lock s.outside in
      let w = (call_of s.callback_fn name text s).1.outside in
      let whole : leb int_max (length text) ≡ false = ground arith in
      elim (Option-cases (call_of s.callback_fn name text s).0) [
        | inl e ↦
            rw (log_buffer_whole text, whole, named, e)
              (refl, N.lock-stacktrace (N.gcunlock lock w) ∙ N.lock-gcunlock lock w)
        | inr (v, e) ↦ rw (log_buffer_whole text, whole, named, e) (refl, N.lock-gcunlock lock w)
      ]

  -- A level that wlroots has, a callback that is set, and a message of less than INT_MAX bytes: the callback is called
  -- with the name of the level and the whole message, under a lock one deeper; the log callback returns, whether that
  -- call returned or failed, in the state that the call left behind but for the lock, which is as deep as it was, and
  -- the report of a failed call.
  pub log_callback_calls :
      (importance : ℕ) (text : List ℕ) (s : Log W)
      → s.callback_fn ≢ 0
      → importance ≤ H.const "WLR_LOG_IMPORTANCE_LAST"
      → H.const "WLR_LOG_IMPORTANCE_LAST" < 5
      → length text < int_max
      → (name : Value) × (name_at (terminated (log_rows H)) importance ≡ ok name)
        × Reported s.callback_fn name text s (log_callback J H N O importance (some text) s)
  unfolding log_callback
  log_callback_calls importance text s set within last fits =
      let known : leb importance (H.const "WLR_LOG_IMPORTANCE_LAST") ≡ true = ground arith in
      let (name, named) = name_at-found (log_rows H) importance (omega arith) in
      (
        name,
        named,
        rw (==_differ s.callback_fn 0 set, known)
            (call_back-Reported importance text s name fits named),
      )
