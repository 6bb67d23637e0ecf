-- ===== src/Wl/Locking.antt =====
-- The callbacks of wl.c against the lock of the collector.
use janetland.Prelude.{ℕ, ◌≡◌, refl, Option, List, Option-cases, inl, inr, ◌∙◌, arith}
use janetland.Prelude.Int.{ℤ, pos, IsInt32, unsigned32}
use janetland.Janet.{Janet, Value}
use janetland.Headers.{Headers}
use janetland.KeyDefs.{get_flag_keys, terminated}
use janetland.Action.{◌>>=◌, Ends, ends_ok, lift-Ends}
use janetland.Wl.{World, Host, block_at}
use janetland.Wl.Tables.{posix_signal_rows, wl_event_rows}
use janetland.Wl.Callbacks.{
  locked_call, callback_result, report, find_signal_name, event_loop_fd_callback,
  event_loop_timer_callback, event_loop_signal_callback, event_loop_idle_callback,
  listener_notify_callback,
}

module _ {W : Type 0} (J : Janet) (H : Headers) (N : Host W) where
  -- The lock is as deep as in the world `w`.
  abbrev pub SameLock : World W → World W → Type 0
  SameLock w w' = N.lock w'.outside ≡ N.lock w.outside

  -- The integer fits an `int`, and the lock is as deep as in the world `w`.
  abbrev pub Answered : World W → ℤ → World W → Type 0
  Answered w i w' = IsInt32 i × SameLock w w'

  -- The call of the function, with the lock one deeper.
  abbrev called : World W → ℕ → List Value → Option Value × World W
  called w fn argv = N.pcall fn argv (record w { outside = N.gclock w.outside })

  answer :
      (w : World W) (fn : ℕ) (argv : List Value)
      → Ends (Answered w) (SameLock w) ((locked_call J H N fn argv >>= callback_result J H N) w)
  unfolding locked_call callback_result
  answer w fn argv =
      let lock : ℕ = N.lock w.outside in
      let o : W = (called w fn argv).1.outside in
      elim (Option-cases (called w fn argv).0) [
        | inl e ↦
            rw e (
              ends_ok
                (zero_IsInt32, N.lock-stacktrace (N.gcunlock lock o) ∙ N.lock-gcunlock lock o))
        | inr (ret, e) ↦ rw e (elim (Option-cases (J.checkint ret)) [
          | inl n ↦
              rw (callback_result, n)
                (ends_ok
                  (zero_IsInt32, N.lock-eprintf ret (N.gcunlock lock o) ∙ N.lock-gcunlock lock o))
          | inr (i, n) ↦
              rw (callback_result, n) (ends_ok (J.checkint_IsInt32 ret i n, N.lock-gcunlock lock o))
        ])
      ]
    where
      zero_IsInt32 : IsInt32 (pos 0)
      zero_IsInt32 = omega arith

  reported :
      (w : World W) (fn : ℕ) (argv : List Value)
      → Ends (λ _. SameLock w) (SameLock w) ((locked_call J H N fn argv >>= report J H N) w)
  unfolding locked_call report
  reported w fn argv =
      let lock : ℕ = N.lock w.outside in
      let o : W = (called w fn argv).1.outside in
      elim (Option-cases (called w fn argv).0) [
        | inl e ↦ rw e (ends_ok (N.lock-stacktrace (N.gcunlock lock o) ∙ N.lock-gcunlock lock o))
        | inr (ret, e) ↦ rw e (ends_ok (N.lock-gcunlock lock o))
      ]

  -- Every callback, at any arguments and in any world, whatever the Janet function does: where it
  -- returns or panics the collector's lock is as deep as before, and what the three callbacks with a
  -- result return is the integer of a Janet number that fits an `int`, or 0.
  pub callbacks_lock :
      (fd signal : ℤ) (mask data_p wl_listener : ℕ) (w : World W)
      → Ends (Answered w) (SameLock w) (event_loop_fd_callback J H N fd mask data_p w)
        × Ends (Answered w) (SameLock w) (event_loop_timer_callback J H N data_p w)
        × Ends (Answered w) (SameLock w) (event_loop_signal_callback J H N signal data_p w)
        × Ends (λ _. SameLock w) (SameLock w) (event_loop_idle_callback J H N data_p w)
        × Ends (λ _. SameLock w) (SameLock w) (listener_notify_callback J H N wl_listener data_p w)
  unfolding event_loop_fd_callback event_loop_timer_callback event_loop_signal_callback
      event_loop_idle_callback listener_notify_callback
  callbacks_lock fd signal mask data_p wl_listener w = (
    lift-Ends (block_at w.sources data_p) _ _ refl (λ source _.
        lift-Ends (get_flag_keys mask (terminated (wl_event_rows H))) _ _ refl
          (λ keys _. answer w source.cb_fn _)),
    lift-Ends (block_at w.sources data_p) _ _ refl (λ source _. answer w source.cb_fn _),
    lift-Ends (find_signal_name (terminated (posix_signal_rows H)) (unsigned32 signal)) _ _ refl
        (λ name _.
          lift-Ends (block_at w.sources data_p) _ _ refl (λ source _. answer w source.cb_fn _)),
    lift-Ends (block_at w.sources data_p) _ _ refl (λ source _. reported w source.cb_fn _),
    lift-Ends (block_at w.listeners wl_listener) _ _ refl
        (λ listener _. reported w listener.notify_fn _),
  )
