-- ===== src/Wl/Arities.antt =====
-- The rows of the registration table of wl.c: how they are documented, and what a wrong number of arguments does.
use janetland.Prelude.{
  ℕ, ◌≡◌, ◌≢◌, refl, true, String, List, [], ◌∷◌, ◌++◌, ◌⊎◌, inl, inr, All, codes, has_prefix,
  ==_differ,
}
use janetland.Janet.{Janet, Value, panic, argc}
use janetland.Action.{Action, ◌>>◌}
use janetland.Wl.{World, Host, fixarity}
use janetland.Wlr.Members.{has_name}
use janetland.Wlr.Registration.{JanetReg, usage_arity, arity_message}
use janetland.Wl.Registration.{event_loop_cfuns, display_cfuns}
use janetland.Headers.{Headers}
use janetland.Wl.Loops.{Libwayland}
use janetland.Wl.Streams.{Streams}
use janetland.Wl.Sources.{
  cfun_wl_event_loop_add_fd, cfun_wl_event_source_fd_update, cfun_wl_event_loop_add_timer,
  cfun_wl_event_source_timer_update, cfun_wl_event_loop_add_signal, cfun_wl_event_loop_add_idle,
  cfun_wl_event_source_check, cfun_wl_event_source_remove,
}
use janetland.Wl.Listeners.{
  cfun_wl_event_loop_add_destroy_listener, cfun_wl_signal_add, cfun_wl_signal_remove,
  cfun_wl_signal_emit,
}
use janetland.Wl.Loops.{
  cfun_wl_event_loop_create, cfun_wl_event_loop_destroy, cfun_wl_event_loop_dispatch,
  cfun_wl_event_loop_dispatch_idle, cfun_wl_event_loop_get_fd, cfun_wl_list_empty,
  cfun_wl_list_length,
}
use janetland.Wl.Streams.{cfun_wl_event_loop_fd_to_stream}
use janetland.Wl.Displays.{
  cfun_wl_display_create, cfun_wl_display_terminate, cfun_wl_display_destroy,
  cfun_wl_display_destroy_clients, cfun_wl_display_run, cfun_wl_display_add_socket_auto,
  cfun_wl_display_get_event_loop, cfun_wl_display_flush_clients,
}

-- The functions whose usage line leaves out a parameter.
abbrev pub misdocumented : List String
misdocumented = "wl-event-loop-destroy" ∷ "wl-display-terminate" ∷ []

-- The documentation of a row is that of its name, and with another number of arguments than the function takes it panics
-- and changes nothing; that number is the one of the usage line, but for the misdocumented functions.
pub record IsBound {S : Type 0} (row : JanetReg S) : Type 0 where
  pub parameters : ℕ
  pub documented : has_prefix (codes "(wl/" ++ codes row.name) (codes row.documentation) ≡ true
  pub usage :
      (usage_arity row.documentation ≡ parameters)
      ⊎ ((has_name row.name misdocumented ≡ true) × (parameters ≡ 1))
  pub arity :
      (argv : List Value) (s : S)
      → argc argv ≢ parameters
      → row.cfun argv s ≡ (panic arity_message, s)

module _ {W : Type 0} {row : JanetReg (World W)} where
  bound :
      (n : ℕ) (rest : List Value → Action (World W) Value)
      → has_prefix (codes "(wl/" ++ codes row.name) (codes row.documentation) ≡ true
      → (usage_arity row.documentation ≡ n) ⊎ ((has_name row.name misdocumented ≡ true) × (n ≡ 1))
      → ((argv : List Value) → row.cfun argv ≡ (fixarity argv n >> rest argv))
      → IsBound row
  bound n rest documented usage shape = record {
    parameters = n;
    documented = documented;
    usage = usage;
    arity = λ argv s h. rw (shape argv, ==_differ (argc argv) n h) refl;
  }

module _ {W : Type 0} (J : Janet) (H : Headers) (N : Host W) (L : Libwayland W)
    (S : Streams W) where
  event_loop_cfuns-IsBound : All IsBound (event_loop_cfuns J H N L S)
  unfolding cfun_wl_event_loop_create cfun_wl_event_loop_destroy cfun_wl_event_loop_dispatch
      cfun_wl_event_loop_dispatch_idle cfun_wl_event_loop_add_fd cfun_wl_event_source_fd_update
      cfun_wl_event_loop_add_timer cfun_wl_event_source_timer_update cfun_wl_event_loop_add_signal
      cfun_wl_event_loop_add_idle cfun_wl_event_loop_get_fd cfun_wl_event_loop_fd_to_stream
      cfun_wl_event_loop_add_destroy_listener
  event_loop_cfuns-IsBound = (
    bound 0 _ refl (inl refl) (λ argv. refl),
    (
      bound 1 _ refl (inr (refl, refl)) (λ argv. refl),
      (
        bound 2 _ refl (inl refl) (λ argv. refl),
        (
          bound 1 _ refl (inl refl) (λ argv. refl),
          (
            bound 4 _ refl (inl refl) (λ argv. refl),
            (
              bound 2 _ refl (inl refl) (λ argv. refl),
              (
                bound 2 _ refl (inl refl) (λ argv. refl),
                (
                  bound 2 _ refl (inl refl) (λ argv. refl),
                  (
                    bound 3 _ refl (inl refl) (λ argv. refl),
                    (
                      bound 2 _ refl (inl refl) (λ argv. refl),
                      (
                        bound 1 _ refl (inl refl) (λ argv. refl),
                        (
                          bound 1 _ refl (inl refl) (λ argv. refl),
                          (bound 2 _ refl (inl refl) (λ argv. refl), tt),
                        ),
                      ),
                    ),
                  ),
                ),
              ),
            ),
          ),
        ),
      ),
    ),
  )

  display_cfuns-IsBound : All IsBound (display_cfuns J H N L S)
  unfolding cfun_wl_event_source_check cfun_wl_event_source_remove cfun_wl_list_empty
      cfun_wl_list_length cfun_wl_display_create cfun_wl_display_terminate cfun_wl_display_destroy
      cfun_wl_display_destroy_clients cfun_wl_display_run cfun_wl_display_add_socket_auto
      cfun_wl_display_get_event_loop cfun_wl_display_flush_clients cfun_wl_signal_add
      cfun_wl_signal_remove cfun_wl_signal_emit
  display_cfuns-IsBound = (
    bound 1 _ refl (inl refl) (λ argv. refl),
    (
      bound 1 _ refl (inl refl) (λ argv. refl),
      (
        bound 1 _ refl (inl refl) (λ argv. refl),
        (
          bound 1 _ refl (inl refl) (λ argv. refl),
          (
            bound 0 _ refl (inl refl) (λ argv. refl),
            (
              bound 1 _ refl (inr (refl, refl)) (λ argv. refl),
              (
                bound 1 _ refl (inl refl) (λ argv. refl),
                (
                  bound 1 _ refl (inl refl) (λ argv. refl),
                  (
                    bound 1 _ refl (inl refl) (λ argv. refl),
                    (
                      bound 1 _ refl (inl refl) (λ argv. refl),
                      (
                        bound 1 _ refl (inl refl) (λ argv. refl),
                        (
                          bound 1 _ refl (inl refl) (λ argv. refl),
                          (
                            bound 2 _ refl (inl refl) (λ argv. refl),
                            (
                              bound 1 _ refl (inl refl) (λ argv. refl),
                              (bound 2 _ refl (inl refl) (λ argv. refl), tt),
                            ),
                          ),
                        ),
                      ),
                    ),
                  ),
                ),
              ),
            ),
          ),
        ),
      ),
    ),
  )

  -- Each of the 28 functions that the module wl registers, with whatever arguments in whatever state: its documentation
  -- is that of its name; with another number of arguments than it takes it panics and changes nothing, neither the sources
  -- and the listeners nor anything of libwayland or Janet; and that number is the one of the usage line in its documentation,
  -- but for two functions that take one argument and are documented with none.
  pub cfuns-IsBound : All (All IsBound) (event_loop_cfuns J H N L S ∷ display_cfuns J H N L S ∷ [])
  cfuns-IsBound = (event_loop_cfuns-IsBound, (display_cfuns-IsBound, tt))
