-- ===== src/AbstractTypes/Wl.antt =====
-- wl_abs_types.h: event loops to displays, one abstract type each.
use janetland.Prelude.{ℕ, none, some, List, [], ◌∷◌}
use janetland.Janet.{Janet}
use janetland.Headers.{Headers}
use janetland.AbstractTypes.{AbstractType}
use janetland.AbstractTypes.{AbstractType}
use janetland.Wl.{EventSource, Listener}
use janetland.Wl.Callbacks.{method_event_source_gcmark, method_listener_gcmark}

module _ (J : Janet) (H : Headers) (first_word : ℕ → ℕ) where
  abbrev pub jwl_at_wl_event_loop : AbstractType
  jwl_at_wl_event_loop = record {
    name = "wl/wl-event-loop";
    Object = ℕ;
    gc = none;
    gcmark = none;
    get = none;
    put = none;
    tostring = none;
    compare = none;
  }

  abbrev pub jwl_at_event_source : AbstractType
  jwl_at_event_source = record {
    name = "wl/event-source";
    Object = EventSource;
    gc = none;
    gcmark = some method_event_source_gcmark;
    get = none;
    put = none;
    tostring = none;
    compare = none;
  }

  abbrev pub jwl_at_wl_list : AbstractType
  jwl_at_wl_list = record {
    name = "wl/wl-list";
    Object = ℕ;
    gc = none;
    gcmark = none;
    get = none;
    put = none;
    tostring = none;
    compare = none;
  }

  abbrev pub jwl_at_wl_signal : AbstractType
  jwl_at_wl_signal = record {
    name = "wl/wl-signal";
    Object = ℕ;
    gc = none;
    gcmark = none;
    get = none;
    put = none;
    tostring = none;
    compare = none;
  }

  abbrev pub jwl_at_listener : AbstractType
  jwl_at_listener = record {
    name = "wl/listener";
    Object = Listener;
    gc = none;
    gcmark = some method_listener_gcmark;
    get = none;
    put = none;
    tostring = none;
    compare = none;
  }

  abbrev pub jwl_at_wl_display : AbstractType
  jwl_at_wl_display = record {
    name = "wl/wl-display";
    Object = ℕ;
    gc = none;
    gcmark = none;
    get = none;
    put = none;
    tostring = none;
    compare = none;
  }

  abbrev pub wl_abstract_types : List AbstractType
  wl_abstract_types =
      jwl_at_wl_event_loop ∷ jwl_at_event_source ∷ jwl_at_wl_list ∷ jwl_at_wl_signal
      ∷ jwl_at_listener ∷ jwl_at_wl_display ∷ []
