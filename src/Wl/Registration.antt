-- ===== src/Wl/Registration.antt =====
-- wl.c: the table of the functions that it registers, with the name and the documentation that Janet code sees.
use janetland.Prelude.{List, [], ◌∷◌}
use janetland.Janet.{Janet}
use janetland.Headers.{Headers}
use janetland.Wl.{World, Host}
use janetland.Wl.Loops.{Libwayland}
use janetland.Wl.Streams.{Streams}
use janetland.Wlr.Registration.{JanetReg}
use janetland.Wl.Sources.{
  cfun_wl_event_loop_add_fd, cfun_wl_event_source_fd_update, cfun_wl_event_loop_add_timer,
  cfun_wl_event_source_timer_update, cfun_wl_event_loop_add_signal, cfun_wl_event_loop_add_idle,
  cfun_wl_event_source_check, cfun_wl_event_source_remove,
}
use janetland.Wl.Listeners.{
  cfun_wl_event_loop_add_destroy_listener, cfun_wl_signal_add, cfun_wl_signal_remove,
  cfun_wl_signal_emit,
}
use janetland.Wl.Loops.{
  cfun_wl_event_loop_create, cfun_wl_event_loop_destroy, cfun_wl_event_loop_dispatch,
  cfun_wl_event_loop_dispatch_idle, cfun_wl_event_loop_get_fd, cfun_wl_list_empty,
  cfun_wl_list_length,
}
use janetland.Wl.Streams.{cfun_wl_event_loop_fd_to_stream}
use janetland.Wl.Displays.{
  cfun_wl_display_create, cfun_wl_display_terminate, cfun_wl_display_destroy,
  cfun_wl_display_destroy_clients, cfun_wl_display_run, cfun_wl_display_add_socket_auto,
  cfun_wl_display_get_event_loop, cfun_wl_display_flush_clients,
}

module _ {W : Type 0} (J : Janet) (H : Headers) (N : Host W) (L : Libwayland W)
    (S : Streams W) where
  abbrev pub event_loop_cfuns : List (JanetReg (World W))
  event_loop_cfuns =
      record {
        name = "wl-event-loop-create";
        cfun = cfun_wl_event_loop_create J N L;
        documentation = "(wl/wl-event-loop-create)\n\nCreates a Wayland event loop.";
      }
      ∷ record {
        name = "wl-event-loop-destroy";
        cfun = cfun_wl_event_loop_destroy J N L;
        documentation = "(wl/wl-event-loop-destroy)\n\nDestroys a Wayland event loop.";
      }
      ∷ record {
        name = "wl-event-loop-dispatch";
        cfun = cfun_wl_event_loop_dispatch J N L;
        documentation =
            "(wl/wl-event-loop-dispatch wl-event-loop timeout)\n\nDispatches events from the event sources registered in the event loop.";
      }
      ∷ record {
        name = "wl-event-loop-dispatch-idle";
        cfun = cfun_wl_event_loop_dispatch_idle J N L;
        documentation =
            "(wl/wl-event-loop-dispatch-idle wl-event-loop)\n\nDispatches idle events registered in the event loop.";
      }
      ∷ record {
        name = "wl-event-loop-add-fd";
        cfun = cfun_wl_event_loop_add_fd J H N;
        documentation =
            "(wl/wl-event-loop-add-fd wl-event-loop fd-or-stream mask func)\n\nAdds a file descriptor as an event source.";
      }
      ∷ record {
        name = "wl-event-source-fd-update";
        cfun = cfun_wl_event_source_fd_update J H N;
        documentation =
            "(wl/wl-event-source-fd-update event-source mask)\n\nUpdates a file descriptor source's event mask.";
      }
      ∷ record {
        name = "wl-event-loop-add-timer";
        cfun = cfun_wl_event_loop_add_timer J H N;
        documentation =
            "(wl/wl-event-loop-add-timer wl-event-loop func)\n\nAdds a timer as an event source.";
      }
      ∷ record {
        name = "wl-event-source-timer-update";
        cfun = cfun_wl_event_source_timer_update J H N;
        documentation =
            "(wl/wl-event-source-timer-update event-source ms-delay)\n\nUpdates a timer source's expiration time.";
      }
      ∷ record {
        name = "wl-event-loop-add-signal";
        cfun = cfun_wl_event_loop_add_signal J H N;
        documentation =
            "(wl/wl-event-loop-add-signal wl-event-loop signal func)\n\nBlocks a POSIX signal and dispatches it through the event loop.";
      }
      ∷ record {
        name = "wl-event-loop-add-idle";
        cfun = cfun_wl_event_loop_add_idle J H N;
        documentation =
            "(wl/wl-event-loop-add-idle wl-event-loop func)\n\nAdds an idle event source to the event loop.";
      }
      ∷ record {
        name = "wl-event-loop-get-fd";
        cfun = cfun_wl_event_loop_get_fd J N L;
        documentation =
            "(wl/wl-event-loop-get-fd wl-event-loop)\n\nReturns the file descriptor for the event loop.";
      }
      ∷ record {
        name = "wl-event-loop-fd-to-stream";
        cfun = cfun_wl_event_loop_fd_to_stream J N L S;
        documentation =
            "(wl/wl-event-loop-fd-to-stream fd)\n\nRegisters a Wayland event loop file descriptor to the Janet event loop.";
      }
      ∷ record {
        name = "wl-event-loop-add-destroy-listener";
        cfun = cfun_wl_event_loop_add_destroy_listener J N;
        documentation =
            "(wl/wl-event-loop-add-destroy-listener wl-event-loop func)\n\nListens to the destroy event for the event loop.";
      }
      ∷ []

  abbrev pub display_cfuns : List (JanetReg (World W))
  display_cfuns =
      record {
        name = "wl-event-source-check";
        cfun = cfun_wl_event_source_check J H N;
        documentation =
            "(wl/wl-event-source-check event-source)\n\nSchedules an event source to be checked again by the event loop.";
      }
      ∷ record {
        name = "wl-event-source-remove";
        cfun = cfun_wl_event_source_remove J H N;
        documentation =
            "(wl/wl-event-source-remove event-source)\n\nRemoves an event source from the event loop.";
      }
      ∷ record {
        name = "wl-list-empty";
        cfun = cfun_wl_list_empty J N L;
        documentation = "(wl/wl-list-empty wl-list)\n\nCheck if a wl-list is empty.";
      }
      ∷ record {
        name = "wl-list-length";
        cfun = cfun_wl_list_length J N L;
        documentation = "(wl/wl-list-length wl-list)\n\nReturns the length of a wl-list.";
      }
      ∷ record {
        name = "wl-display-create";
        cfun = cfun_wl_display_create J N L;
        documentation = "(wl/wl-display-create)\n\nCreates a Wayland display object.";
      }
      ∷ record {
        name = "wl-display-terminate";
        cfun = cfun_wl_display_terminate J N L;
        documentation = "(wl/wl-display-terminate)\n\nStops a Wayland display event loop.";
      }
      ∷ record {
        name = "wl-display-destroy";
        cfun = cfun_wl_display_destroy J N L;
        documentation = "(wl/wl-display-destroy wl-display)\n\nDestroys a Wayland display object.";
      }
      ∷ record {
        name = "wl-display-destroy-clients";
        cfun = cfun_wl_display_destroy_clients J N L;
        documentation =
            "(wl/wl-display-destroy-clients wl-display)\n\nDestroys all clients connected to the Wayland display.";
      }
      ∷ record {
        name = "wl-display-run";
        cfun = cfun_wl_display_run J N L;
        documentation = "(wl/wl-display-run wl-display)\n\nRuns the Wayland event loop.";
      }
      ∷ record {
        name = "wl-display-add-socket-auto";
        cfun = cfun_wl_display_add_socket_auto J N L;
        documentation =
            "(wl/wl-display-add-socket-auto wl-display)\n\nAdds a Unix socket to the Wayland display.";
      }
      ∷ record {
        name = "wl-display-get-event-loop";
        cfun = cfun_wl_display_get_event_loop J N L;
        documentation =
            "(wl/wl-display-get-event-loop wl-display)\n\nRetrieves the Wayland event loop.";
      }
      ∷ record {
        name = "wl-display-flush-clients";
        cfun = cfun_wl_display_flush_clients J N L;
        documentation =
            "(wl/wl-display-flush-clients wl-display)\n\nFlushes all client connections.";
      }
      ∷ record {
        name = "wl-signal-add";
        cfun = cfun_wl_signal_add J N;
        documentation =
            "(wl/wl-signal-add wl-signal notify-fn)\n\nAdds a listener to a signal. Returns a new listener object which can be used to remove notify-fn from the signal.";
      }
      ∷ record {
        name = "wl-signal-remove";
        cfun = cfun_wl_signal_remove J N;
        documentation = "(wl/wl-signal-remove listener)\n\nRemoves a listener from a signal.";
      }
      ∷ record {
        name = "wl-signal-emit";
        cfun = cfun_wl_signal_emit J N;
        documentation = "(wl/wl-signal-emit wl-signal data)\n\nEmits a signal.";
      }
      ∷ []
