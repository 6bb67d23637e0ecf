-- ===== src/Wl/Tables.antt =====
-- The key tables of wl_abs_types.h, without their last row `{NULL, 0}`.
use janetland.Prelude.{ℕ, List, [], ◌∷◌, String}
use janetland.Headers.{Headers}

unfoldable pub posix_signal_rows : Headers → List (String × ℕ)
posix_signal_rows H =
    ("abrt", H.const "SIGABRT")
    ∷ ("alrm", H.const "SIGALRM")
    ∷ ("bus", H.const "SIGBUS")
    ∷ ("chld", H.const "SIGCHLD")
    ∷ ("cont", H.const "SIGCONT")
    ∷ ("fpe", H.const "SIGFPE")
    ∷ ("hup", H.const "SIGHUP")
    ∷ ("ill", H.const "SIGILL")
    ∷ ("int", H.const "SIGINT")
    ∷ ("kill", H.const "SIGKILL")
    ∷ ("pipe", H.const "SIGPIPE")
    ∷ ("quit", H.const "SIGQUIT")
    ∷ ("segv", H.const "SIGSEGV")
    ∷ ("stop", H.const "SIGSTOP")
    ∷ ("term", H.const "SIGTERM")
    ∷ ("tstp", H.const "SIGTSTP")
    ∷ ("ttin", H.const "SIGTTIN")
    ∷ ("ttou", H.const "SIGTTOU")
    ∷ ("usr1", H.const "SIGUSR1")
    ∷ ("usr2", H.const "SIGUSR2")
    ∷ ("poll", H.const "SIGPOLL")
    ∷ ("prof", H.const "SIGPROF")
    ∷ ("sys", H.const "SIGSYS")
    ∷ ("trap", H.const "SIGTRAP")
    ∷ ("urg", H.const "SIGURG")
    ∷ ("vtalrm", H.const "SIGVTALRM")
    ∷ ("xcpu", H.const "SIGXCPU")
    ∷ ("xfsz", H.const "SIGXFSZ")
    ∷ []

unfoldable pub wl_event_rows : Headers → List (String × ℕ)
wl_event_rows H =
    ("readable", H.const "WL_EVENT_READABLE")
    ∷ ("writable", H.const "WL_EVENT_WRITABLE")
    ∷ ("hangup", H.const "WL_EVENT_HANGUP")
    ∷ ("error", H.const "WL_EVENT_ERROR")
    ∷ []
