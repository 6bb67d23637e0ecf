-- ===== src/Wlr/Log/Rooted.antt =====
-- The root of the log callback: Janet must not collect the function that wlroots may call.
use janetland.Prelude.{
  Bool, ℕ, zero, suc, ◌+◌, ◌≡◌, refl, ◌∙◌, true, false, some, List, ◌==◌, if◌then◌else◌, arith,
}
use janetland.Janet.{Janet, Value, function, ◌>>=◌ as bind, arg}
use janetland.Headers.{Headers}
use janetland.Action.{lift-keeps}
use janetland.Wl.{Host, count_if}
use janetland.Wlr.Log.{Log, Logger, arity, optfunction, set_callback, cfun_wlr_log_init}

module _ {W : Type 0} (J : Janet) (H : Headers) (N : Host W) (O : Logger N) where
  -- The root that the callback of the moment has.
  abbrev pub own_root : ℕ → Value → ℕ
  own_root zero u = 0
  own_root (suc f) u = count_if (N.same (function (suc f)) u)

  -- Each value is rooted as often as others rooted it, and once more if it is the callback.
  abbrev pub IsRooted : (Value → ℕ) → Log W → Type 0
  IsRooted others s = (u : Value) → N.roots s.outside u ≡ others u + own_root s.callback_fn u

  suc_differs : (n : ℕ) → (suc n == 0) ≡ false
  suc_differs n = ground arith

  given_back :
      (others : Value → ℕ) (old : ℕ) (w : W) (u : Value)
      → N.roots w u ≡ others u + own_root old u
      → N.roots (if old == 0 then w else N.gcunroot (function old) w) u ≡ others u
  given_back others zero w u h = omega (arith, h)
  given_back others (suc f) w u h =
      rw (suc_differs f, N.roots-gcunroot (function (suc f)) u w) (omega (arith, h))

  set_callback-IsRooted :
      (others : Value → ℕ) (cb : ℕ) (s : Log W)
      → IsRooted others s
      → IsRooted others (set_callback J H N O cb s)
  unfolding set_callback
  set_callback-IsRooted others zero s h u = h u
  set_callback-IsRooted others (suc cb) s h u =
      let w : W =
        (if s.callback_fn == 0 then s.outside else N.gcunroot (function s.callback_fn) s.outside) in
      rw
        (
          suc_differs cb,
          N.roots-gcroot (function (suc cb)) u w,
          given_back others s.callback_fn s.outside u (h u),
        )
        refl

  configured :
      (others : Value → ℕ) (verbosity cb : ℕ) (b : Bool) (s : Log W)
      → IsRooted others s
      → IsRooted others (record (set_callback J H N O cb s) {
        outside = O.log_init verbosity b (set_callback J H N O cb s).outside;
      })
  configured others verbosity cb b s h u =
      rw (O.roots-log_init verbosity b (set_callback J H N O cb s).outside)
        (set_callback-IsRooted others cb s h u)

  -- A call of `wlr-log-init` that panics changes nothing, and one that returns leaves the roots of others
  -- as they were, the new callback with a root and the old one without.
  log_init-IsRooted :
      (others : Value → ℕ) (argv : List Value) (s : Log W)
      → IsRooted others s
      → IsRooted others (cfun_wlr_log_init J H N O argv s).1
  unfolding cfun_wlr_log_init
  log_init-IsRooted others argv s h =
      lift-keeps (IsRooted others) (arity argv 1 (some 2)) _ s h (λ done.
        lift-keeps (IsRooted others) (bind (arg argv 0) _) _ s h (λ verbosity.
          lift-keeps (IsRooted others) (optfunction J argv 1) _ s h
            (λ cb. configured others verbosity cb (if cb == 0 then false else true) s h)))

  -- A run: calls of `wlr-log-init` with any arguments, and steps of Janet and wlroots that change no count.
  pub data Reaches (s : Log W) : Log W → Type 0 where
    start : Reaches s s
    configure :
        {t : Log W} (argv : List Value)
        → Reaches s t
        → Reaches s (cfun_wlr_log_init J H N O argv t).1
    elsewhere :
        {t : Log W} (w : W)
        → ((u : Value) → N.roots w u ≡ N.roots t.outside u)
        → Reaches s t
        → Reaches s (record t { outside = w })

  Reaches-IsRooted :
      (others : Value → ℕ) {s t : Log W} → Reaches s t → IsRooted others s → IsRooted others t
  Reaches-IsRooted others start h = h
  Reaches-IsRooted others (configure argv r) h =
      log_init-IsRooted others argv _ (Reaches-IsRooted others r h)
  Reaches-IsRooted others (elsewhere w same r) h = λ u. same u ∙ Reaches-IsRooted others r h u

  -- However often `wlr-log-init` is called, with whatever arguments, from a state without a callback: every
  -- value is rooted as often as at the start, but the function that is the callback then, which has
  -- exactly one root more. So no callback of before keeps a root.
  pub Reaches-roots :
      {s t : Log W} (u : Value)
      → Reaches s t
      → s.callback_fn ≡ 0
      → N.roots t.outside u ≡ N.roots s.outside u + own_root t.callback_fn u
  Reaches-roots {s = s} u r none_set =
      Reaches-IsRooted (N.roots s.outside) r (λ v. rw none_set (omega arith)) u
