-- ===== src/Headers.antt =====
-- The numbers that headers outside the repository fix: those of wlroots, libwayland, xkbcommon, libxcb and
-- the C library.
use janetland.Prelude.{ℕ, String}

pub record Headers : Type 0 where
  -- the value of a named constant, and the offset of a member in a struct
  pub const : String → ℕ
  pub offsetof : String → String → ℕ
