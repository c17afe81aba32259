-- ===== src/Message/Float.antt =====
-- `float`, which the program takes from the machine: the operations that Room.cpp uses, and what
-- they are relied on for.
use jhshin_server.Common.{ℕ, ◌≡◌, Bool, List, length}

pub record Float : Type 1 where
  pub F : Type 0
  -- `0.0f`, and a number converted to `float`
  pub of_nat : ℕ → F
  pub add : F → F → F
  pub sub : F → F → F
  pub mul : F → F → F
  pub div : F → F → F
  -- `sqrtf`, `isfinite`, `a < b`, `a <= b`
  pub sqrt : F → F
  pub is_finite : F → Bool
  pub lt : F → F → Bool
  pub le : F → F → Bool
  -- the conversion to `uint64`, the four bytes in memory, and what four bytes in memory read as
  pub to_nat : F → ℕ
  pub bytes : F → List ℕ
  pub of_bytes : List ℕ → F
  pub length-bytes : (x : F) → length (bytes x) ≡ 4
