-- ===== src/Bus.antt =====
-- The 32-bit memory-mapped bus that every driver talks to, and the state monad of driver code.
-- `sys_read32` and `sys_write32` are Zephyr's; here they are the two operations of a `Bus` over the
-- state `D` of the device behind it. A read may change the device.
use rv32imac_soc.Common.{ℕ}

pub record Bus (D : Type 0) : Type 0 where
  -- sys_read32(addr)
  pub read32 : ℕ → D → ℕ × D
  -- sys_write32(value, addr)
  pub write32 : ℕ → ℕ → D → D

-- Code that runs against a device and returns a value.
abbrev pub Exec : Type 0 → Type 0 → Type 0
Exec D A = D → A × D

infixl 5 ◌>>=◌ ◌>>◌
abbrev pub ◌>>=◌ : {D A B : Type 0} → (D → A × D) → (A → D → B × D) → D → B × D
◌>>=◌ m f d = let (a, d') = m d in f a d'

abbrev pub ◌>>◌ : {D B : Type 0} → (D → Unit {0} × D) → (D → B × D) → D → B × D
◌>>◌ m k d = let (a, d') = m d in k d'

abbrev pub pure : {D A : Type 0} → A → D → A × D
pure a d = (a, d)

-- Run an update of the device alone.
abbrev pub update : {D : Type 0} → (D → D) → D → Unit {0} × D
update f d = (tt, f d)
