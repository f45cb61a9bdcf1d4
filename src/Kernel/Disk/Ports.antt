-- ===== src/Kernel/Disk/Ports.antt =====
-- The I/O ports behind kernel/src/drivers/disk/ata_pio.rs: hardware, so an argument of the driver.
use yacuri.Base.{ℕ}

-- `Port<u8>` and `Port<u16>` of the x86_64 crate, over the state of the hardware.
pub record Ports : Type 1 where
  pub State : Type 0
  pub read_8 : ℕ → State → ℕ × State
  pub write_8 : ℕ → ℕ → State → State
  pub read_16 : ℕ → State → ℕ × State
  pub write_16 : ℕ → ℕ → State → State

-- What a driver's call does: it gives a value and the hardware's new state, it panics, or it is
-- still polling a status port when its polls are used up.
pub data Outcome (S : Type 0) (A : Type 0) : Type 0 where
  done : A → S → Outcome S A
  panicked polling : Outcome S A

abbrev pub Io : Type 0 → Type 0 → Type 0
Io S A = S → Outcome S A

module _ {S A B : Type 0} where
  abbrev pub bind : Outcome S A → (A → S → Outcome S B) → Outcome S B
  bind (done a s) f = f a s
  bind panicked f = panicked
  bind polling f = polling

  infixl 1 ◌>>=◌ ◌>>◌
  abbrev pub ◌>>=◌ : (S → Outcome S A) → (A → S → Outcome S B) → S → Outcome S B
  ◌>>=◌ m f s = bind (m s) f

  abbrev pub ◌>>◌ : (S → Outcome S A) → (S → Outcome S B) → S → Outcome S B
  ◌>>◌ m k s = bind (m s) (λ _. k)

abbrev pub pure : {S A : Type 0} → A → S → Outcome S A
pure a s = done a s
