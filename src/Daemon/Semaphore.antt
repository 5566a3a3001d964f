-- ===== src/Daemon/Semaphore.antt =====
-- The semaphore of the tokio crate as the daemon uses it: `new`, the permits that are left, a permit
-- taken if one is left, and one given back when an `OwnedSemaphorePermit` is dropped.
use betterhook.Base.{ℕ, suc, Option, some, ◌≡◌}

pub record Semaphore : Type 1 where
  pub S : Type 0
  pub new : ℕ → S
  pub available_permits : S → ℕ
  pub acquire : S → Option S
  pub release : S → S

-- What tokio documents: the permits are counted, and one is granted only if one is left.
pub record Laws (semaphore : Semaphore) : Type 0 where
  pub available-new : (n : ℕ) → semaphore.available_permits (semaphore.new n) ≡ n
  pub available-acquire :
      (s t : semaphore.S)
      → semaphore.acquire s ≡ some t
      → semaphore.available_permits s ≡ suc (semaphore.available_permits t)
  pub available-release :
      (s : semaphore.S)
      → semaphore.available_permits (semaphore.release s) ≡ suc (semaphore.available_permits s)
