-- ===== src/Daemon/Registry.antt =====
-- apps/betterhook/src/daemon/registry.rs: a semaphore for each lock key. The map is a list of its
-- entries.
use betterhook.Base.{
  ℕ, ◌-◌, String, List, [], ◌∷◌, Option, none, some, Result, ok, err, ltb, ◌==◌, if◌then◌else◌,
}
use betterhook.Lock.Protocol.{LockKey, key_eq, LockStatus}
use betterhook.Daemon.Semaphore.{Semaphore}

module _ (semaphore : Semaphore) where
  abbrev pub Slots : Type 0
  Slots = List (LockKey × semaphore.S)

  -- `slots.get(key)`
  unfoldable pub get_slot : LockKey → Slots → Option semaphore.S
  get_slot key [] = none
  get_slot key ((k, sem) ∷ slots) =
      let rest = get_slot key slots in if key_eq k key then some sem else rest

  -- What happens to the semaphore that a key's entry shares with its permits.
  unfoldable pub modify_slot : LockKey → (semaphore.S → semaphore.S) → Slots → Slots
  modify_slot key f [] = []
  modify_slot key f ((k, sem) ∷ slots) =
      (k, if key_eq k key then f sem else sem) ∷ modify_slot key f slots

  unfoldable pub new_slot : LockKey → Slots → Result String Slots
  new_slot key slots =
      if key.permits == 0
      then err "lock permits must be > 0"
      else ok ((key, semaphore.new key.permits) ∷ slots)

  -- `Registry::semaphore`: the slots in which the key has a semaphore.
  unfoldable pub slot_for : LockKey → Slots → Result String Slots
  slot_for key slots = elim (get_slot key slots) [ none ↦ new_slot key slots | some sem ↦ ok slots ]

  -- `u32::try_from(n).unwrap_or(u32::MAX)`
  unfoldable pub as_u32 : ℕ → ℕ
  as_u32 n = if ltb n 4294967296 then n else 4294967295

  unfoldable pub status_of : LockKey × semaphore.S → LockStatus
  status_of (key, sem) = record {
    key = key;
    active_permits = as_u32 (key.permits - semaphore.available_permits sem);
    waiters = 0;
  }

  unfoldable pub snapshot : Slots → List LockStatus
  snapshot [] = []
  snapshot (slot ∷ slots) = status_of slot ∷ snapshot slots
