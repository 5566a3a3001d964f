-- ===== src/Daemon/Tests.antt =====
-- The lock server with a counter as its semaphore: two connections ask for the one permit of a key.
use betterhook.Base.{
  ◌⊎◌, map, ℕ, zero, suc, ◌≤◌, [], ◌∷◌, Option, none, some, ◌≡◌, refl, arith, All,
}
use betterhook.Base.Saturation.{IsSaturated}
use betterhook.Lock.Protocol.{Scope, LockKey, LockStatus, Request, key_eq}
use betterhook.Daemon.Semaphore.{Semaphore, Laws}
use betterhook.Daemon.Registry.{get_slot, modify_slot, new_slot, slot_for, snapshot}
use betterhook.Daemon.Server.{
  Connection, Server, remove_token, drop_found, set_connection, begin_acquire, handle_request,
  grant, accept, start, Reached, accepts, requests, grants, started, steps,
}
use betterhook.Daemon.Server.Capacity.Steps.{held_count, reached-held_le, snapshot-held_count}

abbrev take : ℕ → Option ℕ
take zero = none
take (suc n) = some n

abbrev counter : Semaphore
counter = record { S = ℕ; new = λ n. n; available_permits = λ n. n; acquire = take; release = suc }

take_lem : (s t : ℕ) → take s ≡ some t → s ≡ suc t
take_lem zero t e = cc e
take_lem (suc s) t e = ground (arith, e)

counter-Laws : Laws counter
counter-Laws = record {
  available-new = λ n. refl;
  available-acquire = take_lem;
  available-release = λ n. refl;
}

abbrev eslint : LockKey
eslint = record { scope = Scope.tool; name = "eslint"; permits = 1 }

abbrev idle : Connection
idle = record { held = []; waiting = none }

abbrev waits : Connection
waits = record { held = []; waiting = some (eslint, 0) }

abbrev holds : Connection
holds = record { held = (1, eslint) ∷ []; waiting = none }

-- The second connection has the permit, and the first waits for it.
abbrev busy : Server counter
busy = record { slots = (eslint, 0) ∷ []; next_token = 2; connections = waits ∷ holds ∷ [] }

Reached-busy : Reached counter busy
unfolding accept handle_request begin_acquire slot_for get_slot new_slot key_eq set_connection grant
    remove_token modify_slot drop_found
Reached-busy =
    steps _ _
      (steps _ _
        (steps _ _
          (steps _ _ (steps _ _ started (accepts (start counter)))
            (accepts (accept counter (start counter))))
          (requests (accept counter (accept counter (start counter))) 1 idle
            (Request.acquire eslint 0) refl refl))
        (grants
          (record { slots = (eslint, 1) ∷ []; next_token = 1; connections = idle ∷ waits ∷ [] }) 1
          waits eslint 0 1 0 refl refl refl refl))
      (requests
        (record { slots = (eslint, 0) ∷ []; next_token = 2; connections = idle ∷ holds ∷ [] }) 0
        idle (Request.acquire eslint 0) refl refl)

reached-held_le_example : held_count eslint busy.connections ≤ 1
reached-held_le_example = reached-held_le counter counter-Laws busy eslint Reached-busy

snapshot-held_count_example :
    (map (λ (st : LockStatus). st.key) (snapshot counter busy.slots) ≡ eslint ∷ [])
    × All
        (λ (st : LockStatus). IsSaturated (held_count st.key busy.connections) st.active_permits)
        (snapshot counter busy.slots)
    × ((key : LockKey)
        → ((sem : ℕ) × (get_slot counter key busy.slots ≡ some sem))
          ⊎ (held_count key busy.connections ≡ 0))
snapshot-held_count_example = snapshot-held_count counter counter-Laws busy Reached-busy
