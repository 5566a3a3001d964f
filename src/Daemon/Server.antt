-- ===== src/Daemon/Server.antt =====
-- apps/betterhook/src/daemon/server.rs, `handle_connection` and `handle_acquire`: the requests of all
-- connections in any order. A connection that waits for a permit takes no other request.
pub mod Capacity
use betterhook.Base.{
  ℕ, suc, ◌+◌, ◌%◌, String, List, [], ◌∷◌, Bool, true, false, not, Option, none, some, Result, ok,
  err, ◌≡◌, ◌==◌, if◌then◌else◌, get_elem?, modify,
}
use Prim.Native.Nat.{◌^◌}
use betterhook.Lock.Protocol.{protocol_version, LockKey, LockToken, Request, Response, key_eq}
use betterhook.Daemon.Semaphore.{Semaphore}
use betterhook.Daemon.Registry.{Slots, get_slot, modify_slot, slot_for, snapshot}

-- A connection: the permits that it holds by token, and the request that it waits for.
pub record Connection : Type 0 where
  pub held : List (LockToken × LockKey)
  pub waiting : Option (LockKey × ℕ)

pub record Server (semaphore : Semaphore) : Type 0 where
  pub slots : Slots semaphore
  pub next_token : ℕ
  pub connections : List Connection

abbrev no_connection : Connection
no_connection = record { held = []; waiting = none }

-- `held.remove(&token)`: what is left, and the key of the permit that is dropped.
unfoldable pub remove_token :
    LockToken → List (LockToken × LockKey) → List (LockToken × LockKey) × Option LockKey
remove_token token [] = ([], none)
remove_token token ((t, key) ∷ held) =
    let (rest, found) = remove_token token held in
    if t == token then (held, some key) else ((t, key) ∷ rest, found)

module _ (semaphore : Semaphore) where
  -- A permit is dropped.
  unfoldable pub drop_permit : LockKey → Slots semaphore → Slots semaphore
  drop_permit key slots = modify_slot semaphore key semaphore.release slots

  unfoldable pub drop_all : List (LockToken × LockKey) → Slots semaphore → Slots semaphore
  drop_all [] slots = slots
  drop_all ((token, key) ∷ held) slots = drop_all held (drop_permit key slots)

  unfoldable pub drop_found : Option LockKey → Slots semaphore → Slots semaphore
  drop_found none slots = slots
  drop_found (some key) slots = drop_permit key slots

  unfoldable pub set_connection : ℕ → Connection → Server semaphore → Server semaphore
  set_connection c connection s = record s {
    connections = modify (λ _. connection) c s.connections;
  }

  -- `Request::Release`
  unfoldable pub handle_release : ℕ → Connection → LockToken → Server semaphore → Server semaphore
  handle_release c connection token s =
      let (rest, found) = remove_token token connection.held in
      set_connection c (record connection { held = rest })
        (record s { slots = drop_found found s.slots })

  -- `handle_acquire` up to where it waits; an error is answered at once.
  unfoldable pub begin_acquire :
      ℕ
      → Connection
      → LockKey
      → ℕ
      → Result String (Slots semaphore)
      → Server semaphore
      → Server semaphore × Option Response
  begin_acquire c connection key timeout_ms (err message) s = (s, some (Response.error message))
  begin_acquire c connection key timeout_ms (ok slots) s = (
    set_connection c (record connection { waiting = some (key, timeout_ms) })
        (record s { slots = slots }),
    none,
  )

  -- The `match` on a request; without a response the connection waits for a permit.
  unfoldable pub handle_request :
      ℕ → Connection → Request → Server semaphore → Server semaphore × Option Response
  handle_request c connection (Request.hello client_version) s =
      (s, some (Response.hello protocol_version))
  handle_request c connection Request.ping s = (s, some Response.pong)
  handle_request c connection Request.status s =
      (s, some (Response.status (snapshot semaphore s.slots)))
  handle_request c connection (Request.acquire key timeout_ms) s =
      begin_acquire c connection key timeout_ms (slot_for semaphore key s.slots) s
  handle_request c connection (Request.release token) s =
      (handle_release c connection token s, some Response.released)

  -- The rest of `handle_acquire` once the semaphore has granted a permit and is left as `sem`: the
  -- permit is inserted under the next token, in place of one that has the same token.
  unfoldable pub grant :
      ℕ → Connection → LockKey → semaphore.S → Server semaphore → Server semaphore × Response
  grant c connection key sem s =
      let token = s.next_token in
      let (rest, found) = remove_token token connection.held in
      let slots = modify_slot semaphore key (λ _. sem) s.slots in
      let connection' = record connection { held = (token, key) ∷ rest; waiting = none } in
      (
        set_connection c connection'
            (record s { slots = drop_found found slots; next_token = suc token % 2 ^ 64 }),
        Response.granted token,
      )

  unfoldable pub time_out : ℕ → Connection → Server semaphore → Server semaphore × Response
  time_out c connection s =
      (set_connection c (record connection { waiting = none }) s, Response.timeout)

  -- The end of a connection drops its permits.
  unfoldable pub close : ℕ → Connection → Server semaphore → Server semaphore
  close c connection s =
      set_connection c no_connection (record s { slots = drop_all connection.held s.slots })

  unfoldable pub accept : Server semaphore → Server semaphore
  accept s = record s { connections = no_connection ∷ s.connections }

  abbrev pub start : Server semaphore
  start = record { slots = []; next_token = 1; connections = [] }

  -- What may happen next, whichever connection it happens to.
  pub data Step : Server semaphore → Server semaphore → Type 0 where
    accepts : (s : Server semaphore) → Step s (accept s)
    requests :
        (s : Server semaphore) (c : ℕ) (connection : Connection) (request : Request)
        → get_elem? s.connections c ≡ some connection
        → connection.waiting ≡ none
        → Step s (handle_request c connection request s).0
    grants :
        (s : Server semaphore) (c : ℕ) (connection : Connection) (key : LockKey) (timeout_ms : ℕ)
        (sem sem' : semaphore.S)
        → get_elem? s.connections c ≡ some connection
        → connection.waiting ≡ some (key, timeout_ms)
        → get_slot semaphore key s.slots ≡ some sem
        → semaphore.acquire sem ≡ some sem'
        → Step s (grant c connection key sem' s).0
    times_out :
        (s : Server semaphore) (c : ℕ) (connection : Connection) (key : LockKey) (timeout_ms : ℕ)
        → get_elem? s.connections c ≡ some connection
        → connection.waiting ≡ some (key, timeout_ms)
        → timeout_ms == 0 ≡ false
        → Step s (time_out c connection s).0
    closes :
        (s : Server semaphore) (c : ℕ) (connection : Connection)
        → get_elem? s.connections c ≡ some connection
        → connection.waiting ≡ none
        → Step s (close c connection s)

  pub data Reached : Server semaphore → Type 0 where
    started : Reached start
    steps : (s t : Server semaphore) → Reached s → Step s t → Reached t
