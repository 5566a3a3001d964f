-- ===== src/Daemon/Server/Capacity/Steps.antt =====
-- Each step of the server keeps the permits of every key (daemon/server.rs).
use mathlib.Core.Path.{subst}
use betterhook.Base.{
  ℕ, zero, suc, ◌+◌, ◌-◌, ◌≤◌, map, sym, ◌⊎◌, inl, inr, String, List, [], ◌∷◌, Option, none, some,
  Result, ok, err, ◌≡◌, refl, ap, arith, bit, All, get_elem?, modify,
}
use betterhook.Base.Saturation.{IsSaturated, if_fits-IsSaturated}
use betterhook.Lock.Protocol.{LockKey, LockToken, LockStatus, Request, key_eq}
use betterhook.Daemon.Semaphore.{Semaphore, Laws}
use betterhook.Daemon.Registry.{Slots, get_slot, modify_slot, slot_for, as_u32, status_of, snapshot}
use betterhook.Daemon.Server.{
  Connection, Server, remove_token, set_connection, handle_release, begin_acquire, handle_request,
  grant, time_out, close, accept, Step, Reached, accepts, requests, grants, times_out, closes,
  started, steps,
}
use betterhook.Daemon.Server.Capacity.{
  held_by, Counts, Fits, Fits-ext, Fits-drop_found, Fits-drop_all, Fits-grant, Fits-slot_for,
  get_slot-Counts, remove_token-held_by,
}

-- How many permits of the key all connections hold.
abbrev pub held_count : LockKey → List Connection → ℕ
held_count k [] = 0
held_count k (connection ∷ connections) = held_by k connection.held + held_count k connections

held_count-modify :
    (k : LockKey) (c : ℕ) (old new : Connection) (connections : List Connection)
    → get_elem? connections c ≡ some old
    → held_count k (modify (λ _. new) c connections) + held_by k old.held
      ≡ held_count k connections + held_by k new.held
held_count-modify k c old new [] h = cc h
held_count-modify k zero old new (x ∷ xs) h =
    let same : x ≡ old = cc h in omega (arith, ap (λ y. held_by k y.held) same)
held_count-modify k (suc c) old new (x ∷ xs) h = omega (arith, held_count-modify k c old new xs h)

held_by-le :
    (k : LockKey) (c : ℕ) (old : Connection) (connections : List Connection)
    → get_elem? connections c ≡ some old
    → held_by k old.held ≤ held_count k connections
held_by-le k c old [] h = cc h
held_by-le k zero old (x ∷ xs) h =
    let same : x ≡ old = cc h in omega (arith, ap (λ y. held_by k y.held) same)
held_by-le k (suc c) old (x ∷ xs) h = omega (arith, held_by-le k c old xs h)

module _ (semaphore : Semaphore) (laws : Laws semaphore) where
  -- The permits that all connections hold and those that are left make up the permits of each key.
  abbrev IsSound : Server semaphore → Type 0
  IsSound s = Fits semaphore laws (λ k. held_count k s.connections) s.slots

  begin_acquire-IsSound :
      (s : Server semaphore) (c : ℕ) (connection : Connection) (key : LockKey) (timeout_ms : ℕ)
      (r : Result String (Slots semaphore))
      → get_elem? s.connections c ≡ some connection
      → slot_for semaphore key s.slots ≡ r
      → IsSound s
      → IsSound (begin_acquire semaphore c connection key timeout_ms r s).0
  unfolding begin_acquire set_connection
  begin_acquire-IsSound s c connection key timeout_ms (err message) g e sound = sound
  begin_acquire-IsSound s c connection key timeout_ms (ok slots) g e sound =
      let waiting = record connection { waiting = some (key, timeout_ms) } in
      Fits-ext semaphore laws (λ k. held_count k s.connections) _ slots
        (λ k. omega (arith, held_count-modify k c connection waiting s.connections g))
        (Fits-slot_for semaphore laws (λ k. held_count k s.connections) key s.slots slots e sound)

  handle_release-IsSound :
      (s : Server semaphore) (c : ℕ) (connection : Connection) (token : LockToken)
      → get_elem? s.connections c ≡ some connection
      → IsSound s
      → IsSound (handle_release semaphore c connection token s)
  unfolding handle_release set_connection
  handle_release-IsSound s c connection token g sound =
      let (rest, found) = remove_token token connection.held in
      let after = record connection { held = rest } in
      Fits-drop_found semaphore laws (λ k. held_count k s.connections) _ found s.slots
        (λ k. omega (
          arith,
          held_count-modify k c connection after s.connections g,
          remove_token-held_by k token connection.held,
        ))
        sound

  handle_request-IsSound :
      (s : Server semaphore) (c : ℕ) (connection : Connection) (request : Request)
      → get_elem? s.connections c ≡ some connection
      → IsSound s
      → IsSound (handle_request semaphore c connection request s).0
  unfolding handle_request
  handle_request-IsSound s c connection (Request.hello client_version) g sound = sound
  handle_request-IsSound s c connection (Request.acquire key timeout_ms) g sound =
      begin_acquire-IsSound s c connection key timeout_ms (slot_for semaphore key s.slots) g refl
        sound
  handle_request-IsSound s c connection (Request.release token) g sound =
      handle_release-IsSound s c connection token g sound
  handle_request-IsSound s c connection Request.status g sound = sound
  handle_request-IsSound s c connection Request.ping g sound = sound

  grant-IsSound :
      (s : Server semaphore) (c : ℕ) (connection : Connection) (key : LockKey)
      (sem sem' : semaphore.S)
      → get_elem? s.connections c ≡ some connection
      → get_slot semaphore key s.slots ≡ some sem
      → semaphore.acquire sem ≡ some sem'
      → IsSound s
      → IsSound (grant semaphore c connection key sem' s).0
  unfolding grant set_connection
  grant-IsSound s c connection key sem sem' g e a sound =
      let token = s.next_token in
      let (rest, found) = remove_token token connection.held in
      let after = record connection { held = (token, key) ∷ rest; waiting = none } in
      Fits-drop_found semaphore laws (λ k. held_count k s.connections + bit (key_eq k key)) _ found
        (modify_slot semaphore key (λ _. sem') s.slots)
        (λ k. omega (
          arith,
          held_count-modify k c connection after s.connections g,
          remove_token-held_by k token connection.held,
        ))
        (Fits-grant semaphore laws (λ k. held_count k s.connections) _ key sem sem' s.slots
          (λ k. refl) e a sound)

  close-IsSound :
      (s : Server semaphore) (c : ℕ) (connection : Connection)
      → get_elem? s.connections c ≡ some connection
      → IsSound s
      → IsSound (close semaphore c connection s)
  unfolding close set_connection
  close-IsSound s c connection g sound =
      Fits-drop_all semaphore laws (λ k. held_count k s.connections) _ connection.held s.slots
        (λ k. omega (
          arith,
          held_count-modify k c connection (record { held = []; waiting = none }) s.connections g,
        ))
        sound

  time_out-IsSound :
      (s : Server semaphore) (c : ℕ) (connection : Connection)
      → get_elem? s.connections c ≡ some connection
      → IsSound s
      → IsSound (time_out semaphore c connection s).0
  unfolding time_out set_connection
  time_out-IsSound s c connection g sound =
      Fits-ext semaphore laws (λ k. held_count k s.connections) _ s.slots
        (λ k. omega (
          arith,
          held_count-modify k c connection (record connection { waiting = none }) s.connections g,
        ))
        sound

  Step-IsSound : (s t : Server semaphore) → Step semaphore s t → IsSound s → IsSound t
  unfolding accept
  Step-IsSound _ _ (accepts s) sound =
      Fits-ext semaphore laws (λ k. held_count k s.connections) _ s.slots (λ k. omega arith) sound
  Step-IsSound _ _ (requests s c connection request g w) sound =
      handle_request-IsSound s c connection request g sound
  Step-IsSound _ _ (grants s c connection key timeout_ms sem sem' g w e a) sound =
      grant-IsSound s c connection key sem sem' g e a sound
  Step-IsSound _ _ (times_out s c connection key timeout_ms g w z) sound =
      time_out-IsSound s c connection g sound
  Step-IsSound _ _ (closes s c connection g w) sound = close-IsSound s c connection g sound

  reached-IsSound : (s : Server semaphore) → Reached semaphore s → IsSound s
  reached-IsSound _ started = (tt, λ k h. refl)
  reached-IsSound _ (steps r s h step) = Step-IsSound r s step (reached-IsSound r h)

  -- In every state that the server comes to, whatever the connections ask and in whatever order: the
  -- connections together hold at most as many permits of a key as the key has.
  pub reached-held_le :
      (s : Server semaphore) (key : LockKey)
      → Reached semaphore s
      → held_count key s.connections ≤ key.permits
  reached-held_le s key h = at_slot (get_slot semaphore key s.slots) refl (reached-IsSound s h)
    where
      at_slot :
          (o : Option semaphore.S)
          → get_slot semaphore key s.slots ≡ o
          → IsSound s
          → held_count key s.connections ≤ key.permits
      at_slot none e (c, z) = omega (arith, z key e)
      at_slot (some sem) e (c, z) = omega (
        arith,
        get_slot-Counts semaphore laws (λ k. held_count k s.connections) key sem s.slots e c,
      )

  -- The snapshot has an entry for each slot, which shows the count of the slot's key.
  IsSnapshot : (LockKey → ℕ) → Slots semaphore → List LockStatus → Type 0
  IsSnapshot n slots statuses =
      (map (λ (st : LockStatus). st.key) statuses
        ≡ map (λ (slot : LockKey × semaphore.S). slot.0) slots)
      × All (λ (st : LockStatus). IsSaturated (n st.key) st.active_permits) statuses

  snapshot-IsSnapshot :
      (n : LockKey → ℕ) (slots : Slots semaphore)
      → Counts semaphore laws n slots
      → IsSnapshot n slots (snapshot semaphore slots)
  unfolding snapshot status_of as_u32 IsSnapshot
  snapshot-IsSnapshot n [] h = (refl, tt)
  snapshot-IsSnapshot n ((k, sem) ∷ slots) (h, hs) =
      let (keys, shown) = snapshot-IsSnapshot n slots hs in
      let count : n k ≡ k.permits - semaphore.available_permits sem = omega arith in
      (
        ap (λ ks. k ∷ ks) keys,
        (
          subst
              (λ m. IsSaturated m (as_u32 semaphore (k.permits - semaphore.available_permits sem)))
              (sym count) (if_fits-IsSaturated (k.permits - semaphore.available_permits sem)),
          shown,
        ),
      )

  unlisted_free :
      (n : LockKey → ℕ) (slots : Slots semaphore) (key : LockKey)
      → Fits semaphore laws n slots
      → ((sem : semaphore.S) × (get_slot semaphore key slots ≡ some sem)) ⊎ (n key ≡ 0)
  unlisted_free n slots key (c, z) = go (get_slot semaphore key slots) refl
    where
      go :
          (o : Option semaphore.S)
          → get_slot semaphore key slots ≡ o
          → ((sem : semaphore.S) × (get_slot semaphore key slots ≡ some sem)) ⊎ (n key ≡ 0)
      go none e = inr (z key e)
      go (some sem) e = inl (sem, e)

  -- A `Status` request lists the keys that have a semaphore, and shows for each as active exactly the
  -- permits of it that the connections hold, or the largest `u32` if these do not fit. Each key either
  -- has a semaphore, or no connection holds a permit of it.
  pub snapshot-held_count :
      (s : Server semaphore)
      → Reached semaphore s
      → (map (λ (st : LockStatus). st.key) (snapshot semaphore s.slots)
          ≡ map (λ (slot : LockKey × semaphore.S). slot.0) s.slots)
        × All
            (λ (st : LockStatus). IsSaturated (held_count st.key s.connections) st.active_permits)
            (snapshot semaphore s.slots)
        × ((key : LockKey)
            → ((sem : semaphore.S) × (get_slot semaphore key s.slots ≡ some sem))
              ⊎ (held_count key s.connections ≡ 0))
  unfolding IsSnapshot
  snapshot-held_count s h =
      let sound = reached-IsSound s h in
      let counts = λ (k : LockKey). held_count k s.connections in
      let (keys, shown) = snapshot-IsSnapshot counts s.slots sound.0 in
      (keys, shown, λ key. unlisted_free counts s.slots key sound)
