-- ===== src/Daemon/Server/Capacity.antt =====
-- The permits of a lock key: those that are held and those that are left are always the key's permits
-- (daemon/server.rs, daemon/registry.rs).
pub mod Steps
use mathlib.Core.Path.{subst}
use betterhook.Base.{
  ℕ, zero, suc, ◌+◌, ◌≤◌, String, List, [], ◌∷◌, Bool, true, false, Option, none, some, Result, ok,
  err, ◌≡◌, refl, sym, ap, ◌∙◌, arith, ◌==◌, if◌then◌else◌, bit, All, Bool-cases, inl, inr,
}
use betterhook.Lock.Protocol.{LockKey, LockToken, key_eq, key_eq-path}
use betterhook.Daemon.Semaphore.{Semaphore, Laws}
use betterhook.Daemon.Registry.{Slots, get_slot, modify_slot, new_slot, slot_for}
use betterhook.Daemon.Server.{drop_permit, drop_all, remove_token, drop_found}

-- How many of the permits are of the key.
abbrev pub held_by : LockKey → List (LockToken × LockKey) → ℕ
held_by k [] = 0
held_by k ((token, key) ∷ held) = bit (key_eq k key) + held_by k held

abbrev pub found_by : LockKey → Option LockKey → ℕ
found_by k none = 0
found_by k (some key) = bit (key_eq k key)

module _ (semaphore : Semaphore) (laws : Laws semaphore) where
  -- Where `n k` permits of each key `k` are held: these and the permits left make up the key's permits,
  -- and a key without a semaphore has no permit that is held.
  abbrev pub Counts : (LockKey → ℕ) → Slots semaphore → Type 0
  Counts n [] = Unit
  Counts n ((k, sem) ∷ slots) = (semaphore.available_permits sem + n k ≡ k.permits) × Counts n slots

  abbrev pub Fits : (LockKey → ℕ) → Slots semaphore → Type 0
  Fits n slots = Counts n slots × ((k : LockKey) → get_slot semaphore k slots ≡ none → n k ≡ 0)

  abbrev left : semaphore.S → ℕ
  left = semaphore.available_permits

  get_slot-modify_none :
      (k key : LockKey) (f : semaphore.S → semaphore.S) (slots : Slots semaphore)
      → get_slot semaphore k (modify_slot semaphore key f slots) ≡ none
      → get_slot semaphore k slots ≡ none
  unfolding get_slot modify_slot
  get_slot-modify_none k key f [] h = refl
  get_slot-modify_none k key f ((j, sem) ∷ slots) h =
      ground (arith, h, get_slot-modify_none k key f slots)

  Counts-ext :
      (n n' : LockKey → ℕ) (slots : Slots semaphore)
      → ((k : LockKey) → n k ≡ n' k)
      → Counts n slots
      → Counts n' slots
  Counts-ext n n' [] e h = tt
  Counts-ext n n' ((k, sem) ∷ slots) e (h, hs) = (omega (arith, e k), Counts-ext n n' slots e hs)

  pub Fits-ext :
      (n n' : LockKey → ℕ) (slots : Slots semaphore)
      → ((k : LockKey) → n k ≡ n' k)
      → Fits n slots
      → Fits n' slots
  Fits-ext n n' slots e (c, z) = (Counts-ext n n' slots e c, λ k h. sym (e k) ∙ z k h)

  Counts-drop :
      (n n' : LockKey → ℕ) (key : LockKey) (slots : Slots semaphore)
      → ((k : LockKey) → n k ≡ n' k + bit (key_eq k key))
      → Counts n slots
      → Counts n' (drop_permit semaphore key slots)
  unfolding drop_permit modify_slot
  Counts-drop n n' key [] e h = tt
  Counts-drop n n' key ((k, sem) ∷ slots) e (h, hs) =
      (ground (arith, e k, laws.available-release sem, h), Counts-drop n n' key slots e hs)

  pub Fits-drop :
      (n n' : LockKey → ℕ) (key : LockKey) (slots : Slots semaphore)
      → ((k : LockKey) → n k ≡ n' k + bit (key_eq k key))
      → Fits n slots
      → Fits n' (drop_permit semaphore key slots)
  unfolding drop_permit
  Fits-drop n n' key slots e (c, z) = (
    Counts-drop n n' key slots e c,
    λ k h. omega (arith, e k, z k (get_slot-modify_none k key semaphore.release slots h)),
  )

  pub Fits-drop_found :
      (n n' : LockKey → ℕ) (found : Option LockKey) (slots : Slots semaphore)
      → ((k : LockKey) → n k ≡ n' k + found_by k found)
      → Fits n slots
      → Fits n' (drop_found semaphore found slots)
  unfolding drop_found
  Fits-drop_found n n' none slots e f = Fits-ext n n' slots (λ k. omega (arith, e k)) f
  Fits-drop_found n n' (some key) slots e f = Fits-drop n n' key slots e f

  pub Fits-drop_all :
      (n n' : LockKey → ℕ) (held : List (LockToken × LockKey)) (slots : Slots semaphore)
      → ((k : LockKey) → n k ≡ n' k + held_by k held)
      → Fits n slots
      → Fits n' (drop_all semaphore held slots)
  unfolding drop_all
  Fits-drop_all n n' [] slots e f = Fits-ext n n' slots (λ k. omega (arith, e k)) f
  Fits-drop_all n n' ((token, key) ∷ held) slots e f =
      Fits-drop_all (λ k. n' k + held_by k held) n' held (drop_permit semaphore key slots)
        (λ k. refl) (Fits-drop n (λ k. n' k + held_by k held) key slots (λ k. omega (arith, e k)) f)

  pub get_slot-Counts :
      (n : LockKey → ℕ) (key : LockKey) (sem : semaphore.S) (slots : Slots semaphore)
      → get_slot semaphore key slots ≡ some sem
      → Counts n slots
      → left sem + n key ≡ key.permits
  unfolding get_slot
  get_slot-Counts n key sem [] e h = cc e
  get_slot-Counts n key sem ((k, s) ∷ slots) e (h, hs) = elim (Bool-cases (key_eq k key)) [
    | inl same ↦
        let p = key_eq-path k key same in
        let here : left s + n key ≡ key.permits = subst (λ j. left s + n j ≡ j.permits) p h in
        ground (arith, e, same, here)
    | inr other ↦ get_slot-Counts n key sem slots (cc (e, other)) hs
  ]

  Counts-grant :
      (n n' : LockKey → ℕ) (key : LockKey) (sem : semaphore.S) (slots : Slots semaphore)
      → ((k : LockKey) → n' k ≡ n k + bit (key_eq k key))
      → suc (left sem) + n key ≡ key.permits
      → Counts n slots
      → Counts n' (modify_slot semaphore key (λ _. sem) slots)
  unfolding modify_slot
  Counts-grant n n' key sem [] e g h = tt
  Counts-grant n n' key sem ((k, s) ∷ slots) e g (h, hs) = (
    elim (Bool-cases (key_eq k key)) [
      | inl same ↦
          let p = key_eq-path k key same in
          let here : suc (left sem) + n k ≡ k.permits =
            subst (λ j. suc (left sem) + n j ≡ j.permits) (sym p) g in
          ground (arith, same, here, e k)
      | inr other ↦ ground (arith, other, h, e k)
    ],
    Counts-grant n n' key sem slots e g hs,
  )

  pub Fits-grant :
      (n n' : LockKey → ℕ) (key : LockKey) (sem sem' : semaphore.S) (slots : Slots semaphore)
      → ((k : LockKey) → n' k ≡ n k + bit (key_eq k key))
      → get_slot semaphore key slots ≡ some sem
      → semaphore.acquire sem ≡ some sem'
      → Fits n slots
      → Fits n' (modify_slot semaphore key (λ _. sem') slots)
  Fits-grant n n' key sem sem' slots e g a (c, z) =
      let enough = get_slot-Counts n key sem slots g c in
      (
        Counts-grant n n' key sem' slots e (omega (arith, laws.available-acquire sem sem' a)) c,
        λ k h.
            let missing = get_slot-modify_none k key (λ _. sem') slots h in
            elim (Bool-cases (key_eq k key)) [
              | inl same ↦ cc (missing, g, key_eq-path k key same)
              | inr other ↦ ground (arith, other, e k, z k missing)
            ],
      )

  Fits-new :
      (n : LockKey → ℕ) (key : LockKey) (slots slots' : Slots semaphore)
      → n key ≡ 0
      → new_slot semaphore key slots ≡ ok slots'
      → Fits n slots
      → Fits n slots'
  unfolding new_slot get_slot
  Fits-new n key slots slots' z e (c, zs) = elim (Bool-cases (key.permits == 0)) [
    | inl zero_permits ↦ absurd (ground (arith, e, zero_permits))
    | inr some_permits ↦
        let made : (key, semaphore.new key.permits) ∷ slots ≡ slots' = cc (e, some_permits) in
        subst (Fits n) made
          ((omega (arith, z, laws.available-new key.permits), c), λ k h. zs k (ground (arith, h)))
  ]

  pub Fits-slot_for :
      (n : LockKey → ℕ) (key : LockKey) (slots slots' : Slots semaphore)
      → slot_for semaphore key slots ≡ ok slots'
      → Fits n slots
      → Fits n slots'
  unfolding slot_for
  Fits-slot_for n key slots slots' e f = found (get_slot semaphore key slots) refl e
    where
      found :
          (o : Option semaphore.S)
          → get_slot semaphore key slots ≡ o
          → elim o [ none ↦ new_slot semaphore key slots | some sem ↦ ok slots ] ≡ ok slots'
          → Fits n slots'
      found none m e' = Fits-new n key slots slots' (f.1 key m) e' f
      found (some sem) m e' = subst (Fits n) (cc e') f

pub remove_token-held_by :
    (k : LockKey) (token : LockToken) (held : List (LockToken × LockKey))
    → held_by k held
      ≡ held_by k (remove_token token held).0 + found_by k (remove_token token held).1
unfolding remove_token
remove_token-held_by k token [] = refl
remove_token-held_by k token ((t, key) ∷ held) = ground (arith, remove_token-held_by k token held)
