-- ===== src/Lock/Protocol.antt =====
-- apps/betterhook/src/lock/protocol.rs. The body of a frame is what the bincode crate makes of the
-- message.
use text.Mathlib.Text.{◌==◌ as str_eq}
use text.Mathlib.TextEquality.{eq_iff}
use betterhook.Base.{
  ℕ, ◌%◌, String, List, [], ◌∷◌, ◌++◌, Bool, true, false, ◌&&◌, Option, none, some, Result, ok, err,
  ◌≡◌, refl, arith, ltb, ◌==◌, if◌then◌else◌, length,
}
use Prim.Native.Nat.{◌/◌, ◌^◌}

abbrev pub protocol_version : ℕ
protocol_version = 1

pub data Scope : Type 0 where
  tool tool_path : Scope

pub record LockKey : Type 0 where
  pub scope : Scope
  pub name : String
  pub permits : ℕ

abbrev pub LockToken : Type 0
LockToken = ℕ

pub data Request : Type 0 where
  hello : (client_version : ℕ) → Request
  acquire : (key : LockKey) (timeout_ms : ℕ) → Request
  release : (token : LockToken) → Request
  status : Request
  ping : Request

pub record LockStatus : Type 0 where
  pub key : LockKey
  pub active_permits : ℕ
  pub waiters : ℕ

pub data Response : Type 0 where
  hello : (server_version : ℕ) → Response
  granted : (token : LockToken) → Response
  timeout : Response
  released : Response
  pong : Response
  status : (locks : List LockStatus) → Response
  error : (message : String) → Response

abbrev scope_eq : Scope → Scope → Bool
scope_eq tool tool = true
scope_eq tool tool_path = false
scope_eq tool_path tool = false
scope_eq tool_path tool_path = true

-- The derived `PartialEq` of `LockKey`: the permits count too.
unfoldable pub key_eq : LockKey → LockKey → Bool
key_eq a b = scope_eq a.scope b.scope && (str_eq a.name b.name && a.permits == b.permits)

scope_eq-path : (a b : Scope) → scope_eq a b ≡ true → a ≡ b
scope_eq-path tool tool h = refl
scope_eq-path tool tool_path h = cc h
scope_eq-path tool_path tool h = cc h
scope_eq-path tool_path tool_path h = refl

pub key_eq-permits : (a b : LockKey) → key_eq a b ≡ true → a.permits ≡ b.permits
unfolding key_eq
key_eq-permits a b h = ground arith

pub key_eq-path : (a b : LockKey) → key_eq a b ≡ true → a ≡ b
unfolding key_eq
key_eq-path a b h =
    let s : a.scope ≡ b.scope = scope_eq-path a.scope b.scope (ground (arith, h)) in
    let n : a.name ≡ b.name = ground (arith, h, eq_iff a.name b.name) in
    let p = key_eq-permits a b h in λ i. record { scope = s i; name = n i; permits = p i }

-- The length of a frame as four bytes, the highest first.
unfoldable pub to_be_bytes : ℕ → List ℕ
to_be_bytes n = n / 16777216 % 256 ∷ n / 65536 % 256 ∷ n / 256 % 256 ∷ n % 256 ∷ []

-- `none` for a frame that is larger than 4 GiB, where the code panics.
unfoldable pub encode_frame {ℓ} :
    {T : Type ℓ} {E : Type 0} → (T → Result E (List ℕ)) → T → Option (Result E (List ℕ))
encode_frame encode_to_vec msg = elim (encode_to_vec msg) [
  | err e ↦ some (err e)
  | ok body ↦
      if ltb (length body) (2 ^ 32) then some (ok (to_be_bytes (length body) ++ body)) else none
]
