-- ===== src/Dns.antt =====
-- The DNS proxy of src/dnsd: what its parts share.
pub mod Name
pub mod Message
pub mod Response
pub mod Domain
pub mod Static
pub mod Cache
pub mod Proxy
mod Examples
use fastrg_node.Base.{
  ℕ, zero, suc, ◌+◌, ◌%◌, ◌≤◌, List, [], ◌∷◌, Bool, true, false, Option, none, some, get_elem?,
  length, take, drop, leb, if◌then◌else◌,
}

-- What a call that reads a packet ends in. `rejected`: it returns 0 or ERROR. `fault`: it reads or
-- writes out of bounds. `stuck`: the fuel of a loop ran out.
pub data Result {ℓ} (A : Type ℓ) : Type ℓ where
  ok : A → Result A
  rejected : Result A
  fault : Result A
  stuck : Result A

infixl 5 ◌>>=◌ ◌>>◌
abbrev pub ◌>>=◌ {ℓ κ} : {A : Type ℓ} {B : Type κ} → Result A → (A → Result B) → Result B
ok a >>= f = f a
rejected >>= f = rejected
fault >>= f = fault
stuck >>= f = stuck

abbrev pub ◌>>◌ {ℓ} : {B : Type ℓ} → Result (Unit {0}) → Result B → Result B
m >> k = m >>= λ _. k

-- `if (!b) return 0;`
abbrev pub guard : Bool → Result (Unit {0})
guard true = ok tt
guard false = rejected

-- A C object of `n` bytes is not left.
abbrev pub within : Bool → Result (Unit {0})
within true = ok tt
within false = fault

abbrev pub u16 : ℕ → ℕ
u16 x = x % 65536

-- pkt[i]
unfoldable pub read : List ℕ → ℕ → Result ℕ
read pkt i = elim (get_elem? pkt i) [ none ↦ fault | some b ↦ ok b ]

-- The `n` bytes from `pkt + pos`, as memcpy reads them.
unfoldable pub read_bytes : List ℕ → ℕ → ℕ → Result (List ℕ)
read_bytes pkt pos n = do within (leb (pos + n) (length pkt)); ok (take n (drop pos pkt))

-- The call returns, and what it returns satisfies `P`.
abbrev pub Safe {ℓ} : {A : Type ℓ} → (A → Type 0) → Result A → Type 0
Safe P (ok a) = P a
Safe P rejected = Unit {0}
Safe P fault = ⊥
Safe P stuck = ⊥

pub Safe-bind {ℓ κ} :
    {A : Type ℓ} {B : Type κ} (P : A → Type 0) (Q : B → Type 0) (m : Result A) (f : A → Result B)
    → Safe P m
    → ((a : A) → P a → Safe Q (f a))
    → Safe Q (m >>= f)
Safe-bind P Q (ok a) f h k = k a h
Safe-bind P Q rejected f h k = tt
Safe-bind P Q fault f h k = absurd h
Safe-bind P Q stuck f h k = absurd h
