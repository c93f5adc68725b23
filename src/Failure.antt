-- ===== src/Failure.antt =====
-- ffi/src/lib.rs, the status codes and `Failure`: what an entry point's body returns before `guard`
-- turns it into what C sees. A detail is the list of its bytes.
pub mod Checked
use go_regolith.Base.{◌⊎◌, inl, inr, ℕ, ◌≡◌, refl, Option, none, some, List}
use go_regolith.Base.Text.{codes}

abbrev pub Bytes : Type 0
Bytes = List ℕ

abbrev pub success : ℕ
success = 0

abbrev pub not_found : ℕ
not_found = 1

abbrev pub db_closed : ℕ
db_closed = 2

abbrev pub txn_conflict : ℕ
txn_conflict = 3

abbrev pub read_only_txn : ℕ
read_only_txn = 4

abbrev pub discarded : ℕ
discarded = 5

abbrev pub invalid_argument : ℕ
invalid_argument = 6

abbrev pub panicked : ℕ
panicked = 7

abbrev pub other_failure : ℕ
other_failure = 8

pub record Failure : Type 0 where
  pub status : ℕ
  pub detail : Option Bytes

-- `Failure::code`, `Failure::invalid_arg` and `Failure::other`.
abbrev pub code : ℕ → Failure
code status = record { status = status; detail = none }

abbrev pub invalid_arg : Bytes → Failure
invalid_arg detail = record { status = invalid_argument; detail = some detail }

abbrev pub other : Bytes → Failure
other detail = record { status = other_failure; detail = some detail }

-- What `From<regolith::Error>` tells apart of the engine's errors. `failed` is every other variant,
-- by the text that its `to_string` gives.
pub data EngineError : Type 0 where
  closed : EngineError
  invalid : Bytes → EngineError
  failed : Bytes → EngineError

unfoldable pub from_engine_error : EngineError → Failure
from_engine_error closed = code db_closed
from_engine_error (invalid reason) = invalid_arg reason
from_engine_error (failed text) = other text

-- What `From<regolith::TransactionError>` tells apart, each with its `to_string`, where that is read.
pub data TransactionError : Type 0 where
  conflict busy : TransactionError
  unsupported_range_delete : Bytes → TransactionError
  no_savepoint : Bytes → TransactionError
  io : Bytes → TransactionError

unfoldable pub from_transaction_error : TransactionError → Failure
from_transaction_error conflict = code txn_conflict
from_transaction_error busy = code txn_conflict
from_transaction_error (unsupported_range_delete text) = invalid_arg text
from_transaction_error (no_savepoint text) = invalid_arg text
from_transaction_error (io text) = other text

-- A panic's payload: a `&'static str`, a `String`, or anything else.
pub data Payload : Type 0 where
  literal : Bytes → Payload
  formatted : Bytes → Payload
  opaque : Payload

unfoldable pub panic_detail : Payload → Bytes
panic_detail (literal s) = s
panic_detail (formatted s) = s
panic_detail opaque = codes "unknown panic"

-- `Result<A, Failure>`, and the unwind that a body may end in instead.
pub data Result {ℓ} (A : Type ℓ) : Type ℓ where
  ok : A → Result A
  err : Failure → Result A
  panic : Payload → Result A

module _ {ℓ κ} {A : Type ℓ} {B : Type κ} where
  infixl 5 ◌>>=◌ ◌>>◌
  -- The `?` operator: what is not a value ends the body.
  abbrev pub ◌>>=◌ : Result A → (A → Result B) → Result B
  ok value >>= next = next value
  err failure >>= next = err failure
  panic payload >>= next = panic payload

  abbrev pub ◌>>◌ : Result A → Result B → Result B
  first >> second = first >>= λ _. second

  -- A body that ends in a value got one from its first part.
  pub >>=-eq-ok :
      (first : Result A) (next : A → Result B) {out : B}
      → (first >>= next) ≡ ok out
      → (value : A) × (first ≡ ok value) × (next value ≡ ok out)
  >>=-eq-ok (ok value) next e = (value, refl, e)
  >>=-eq-ok (err failure) next e = cc
  >>=-eq-ok (panic payload) next e = cc

-- To split on a computed result and keep the equation.
pub Result-cases {ℓ} :
    {A : Type ℓ} (r : Result A)
    → ((a : A) × (r ≡ ok a)) ⊎ ((e : Failure) × (r ≡ err e)) ⊎ ((p : Payload) × (r ≡ panic p))
Result-cases (ok a) = inl (a, refl)
Result-cases (err e) = inr (inl (e, refl))
Result-cases (panic p) = inr (inr (p, refl))
