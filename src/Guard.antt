-- ===== src/Guard.antt =====
-- ffi/src/lib.rs: the boundary. `guard`, the error objects that it boxes, and the out-params.
pub mod Report
pub mod Buffers
mod Runs
use go_regolith.Base.{
  ℕ, ◌+◌, Option, none, some, Bool, true, false, List, [], ◌∷◌, ◌==◌, ◌||◌, if◌then◌else◌, length,
}
use go_regolith.Base.Text.{codes}
use go_regolith.Failure.{
  Bytes, Failure, invalid_arg, success, panicked, panic_detail, Result, ok, err, panic,
}
use go_regolith.Exec.{Exec}

-- The objects of one kind that are boxed for the caller, each under the number that its pointer stands
-- for. `Box::into_raw` hands out a fresh one.
pub record Heap {ℓ} (A : Type ℓ) : Type ℓ where
  pub next : ℕ
  pub cell : ℕ → Option A

module _ {ℓ} {A : Type ℓ} where
  unfoldable pub alloc : A → Heap A → Heap A
  alloc a h = record { next = h.next + 1; cell = λ p. if p == h.next then some a else h.cell p }

  -- `Box::from_raw` and the drop.
  unfoldable pub free : ℕ → Heap A → Heap A
  free p h = record h { cell = λ q. if q == p then none else h.cell q }

-- `RegolithError::into_raw`: the message keeps no nul byte.
unfoldable pub strip_nuls : Bytes → Bytes
strip_nuls [] = []
strip_nuls (b ∷ bs) = if b == 0 then strip_nuls bs else b ∷ strip_nuls bs

-- The out-param `err` after a call: not written, written null, or written with an object.
pub data ErrorSlot : Type 0 where
  unwritten : ErrorSlot
  null : ErrorSlot
  object : ℕ → ErrorSlot

-- What C sees of a call: the status, the error slot, and what the out-params received.
pub record Reply {ℓ} (A : Type ℓ) : Type ℓ where
  pub status : ℕ
  pub slot : ErrorSlot
  pub out : Option A

-- The state that a body changes, beside the error objects that are alive.
pub record Host {ℓ} (S : Type ℓ) : Type ℓ where
  pub errors : Heap Bytes
  pub inner : S

module _ {ℓ κ} {S : Type ℓ} {A : Type κ} where
  -- `writable` says that `err` is not null.
  unfoldable pub report : Bool → ℕ → Option Bytes → Option A → Heap Bytes → S → Reply A × Host S
  unfolding alloc strip_nuls
  report false status detail out errors s = (
    record { status = status; slot = unwritten; out = out },
    record { errors = errors; inner = s },
  )
  report true status none out errors s =
      (record { status = status; slot = null; out = out }, record { errors = errors; inner = s })
  report true status (some detail) out errors s = (
    record { status = status; slot = object errors.next; out = out },
    record { errors = alloc (strip_nuls detail) errors; inner = s },
  )

  unfoldable pub settle : Bool → Heap Bytes → Result A → S → Reply A × Host S
  unfolding report panic_detail
  settle writable errors (ok a) s = report writable success none (some a) errors s
  settle writable errors (err f) s = report writable f.status f.detail none errors s
  settle writable errors (panic p) s =
      report writable panicked (some (panic_detail p)) none errors s

  unfoldable pub guard : Bool → Exec S A → Host S → Reply A × Host S
  unfolding settle
  guard writable body host = let (r, s) = body host.inner in settle writable host.errors r s

-- `regolith_error_message` and `regolith_error_free`, a null pointer being `none`.
unfoldable pub regolith_error_message : Option ℕ → Heap Bytes → Option Bytes
regolith_error_message none errors = none
regolith_error_message (some p) errors = errors.cell p

unfoldable pub regolith_error_free : Option ℕ → Heap Bytes → Heap Bytes
unfolding free
regolith_error_free none errors = errors
regolith_error_free (some p) errors = free p errors

-- The out-params of a call: each is null (`false`) or can be written.
unfoldable pub out_bytes : Bytes → Bool → Bool → Result (Bytes × ℕ)
out_bytes bytes true true = ok (bytes, length bytes)
out_bytes bytes _ _ = err (invalid_arg (codes "null out-param"))

-- `out_borrowed`: the pointer's bytes, their length and the handle that pins them. An empty slice has
-- a null pointer and a null handle.
pub record Lent : Type 0 where
  pub pointer : Option Bytes
  pub len : ℕ
  pub handle : Option ℕ

unfoldable pub out_borrowed : Bytes → Bool → Bool → Bool → Exec (Heap Bytes) Lent
unfolding alloc
out_borrowed [] true true true pins = (ok (record { pointer = none; len = 0; handle = none }), pins)
out_borrowed (b ∷ bs) true true true pins = (
  ok (record { pointer = some (b ∷ bs); len = length (b ∷ bs); handle = some pins.next }),
  alloc (b ∷ bs) pins,
)
out_borrowed slice _ _ _ pins = (err (invalid_arg (codes "null out-param")), pins)

unfoldable pub out_bool : Bool → Bool → Result ℕ
out_bool b false = err (invalid_arg (codes "null out-param"))
out_bool true true = ok 1
out_bool false true = ok 0

-- `regolith_release_value`.
unfoldable pub regolith_release_value : Option ℕ → Heap Bytes → Heap Bytes
unfolding free
regolith_release_value none pins = pins
regolith_release_value (some p) pins = free p pins
