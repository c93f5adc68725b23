-- ===== src/Go/Iter.antt =====
-- iter.go: the iterator of the Go binding, over the entry points of ffi/src/iter.rs. `none` as the whole
-- result of a function says that the Go code panics or does not return. A nil slice is the empty one, the
-- capacity of a buffer its length. `db_closed` is what `it.db.closed` holds at the call.
pub mod Frame
pub mod Gather
pub mod Seats
pub mod Seated
pub mod Refill
pub mod Walk
pub mod Sought
pub mod Failing
pub mod Told
pub mod Borrow
mod Runs
use go_regolith.Base.{
  ℕ, zero, suc, ◌+◌, ◌^◌, Option, none, some, Bool, true, false, not, ◌||◌, List, [], ◌∷◌, ◌==◌,
  ltb, leb, if◌then◌else◌, length, take, drop, get_elem?,
}
use go_regolith.Base.Le.{from_le_bytes}
use go_regolith.Failure.{Bytes}
use go_regolith.Guard.{Host, Reply}
use go_regolith.Iter.Bounds.{Bounds}
use go_regolith.Iter.Machine.{Scans, TxnInner, RegolithIter}
use go_regolith.Iter.Calls.{
  Handle, regolith_iter_next_batch, regolith_iter_seek, regolith_iter_reset,
  regolith_iter_batch_value, regolith_iter_close,
}
use go_regolith.Go.Errors.{GoError, bare, err_closed}
use go_regolith.Go.Store.{finish, byte_ptr}

abbrev pub batch_entries : ℕ
batch_entries = 256

-- `entry`, a key's place in the buffer.
pub record Spot : Type 0 where
  pub k_off : ℕ
  pub k_len : ℕ

-- The loop of `refill`, from the offset `offset` on, where `frame` is what is left. `int32` makes a length
-- of 2 ^ 31 or more negative, and the loop goes back. A round takes 4 bytes or more, so the frame's length is
-- enough fuel.
unfoldable pub locate : ℕ → ℕ → Bytes → Option (List Spot)
locate fuel offset [] = some []
locate zero offset (x ∷ xs) = none
locate (suc fuel) offset (x ∷ xs) =
    let key_len = from_le_bytes (take 4 (x ∷ xs)) in
    let more = locate fuel (offset + 4 + key_len) (drop key_len (drop 4 (x ∷ xs))) in
    if ltb (length (x ∷ xs)) 4 then none else if leb (2 ^ 31) key_len then none else elim more [
      | none ↦ none
      | some spots ↦ some (record { k_off = offset + 4; k_len = key_len } ∷ spots)
    ]

-- `C.GoBytes` with a `C.int` length, in `takeBuf`, once its status has been found to be OK.
unfoldable pub go_copy : Bytes → Option Bytes
go_copy bytes = if leb (2 ^ 31) (length bytes) then none else some bytes

module _ (scans : Scans) where
  pub record GoIter : Type 0 where
    pub keys_only : Bool
    pub buf : Bytes
    pub ents : List Spot
    pub pos : ℕ
    pub done : Bool
    pub closed : Bool
    pub host : Host (Handle scans)

  unfoldable pub new_iter : Bool → Host (Handle scans) → GoIter
  new_iter keys_only host = record {
    keys_only = keys_only;
    buf = [];
    ents = [];
    pos = 0;
    done = false;
    closed = false;
    host = host;
  }

  module _ (cells : ℕ → TxnInner scans.Txn) where
    -- The rest of `refill`, on what its call gave it.
    unfoldable pub refilled :
        Option (Bytes × ℕ) × Option GoError → GoIter → Option ((Bool × Option GoError) × GoIter)
    unfolding locate go_copy
    refilled (out, some e) it = some ((false, some e), it)
    refilled (none, none) it = some ((false, none), record it { done = true })
    refilled (some (bytes, count), none) it = elim (go_copy bytes) [
      | none ↦ none
      | some frame ↦
          if count == 0
          then some ((false, none), record it { done = true })
          else elim (locate (length frame) 0 frame) [
            | none ↦ none
            | some ents ↦ some ((true, none), record it { buf = frame; ents = ents })
          ]
    ]

    unfoldable pub refill : GoIter → Option ((Bool × Option GoError) × GoIter)
    unfolding refilled regolith_iter_next_batch
    refill it =
        let (r, host) =
          finish (regolith_iter_next_batch scans cells batch_entries true true it.host) in
        refilled r (record it { ents = []; pos = 0; host = host })

    unfoldable pub next : Bool → GoIter → Option ((Bool × Option GoError) × GoIter)
    unfolding refill
    next db_closed it =
        if db_closed
        then some ((false, bare err_closed), it)
        else if ltb (it.pos + 1) (length it.ents)
        then some ((true, none), record it { pos = it.pos + 1 })
        else if it.done
        then some ((false, none), record it { pos = length it.ents })
        else refill it

    unfoldable pub invalidate : GoIter → GoIter
    invalidate it = record it { ents = []; pos = 0; done = false }

    -- The rest of `Seek`, on what its call gave it.
    unfoldable pub sought :
        Option ℕ × Option GoError → GoIter → Option ((Bool × Option GoError) × GoIter)
    unfolding refill
    sought (out, some e) it = some ((false, some e), it)
    sought (none, none) it = some ((false, none), record it { done = true })
    sought (some valid, none) it =
        let again = refill it in
        if valid == 0 then some ((false, none), record it { done = true }) else again

    unfoldable pub seek : Bytes → Bool → GoIter → Option ((Bool × Option GoError) × GoIter)
    unfolding sought invalidate regolith_iter_seek
    seek key db_closed it =
        if db_closed
        then some ((false, bare err_closed), it)
        else let (r, host) =
            finish (regolith_iter_seek scans cells (byte_ptr key) (length key) true true it.host) in
          sought r (record (invalidate it) { host = host })

    unfoldable pub reset : GoIter → GoIter
    unfolding invalidate regolith_iter_reset
    reset it = record (invalidate it) { host = (regolith_iter_reset scans false it.host).1 }

  unfoldable pub key : GoIter → Option Bytes
  key it = elim (get_elem? it.ents it.pos) [
    | none ↦ some []
    | some e ↦
        if ltb (length it.buf) (e.k_off + e.k_len)
        then none
        else some (take e.k_len (drop e.k_off it.buf))
  ]

  -- What `Value` copies of a value that it was lent.
  abbrev pub copied_value : Option (Option Bytes × ℕ) → Bytes
  copied_value none = []
  copied_value (some (none, len)) = []
  copied_value (some (some memory, len)) = if len == 0 then [] else take len memory

  unfoldable pub value : GoIter → (Bytes × Option GoError) × GoIter
  unfolding regolith_iter_batch_value
  value it =
      if it.keys_only || leb (length it.ents) it.pos
      then (([], none), it)
      else let ((out, e), host) =
          finish (regolith_iter_batch_value scans it.pos true true it.host) in
        ((elim e [ none ↦ copied_value out | some failure ↦ [] ], e), record it { host = host })

  unfoldable pub close : GoIter → Option GoError × GoIter
  unfolding regolith_iter_close
  close it =
      if it.closed
      then (none, it)
      else let ((out, e), host) = finish (regolith_iter_close scans true it.host) in
        (e, record it { closed = true; host = host })
