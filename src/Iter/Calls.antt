-- ===== src/Iter/Calls.antt =====
-- The `regolith_iter_*` entry points, under `guard`. A handle is what its pointer leads to: `none` for
-- null, and after the call what is left there. An out-param is null (`false`) or can be written.
use go_regolith.Base.{
  ℕ, zero, suc, ◌+◌, ◌^◌, Option, none, some, Bool, true, false, not, [], ◌∷◌, ◌++◌, leb, ◌==◌,
  if◌then◌else◌, length, get_elem?,
}
use go_regolith.Base.Text.{codes}
use go_regolith.Base.Le.{to_le_bytes}
use go_regolith.Failure.{Bytes, code, not_found, invalid_arg, other, Result, ok, err, panic}
use go_regolith.Exec.{Exec, pure, raise, lift, gets, modify, require, ◌>>=◌, ◌>>◌}
use go_regolith.Guard.{Host, Reply, guard, out_bool, out_bytes}
use go_regolith.Iter.Bounds.{InPointer, in_bytes}
use go_regolith.Iter.Machine.{
  Scans, TxnInner, RegolithIter, Step, restart, step, seek, advance_in_batch, in_range, current_key,
  current_value, current_value_slice, invalidate_batch, max_batch_value_bytes,
}

module _ (scans : Scans) where
  abbrev pub Handle : Type 0
  Handle = Option (RegolithIter scans)

  -- `iter_ref!`
  unfoldable pub on_iter : {A : Type 0} → Step scans A → Exec Handle A
  on_iter m none = (err (invalid_arg (codes "null iterator handle")), none)
  on_iter m (some it) = let (r, it') = m it in (r, some it')

  module _ (cells : ℕ → TxnInner scans.Txn) where
    unfoldable pub next_step : Step scans Bool
    unfolding restart step
    next_step it =
        let it' = record it { include_current = false } in
        if it.reset
        then restart scans cells (record it' { reset = false })
        else step scans cells it'

    unfoldable pub regolith_iter_next : Bool → Bool → Host Handle → Reply ℕ × Host Handle
    unfolding guard on_iter next_step out_bool
    regolith_iter_next valid writable =
        guard writable (on_iter (do is_valid ← next_step; lift (out_bool is_valid valid)))

    unfoldable pub regolith_iter_seek :
        InPointer → ℕ → Bool → Bool → Host Handle → Reply ℕ × Host Handle
    unfolding guard on_iter seek out_bool in_bytes
    regolith_iter_seek key key_len valid writable = guard writable (
        on_iter (do
          target ← require (in_bytes key key_len) (invalid_arg (codes "null key"))
          is_valid ← seek scans cells target
          lift (out_bool is_valid valid)))

    -- The `while` of `regolith_iter_next_batch`; `rounds` is `max_entries - count`.
    unfoldable pub fill : ℕ → Bytes → ℕ → ℕ → Step scans (Bytes × ℕ)
    fill zero frame count retained it = (ok (frame, count), it)
    fill (suc rounds) frame count retained it =
        let (advanced, it') = advance_in_batch scans cells it in
        elim advanced [
          | panic p ↦ (panic p, it')
          | err failure ↦
              if count == 0
              then (err failure, it')
              else (ok (frame, count), record it' { pending = some failure })
          | ok false ↦ (ok (frame, count), it')
          | ok true ↦ elim (current_key scans it') [
            | none ↦ (ok (frame, count), it')
            | some key ↦
                if leb (2 ^ 32) (length key)
                then (err (other (codes "key longer than 4 GiB")), it')
                else let frame' = (frame ++ to_le_bytes 4 (length key)) ++ key in
                  let no_value = fill rounds frame' (count + 1) retained it' in
                  elim (current_value_slice scans it') [
                    | none ↦ no_value
                    | some value ↦
                        let it'' = record it' { batch_values = it'.batch_values ++ (value ∷ []) } in
                        let more = fill rounds frame' (count + 1) (retained + length value) it'' in
                        if leb max_batch_value_bytes (retained + length value)
                        then (ok (frame', count + 1), it'')
                        else more
                  ]
          ]
        ]

    -- The previous batch ends, and a failure held back from it is reported now.
    unfoldable pub take_pending : Step scans (Unit {0})
    unfolding invalidate_batch
    take_pending it =
        let it' = invalidate_batch scans it in
        elim it.pending [
          | none ↦ (ok tt, it')
          | some failure ↦ (err failure, record it' { pending = none })
        ]

    -- `outs` says that none of the three out-params is null.
    unfoldable pub next_batch : ℕ → Bool → Step scans (Bytes × ℕ)
    unfolding fill take_pending
    next_batch max_entries outs =
        if not outs
        then raise (invalid_arg (codes "null out-param"))
        else if max_entries == 0
        then raise (invalid_arg (codes "max_entries must be at least 1"))
        else (do
          take_pending
          (frame, count) ← fill max_entries [] 0 0
          modify (λ it. record it { batch_count = count })
          pure (frame, count))

    unfoldable pub regolith_iter_next_batch :
        ℕ → Bool → Bool → Host Handle → Reply (Bytes × ℕ) × Host Handle
    regolith_iter_next_batch max_entries outs writable =
        guard writable (on_iter (next_batch max_entries outs))

  unfoldable pub reset_iter : RegolithIter scans → RegolithIter scans
  unfolding invalidate_batch
  reset_iter it =
      invalidate_batch scans (record it { reset = true; include_current = false; pending = none })

  unfoldable pub regolith_iter_reset : Bool → Host Handle → Reply (Unit {0}) × Host Handle
  unfolding guard on_iter reset_iter
  regolith_iter_reset writable = guard writable (on_iter (modify reset_iter))

  unfoldable pub regolith_iter_key :
      Bool → Bool → Bool → Host Handle → Reply (Bytes × ℕ) × Host Handle
  unfolding guard on_iter current_key out_bytes
  regolith_iter_key key key_len writable = guard writable (
      on_iter (do
        found ← gets (current_key scans)
        current ← require found (code not_found)
        lift (out_bytes current key key_len)))

  abbrev pub or_empty : Option Bytes → Bytes
  or_empty none = []
  or_empty (some bytes) = bytes

  unfoldable pub regolith_iter_value :
      Bool → Bool → Bool → Host Handle → Reply (Bytes × ℕ) × Host Handle
  unfolding guard on_iter in_range current_value out_bytes
  regolith_iter_value val val_len writable = guard writable (
      on_iter (λ it.
        if not (in_range scans it)
        then (err (code not_found), it)
        else (out_bytes (or_empty (current_value scans it)) val val_len, it)))

  -- The pointer's bytes, none for null, and their length.
  unfoldable pub batch_value : ℕ → RegolithIter scans → Result (Option Bytes × ℕ)
  batch_value idx it =
      if leb it.batch_count idx
      then err (invalid_arg (codes "batch value index out of range"))
      else elim (get_elem? it.batch_values idx) [
        | none ↦ ok (none, 0)
        | some v ↦ ok (some v, length v)
      ]

  unfoldable pub regolith_iter_batch_value :
      ℕ → Bool → Bool → Host Handle → Reply (Option Bytes × ℕ) × Host Handle
  regolith_iter_batch_value idx outs writable = guard writable (
      on_iter (λ it.
        if not outs
        then (err (invalid_arg (codes "null out-param")), it)
        else (batch_value idx it, it)))

  unfoldable pub regolith_iter_close : Bool → Host Handle → Reply (Unit {0}) × Host Handle
  unfolding guard
  regolith_iter_close writable = guard writable (λ handle. elim handle [
    | none ↦ (err (invalid_arg (codes "null iterator handle")), none)
    | some it ↦ (ok tt, none)
  ])
