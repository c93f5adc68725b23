-- ===== src/Go/Iter/Told/Runs.antt =====
-- A walk of the Go iterator over an engine that cannot read one of its entries, and the theorem on it.
use go_regolith.Base.{◌≡◌, refl, none, some, false, List, [], ◌∷◌, arith}
use go_regolith.Base.Le.{to_le_bytes, from_le_bytes}
use go_regolith.Failure.{Bytes, other, from_engine_error}
use go_regolith.Guard.{Heap, guard, strip_nuls}
use go_regolith.Iter.Bounds.{Bounds, bytes_lt, contains}
use go_regolith.Iter.Machine.{
  snapshot, fresh, is_key, advance_in_batch, current_key, current_value, current_value_slice,
}
use go_regolith.Iter.Calls.{on_iter, next_step, next_batch, batch_value}
use go_regolith.Iter.Walk.Spans.{Pair}
use go_regolith.Iter.Batches.Failing.{FailsAfter}
use go_regolith.Iter.Listed.{torn, off, no_txns}
use go_regolith.Go.Errors.{GoError, err_unexpected, error_of, classify}
use go_regolith.Go.Store.{finish}
use go_regolith.Go.Iter.{new_iter}
use go_regolith.Go.Iter.Gather.{gather}
use go_regolith.Go.Iter.Failing.{seen, shown}
use go_regolith.Go.Iter.Told.{gather-FailsAfter}
use mathlib.Core.List.{map}

abbrev no_errors : Heap Bytes
no_errors = record { next = 0; cell = λ p. none }

abbrev everything : Bounds
everything = record { start = none; end = none; reverse = false; keys_only = false }

abbrev readable : List Pair
readable = (97 ∷ [], 1 ∷ []) ∷ (98 ∷ [], []) ∷ (98 ∷ 255 ∷ [], 3 ∷ []) ∷ []

abbrev told : GoError
told = record { sentinel = err_unexpected; message = 33 ∷ [] }

unread-FailsAfter :
    FailsAfter torn no_txns
      (map (seen false) readable)
      (other (33 ∷ []))
      (fresh torn everything (snapshot off))
unfolding FailsAfter next_step bytes_lt contains current_key current_value is_key from_engine_error
unread-FailsAfter = (refl, refl, refl, (refl, refl, refl, (refl, refl, refl, refl)))

-- The same walk, run.
walk_into_the_failure :
    gather torn no_txns 4 (
      new_iter torn false
        (record { errors = no_errors; inner = some (fresh torn everything (snapshot off)) }))
    ≡ some (readable, some told)
unfolding gather new_iter bytes_lt contains finish guard on_iter next_batch advance_in_batch
    current_key current_value_slice to_le_bytes from_le_bytes batch_value is_key from_engine_error
    classify
walk_into_the_failure = refl

gather-FailsAfter_example :
    gather torn no_txns 4 (
      new_iter torn false
        (record { errors = no_errors; inner = some (fresh torn everything (snapshot off)) }))
    ≡ some (map (shown false) readable, some told)
unfolding error_of classify strip_nuls
gather-FailsAfter_example =
    gather-FailsAfter torn no_txns false (other (33 ∷ [])) told refl (λ c. refl) everything
      (snapshot off) no_errors readable 4 (record { ahead = λ p l. refl }) unread-FailsAfter
      (omega arith, (omega arith, (omega arith, tt))) (omega arith)
