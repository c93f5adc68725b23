-- ===== src/Go/Iter/Told.antt =====
-- A whole walk with the iterator of iter.go on which a read of the engine fails.
mod Runs
use go_regolith.Base.{
  ℕ, zero, suc, ◌+◌, ◌<◌, ◌≤◌, ◌≡◌, refl, sym, ap, ◌∙◌, inl, inr, none, some, Bool, true, List, [],
  ◌∷◌, ◌++◌, length, length-append, drop, get_elem?, All, arith,
}
use mathlib.Core.List.{map}
use go_regolith.Failure.{Bytes, Failure, err}
use go_regolith.Guard.{Heap}
use go_regolith.Guard.Report.{IsOrdered}
use go_regolith.Iter.Bounds.{Bounds}
use go_regolith.Iter.Machine.{Scans, TxnInner, RegolithIter, Source, fresh}
use go_regolith.Iter.Walk.Spans.{Pair}
use go_regolith.Iter.Batches.{framed}
use go_regolith.Iter.Batches.Fill.{kept, append_nil}
use go_regolith.Iter.Batches.Failing.{FailsAfter}
use go_regolith.Iter.Batches.Reported.{next_batch-held}
use go_regolith.Go.Errors.{GoError, error_of}
use go_regolith.Go.Iter.{GoIter, batch_entries, refill, new_iter}
use go_regolith.Go.Iter.Gather.{gather, from_here, from_here-more, from_here-failed}
use go_regolith.Go.Iter.Frame.{spots, IsShort}
use go_regolith.Go.Iter.Seats
use go_regolith.Go.Iter.Walk.{drop-cons, drop-nil}
use go_regolith.Go.Iter.Failing
use go_regolith.Go.Iter.Failing.{seen, shown}

module _ (scans : Scans) (cells : ℕ → TxnInner scans.Txn) (keys_only : Bool) (f : Failure)
    (e : GoError) (is_error : error_of {A = Bytes × ℕ} (err f) ≡ some e) where
  abbrev Iter : Type 0
  Iter = RegolithIter scans

  abbrev seated : Heap Bytes → Iter → List Pair → ℕ → GoIter scans
  seated = Seats.seated scans cells keys_only

  abbrev ready : Iter → Iter
  ready = Failing.ready scans cells keys_only f e is_error

  abbrev waiting : Iter → Iter
  waiting = Failing.waiting scans cells keys_only f e is_error

  abbrev Fails : List Pair → Iter → Type 0
  Fails = Failing.Fails scans cells keys_only f e is_error

  new_iter-seated :
      (b : Bounds) (source : Source scans) (errors : Heap Bytes)
      → new_iter scans keys_only (record { errors = errors; inner = some (fresh scans b source) })
        ≡ seated errors (ready (fresh scans b source)) [] 0
  unfolding new_iter framed spots kept
  new_iter-seated b source errors = refl

  -- At the entry `p`.
  visits :
      (rounds : ℕ) (errors : Heap Bytes) (x : Iter) (t : List Pair) (i : ℕ) (p : Pair)
      (es : List Pair)
      → IsOrdered errors
      → get_elem? t i ≡ some p
      → ((errors' : Heap Bytes)
          → IsOrdered errors'
          → gather scans cells rounds (seated errors' x t i)
            ≡ some (map (shown keys_only) es, some e))
      → from_here scans cells (gather scans cells rounds) (some ((true, none), seated errors x t i))
        ≡ some (map (shown keys_only) (p ∷ es), some e)
  visits rounds errors x t i p es ordered found others =
      let (errors', v, ordered') =
        Seats.value-seated scans cells keys_only errors x t i p ordered found in
      from_here-more scans cells (gather scans cells rounds) (seated errors x t i)
        (seated errors' x t i) p.0 _ (map (shown keys_only) es) (some e)
        (Seats.key-seated scans cells keys_only errors x t i p found) v (others errors' ordered')

  -- To the next entry of the batch.
  onward :
      (rounds : ℕ) (errors : Heap Bytes) (x : Iter) (t : List Pair) (i : ℕ) (p : Pair)
      (now es : List Pair)
      → IsOrdered errors
      → drop (suc i) t ≡ p ∷ now
      → ((errors' : Heap Bytes)
          → IsOrdered errors'
          → gather scans cells rounds (seated errors' x t (suc i))
            ≡ some (map (shown keys_only) es, some e))
      → gather scans cells (suc rounds) (seated errors x t i)
        ≡ some (map (shown keys_only) (p ∷ es), some e)
  unfolding gather
  onward rounds errors x t i p now es ordered d others =
      let (found, left, within) = drop-cons (suc i) t p now d in
      ap (from_here scans cells (gather scans cells rounds))
        (Seats.next_within scans cells keys_only errors x t i within)
      ∙ visits rounds errors x t (suc i) p es ordered found others

  -- Past the batch.
  gather-refill :
      (rounds : ℕ) (errors : Heap Bytes) (x : Iter) (t : List Pair) (i : ℕ)
      → drop (suc i) t ≡ []
      → gather scans cells (suc rounds) (seated errors x t i)
        ≡ from_here scans cells
            (gather scans cells rounds)
            (refill scans cells (seated errors x t i))
  unfolding gather
  gather-refill rounds errors x t i d =
      ap (from_here scans cells (gather scans cells rounds))
        (Seats.next-refill scans cells keys_only errors x t i (drop-nil (suc i) t d))

  gather-waiting :
      (rounds : ℕ) (errors : Heap Bytes) (it : Iter) (t : List Pair) (i : ℕ) (now : List Pair)
      → IsOrdered errors
      → drop (suc i) t ≡ now
      → length now < rounds
      → gather scans cells rounds (seated errors (waiting it) t i)
        ≡ some (map (shown keys_only) now, some e)
  gather-waiting zero errors it t i now ordered d h = absurd (omega arith)
  gather-waiting (suc rounds) errors it t i (p ∷ now) ordered d h =
      let (found, left, within) = drop-cons (suc i) t p now d in
      onward rounds errors (waiting it) t i p now now ordered d (λ errors' ordered'.
        gather-waiting rounds errors' it t (suc i) now ordered' left (omega arith))
  gather-waiting (suc rounds) errors it t i [] ordered d h =
      let (it', r) =
        Failing.refill-failed scans cells keys_only f e is_error errors (waiting it) _ t i ordered (
          next_batch-held scans cells batch_entries (omega arith) (kept keys_only t) (length t) it
            f) in
      gather-refill rounds errors (waiting it) t i d
      ∙ ap (from_here scans cells (gather scans cells rounds)) r
      ∙ from_here-failed scans cells (gather scans cells rounds) it' e

  -- From the first entry of a batch.
  from_first :
      (rounds : ℕ) (errors : Heap Bytes) (x : Iter) (t es : List Pair)
      → IsOrdered errors
      → 1 ≤ length t
      → (later : List Pair) → t ++ later ≡ es
      → ((l : List Pair) (errors' : Heap Bytes)
          → IsOrdered errors'
          → drop 1 t ≡ l
          → length l < length t
          → gather scans cells rounds (seated errors' x t 0)
            ≡ some (map (shown keys_only) (l ++ later), some e))
      → from_here scans cells (gather scans cells rounds) (some ((true, none), seated errors x t 0))
        ≡ some (map (shown keys_only) es, some e)
  from_first rounds errors x [] es ordered some_entries later whole others = absurd (omega arith)
  from_first rounds errors x (p ∷ t) es ordered some_entries later whole others =
      visits rounds errors x (p ∷ t) 0 p (t ++ later) ordered refl
        (λ errors' ordered'. others t errors' ordered' refl (omega arith))
      ∙ ap (λ z. some (map (shown keys_only) z, some e)) whole

  module _ (slices : (c : scans.Cursor) → scans.value_slice c ≡ scans.value c) where
    gather-ready :
        (rounds : ℕ) (errors : Heap Bytes) (it : Iter) (t : List Pair) (i : ℕ) (now es : List Pair)
        → IsOrdered errors
        → drop (suc i) t ≡ now
        → Fails es it
        → All IsShort es
        → length now + length es < rounds
        → gather scans cells rounds (seated errors (ready it) t i)
          ≡ some (map (shown keys_only) (now ++ es), some e)
    gather-ready zero errors it t i now es ordered d h s enough = absurd (omega arith)
    gather-ready (suc rounds) errors it t i (p ∷ now) es ordered d h s enough =
        let (found, left, within) = drop-cons (suc i) t p now d in
        onward rounds errors (ready it) t i p now (now ++ es) ordered d (λ errors' ordered'.
          gather-ready rounds errors' it t (suc i) now es ordered' left h s (omega arith))
    gather-ready (suc rounds) errors it t i [] es ordered d h s enough =
        gather-refill rounds errors (ready it) t i d
        ∙ elim (Failing.refills scans cells keys_only f e is_error slices errors it t i es ordered h
            s) [
              | inl (left, none_left, r) ↦
                  ap (from_here scans cells (gather scans cells rounds)) r
                  ∙ from_here-failed scans cells (gather scans cells rounds) left e
                  ∙ ap (λ z. some (map (shown keys_only) z, some e)) (sym none_left)
              | inr (inl (errors', it', ordered', some_entries, r)) ↦
                  ap (from_here scans cells (gather scans cells rounds)) r
                  ∙ from_first rounds errors' (waiting it') es es ordered' some_entries []
                      (append_nil es)
                      (λ l errors'' ordered'' cut shorter.
                        gather-waiting rounds errors'' it' es 0 l ordered'' cut (omega arith)
                        ∙ ap (λ z. some (map (shown keys_only) z, some e)) (sym (append_nil l)))
              | inr (inr (errors', it', given, left, ordered', some_entries, whole, h', r)) ↦
                  let lengths = length-append given left in
                  ap (from_here scans cells (gather scans cells rounds)) r
                  ∙ from_first rounds errors' (ready it') given es ordered' some_entries left whole
                      (λ l errors'' ordered'' cut shorter.
                        gather-ready rounds errors'' it' given 0 l left ordered'' cut h'
                          (Failing.All-left scans cells keys_only f e is_error given left
                            (rw whole s))
                          (omega (arith, lengths, ap length whole)))
            ]

    -- Where regolith_iter_next gives some entries of keys of 4 MiB at most and then fails with what is an
    -- error for Go, whatever a new iterator stands on, its slices being its values, with no error object
    -- numbered from the heap's next number on: calls of `Next` of the Go iterator over it, with `Key` and
    -- `Value` after each, give the same entries, each once, however the batches fall, and then end with
    -- that error.
    pub gather-FailsAfter :
        (b : Bounds) (source : Source scans) (errors : Heap Bytes) (es : List Pair) (rounds : ℕ)
        → IsOrdered errors
        → FailsAfter scans cells (map (seen keys_only) es) f (fresh scans b source)
        → All IsShort es
        → length es < rounds
        → gather scans cells rounds (
            new_iter scans keys_only
              (record { errors = errors; inner = some (fresh scans b source) }))
          ≡ some (map (shown keys_only) es, some e)
    gather-FailsAfter b source errors es rounds ordered h s enough =
        ap (gather scans cells rounds) (new_iter-seated b source errors)
        ∙ gather-ready rounds errors (fresh scans b source) [] 0 [] es ordered refl h s
            (omega arith)
