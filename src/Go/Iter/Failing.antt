-- ===== src/Go/Iter/Failing.antt =====
-- A walk with the iterator of iter.go on which a read of the engine fails.
use go_regolith.Base.{
  ℕ, suc, ◌+◌, ◌<◌, ◌≤◌, ◌≡◌, ◌⊎◌, refl, ap, ◌∙◌, inl, inr, none, some, Bool, true, false, List, [],
  ◌∷◌, ◌++◌, ◌==◌, if◌then◌else◌, length, All, arith,
}
use mathlib.Core.List.{map}
use go_regolith.Failure.{Bytes, Failure, Result, ok, err}
use go_regolith.Exec.{Exec}
use go_regolith.Guard.{Heap, Host, guard}
use go_regolith.Guard.Report.{IsOrdered}
use go_regolith.Iter.Machine.{Scans, TxnInner, RegolithIter}
use go_regolith.Iter.Calls.{Handle, on_iter, next_batch, fill}
use go_regolith.Iter.Walk.Spans.{Pair}
use go_regolith.Iter.Batches.{framed}
use go_regolith.Iter.Batches.Fill.{kept}
use go_regolith.Iter.Batches.Failing.{
  Visit, Short, keys_framed, present, FailsAfter, pinning, held, stop_failed, fill-stops,
}
use go_regolith.Iter.Batches.Reported.{next_batch-ok, next_batch-err}
use go_regolith.Go.Errors.{GoError, error_of}
use go_regolith.Go.Store.{finish}
use go_regolith.Go.Finish.{finish-guard, finish-ok}
use go_regolith.Go.Iter.{GoIter, batch_entries, refill, refilled}
use go_regolith.Go.Iter.Frame.{spots, IsShort, locate-framed, length-framed, length-framed_fuel}
use go_regolith.Go.Iter.Seats

module _ (keys_only : Bool) where
  -- An entry as regolith_iter_next shows it, and as the Go iterator does.
  abbrev pub seen : Pair → Visit
  seen (k, v) = (k, if keys_only then none else some v)

  abbrev pub shown : Pair → Bytes × Bytes
  shown (k, v) = (k, if keys_only then [] else v)

  keys_framed-seen : (es : List Pair) → keys_framed (map seen es) ≡ framed es
  unfolding keys_framed framed
  keys_framed-seen [] = refl
  keys_framed-seen ((k, v) ∷ es) = rw (keys_framed-seen es) refl

  length-seen : (es : List Pair) → length (map seen es) ≡ length es
  length-seen [] = refl
  length-seen (e ∷ es) = ap suc (length-seen es)

present-seen :
    (keys_only : Bool) (es : List Pair) → present (map (seen keys_only) es) ≡ kept keys_only es
unfolding present kept
present-seen k [] = refl
present-seen true ((k, v) ∷ es) = present-seen true es
present-seen false ((k, v) ∷ es) = ap (λ t. v ∷ t) (present-seen false es)

-- Both parts of what is seen are seen of parts.
seen-split :
    (k : Bool) (xs ys : List Visit) (es : List Pair)
    → xs ++ ys ≡ map (seen k) es
    → (given : List Pair) × (left : List Pair) × (xs ≡ map (seen k) given)
      × (ys ≡ map (seen k) left)
      × (given ++ left ≡ es)
seen-split k [] ys es h = ([], es, refl, h, refl)
seen-split k (x ∷ xs) ys [] h = absurd cc
seen-split k (x ∷ xs) ys (e ∷ es) h =
    let (given, left, a, b, c) = seen-split k xs ys es cc in
    let same : x ≡ seen k e = cc in (e ∷ given, left, rw (same, a) refl, b, ap (λ t. e ∷ t) c)

module _ (scans : Scans) (cells : ℕ → TxnInner scans.Txn) (keys_only : Bool) (f : Failure)
    (e : GoError) (is_error : error_of {A = Bytes × ℕ} (err f) ≡ some e) where
  abbrev pub Iter : Type 0
  Iter = RegolithIter scans

  abbrev pub seated : Heap Bytes → Iter → List Pair → ℕ → GoIter scans
  seated = Seats.seated scans cells keys_only

  abbrev with_batch : Iter → List Pair → Iter
  with_batch = Seats.with_batch scans cells keys_only

  -- Behind the handle: nothing held back, or the failure.
  abbrev pub ready : Iter → Iter
  ready it = pinning scans cells [] 0 it

  abbrev pub waiting : Iter → Iter
  waiting it = held scans cells f (ready it)

  abbrev body : Exec (Handle scans) (Bytes × ℕ)
  body = Seats.next_body scans cells

  abbrev batch_of : Iter → Result (Bytes × ℕ) × Iter
  batch_of it = next_batch scans cells batch_entries true it

  body-some : (it : Iter) → body (some it) ≡ ((batch_of it).0, some (batch_of it).1)
  unfolding on_iter
  body-some it = refl

  pub refill-failed :
      (errors : Heap Bytes) (x h : Iter) (t : List Pair) (i : ℕ)
      → IsOrdered errors
      → batch_of (with_batch x t) ≡ (err f, h)
      → (it : GoIter scans) × (refill scans cells (seated errors x t i)
          ≡ some ((false, some e), it))
  unfolding refilled
  refill-failed errors x h t i ordered q =
      let (errors', r, same, ordered') = finish-guard body (seated errors x t i).host ordered in
      let outcome = body-some (with_batch x t) ∙ ap (λ z. (z.0, some z.1)) q in
      let after : Host (Handle scans) = record { errors = errors'; inner = some h } in
      let got : finish (guard true body (seated errors x t i).host) ≡ ((none, some e), after) =
        r ∙ rw (outcome, is_error) refl in
      (
        _,
        Seats.refill-refilled scans cells (seated errors x t i)
            ∙ ap
                (λ z.
                  refilled scans cells z.0
                    (record (seated errors x t i) { ents = []; pos = 0; host = z.1 }))
                got,
      )

  refill-batch :
      (errors : Heap Bytes) (x h : Iter) (t new : List Pair) (i : ℕ)
      → IsOrdered errors
      → batch_of (with_batch x t) ≡ (ok (framed new, length new), with_batch h new)
      → All IsShort new
      → 1 ≤ length new
      → length new ≤ batch_entries
      → (errors' : Heap Bytes) × (refill scans cells (seated errors x t i)
          ≡ some ((true, none), seated errors' h new 0))
        × IsOrdered errors'
  refill-batch errors x h t new i ordered q s some_entries fits =
      let (errors', r, same, ordered') =
        finish-ok body (seated errors x t i).host (framed new, length new) (some (with_batch h new))
          ordered (body-some (with_batch x t) ∙ ap (λ z. (z.0, some z.1)) q) in
      (
        errors',
        Seats.refill-refilled scans cells (seated errors x t i)
            ∙ ap
                (λ z.
                  refilled scans cells z.0
                    (record (seated errors x t i) { ents = []; pos = 0; host = z.1 }))
                r
            ∙ Seats.refilled-located scans cells _ (framed new) (length new) (spots 0 new)
                (omega (arith, length-framed new s)) some_entries
                (locate-framed (length (framed new)) 0 new s (length-framed_fuel new)),
        ordered',
      )

  abbrev filled : Bytes → ℕ → List Bytes → Iter → Result (Bytes × ℕ) × Iter
  filled frame n values y = (ok (frame, n), record y { batch_values = values; batch_count = n })

  -- What a batch is, of what was seen.
  seen-batch :
      (visits : List Visit) (es : List Pair) (y : Iter)
      → visits ≡ map (seen keys_only) es
      → filled (keys_framed visits) (0 + length visits) (present visits) y
        ≡ filled (framed es) (length es) (kept keys_only es) y
  seen-batch visits es y h =
      let n : 0 + length (map (seen keys_only) es) ≡ length es =
        omega (arith, length-seen keys_only es) in
      rw h (rw (keys_framed-seen keys_only es, n, present-seen keys_only es) refl)

  abbrev pub Fails : List Pair → Iter → Type 0
  Fails es it = FailsAfter scans cells (map (seen keys_only) es) f it

  Short-seen : (es : List Pair) → All IsShort es → Short (map (seen keys_only) es)
  Short-seen [] s = tt
  Short-seen (x ∷ es) (h, s) = (omega arith, Short-seen es s)

  pub All-left : (xs ys : List Pair) → All IsShort (xs ++ ys) → All IsShort ys
  All-left [] ys s = s
  All-left (x ∷ xs) ys (_, s) = All-left xs ys s

  All-given : (xs ys : List Pair) → All IsShort (xs ++ ys) → All IsShort xs
  All-given [] ys s = tt
  All-given (x ∷ xs) ys (h, s) = (h, All-given xs ys s)

  -- What `refill` makes of an iterator before the entries `es` and the failure.
  abbrev pub Refills : Heap Bytes → Iter → List Pair → ℕ → List Pair → Type 0
  Refills errors it t i es =
      let r = refill scans cells (seated errors (ready it) t i) in
      ((left : GoIter scans) × (es ≡ []) × (r ≡ some ((false, some e), left)))
      ⊎ ((errors' : Heap Bytes) × (it' : Iter) × IsOrdered errors'
          × (1 ≤ length es)
          × (r ≡ some ((true, none), seated errors' (waiting it') es 0)))
      ⊎ ((errors' : Heap Bytes) × (it' : Iter) × (given : List Pair) × (left : List Pair)
          × IsOrdered errors'
          × (1 ≤ length given)
          × (given ++ left ≡ es)
          × Fails left it'
          × (r ≡ some ((true, none), seated errors' (ready it') given 0)))

  Refills-failed :
      (errors : Heap Bytes) (it it' : Iter) (t : List Pair) (i : ℕ) (es : List Pair)
      → IsOrdered errors
      → All IsShort es
      → length es < batch_entries
      → (let l = map (seen keys_only) es in
          fill scans cells batch_entries [] 0 0 (ready it)
          ≡ stop_failed scans cells f (keys_framed l) (0 + length l) (present l) 0 it')
      → Refills errors it t i es
  unfolding keys_framed present
  Refills-failed errors it it' t i [] ordered s few q =
      let (left, r) = refill-failed errors (ready it) _ t i ordered (
        next_batch-err scans cells batch_entries (omega arith) (kept keys_only t) (length t) it f _
          q) in
      inl (left, refl, r)
  Refills-failed errors it it' t i (x ∷ es) ordered s few q =
      let not_empty : (0 + length (map (seen keys_only) (x ∷ es)) == 0) ≡ false = ground arith in
      let (errors', r, ordered') =
        refill-batch errors (ready it) (waiting it') t (x ∷ es) i ordered
          (next_batch-ok scans cells batch_entries (omega arith) (kept keys_only t) (length t) it _
              _ _ (rw not_empty at q)
            ∙ seen-batch (map (seen keys_only) (x ∷ es)) (x ∷ es) (waiting it') refl)
          s (omega arith) (omega arith) in
      inr (inl (errors', it', ordered', omega arith, r))

  module _ (slices : (c : scans.Cursor) → scans.value_slice c ≡ scans.value c) where
    pub refills :
        (errors : Heap Bytes) (it : Iter) (t : List Pair) (i : ℕ) (es : List Pair)
        → IsOrdered errors
        → Fails es it
        → All IsShort es
        → Refills errors it t i es
    refills errors it t i es ordered h s =
        elim (fill-stops scans cells slices (map (seen keys_only) es) f batch_entries [] 0 0 [] 0 it
          h (Short-seen es s)) [
            | inl (it', few, q) ↦
                Refills-failed errors it it' t i es ordered s
                  (omega (arith, length-seen keys_only es)) q
            | inr (xs, ys, it', split, progress, few, h', q) ↦
                let (given, left, a, c, whole) = seen-split keys_only xs ys es split in
                let n : length xs ≡ length given = ap length a ∙ length-seen keys_only given in
                let (errors', r, ordered') =
                  refill-batch errors (ready it) (ready it') t given i ordered
                    (next_batch-ok scans cells batch_entries (omega arith) (kept keys_only t)
                        (length t) it _ _ _ q
                      ∙ seen-batch xs given (ready it') a)
                    (All-given given left (rw whole s)) (omega (arith, n, progress (omega arith)))
                    (omega (arith, n)) in
                inr (
                  inr (
                    errors',
                    it',
                    given,
                    left,
                    ordered',
                    omega (arith, n, progress (omega arith)),
                    whole,
                    rw c at h',
                    r,
                  ))
          ]
