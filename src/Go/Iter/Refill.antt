-- ===== src/Go/Iter/Refill.antt =====
-- A call of `Next` that is past its batch: `refill` in iter.go, on an iterator over a snapshot.
use go_regolith.Base.{
  ℕ, suc, ◌^◌, ◌≤◌, ◌<◌, ◌≡◌, refl, sym, ap, ◌∙◌, none, some, true, false, List, [], ◌∷◌, length,
  drop, All, arith,
}
use mathlib.Core.Path.{subst}
use go_regolith.Failure.{Bytes}
use go_regolith.Guard.{Heap}
use go_regolith.Guard.Report.{IsOrdered}
use go_regolith.Iter.Bounds.{Bounds}
use go_regolith.Iter.Machine.{Scans, TxnInner, RegolithIter}
use go_regolith.Iter.Calls.{on_iter}
use go_regolith.Iter.Walk.Ways.{WalksBothWays}
use go_regolith.Iter.Walk.Spans.{Pair}
use go_regolith.Iter.Batches.{framed}
use go_regolith.Iter.Batches.Fill.{taken, kept}
use go_regolith.Iter.Batches.Next.{next_batch-placed}
use go_regolith.Go.Finish.{finish-ok}
use go_regolith.Go.Iter.{GoIter, batch_entries, next, refill, refilled}
use go_regolith.Go.Iter.Frame.{spots, IsShort, locate-framed, length-framed, length-framed_fuel}
use go_regolith.Go.Iter.Seated
use go_regolith.Go.Iter.Seats

module _ (scans : Scans) (cells : ℕ → TxnInner scans.Txn) (entries : List Pair)
    (laws : WalksBothWays scans entries)
    (slices : (c : scans.Cursor) → scans.value_slice c ≡ scans.value c) (b : Bounds) where
  abbrev Place : Type 0
  Place = Seated.Place scans cells entries laws slices b

  abbrev rest : Place → List Pair
  rest = Seated.rest scans cells entries laws slices b

  abbrev placed : Place → RegolithIter scans → RegolithIter scans
  placed = Seated.placed scans cells entries laws slices b

  abbrev behind : Place → RegolithIter scans → List Pair → RegolithIter scans
  behind = Seated.behind scans cells entries laws slices b

  abbrev seated : Heap Bytes → Place → RegolithIter scans → List Pair → ℕ → GoIter scans
  seated = Seated.seated scans cells entries laws slices b

  abbrev pub batch : List Pair → List Pair
  batch l = taken b.keys_only batch_entries 0 l

  -- What `Next` is left with when its batch is at an end.
  abbrev pub between : Heap Bytes → Place → RegolithIter scans → Bytes → List Pair → GoIter scans
  between errors p x buf new = record {
    keys_only = b.keys_only;
    buf = buf;
    ents = [];
    pos = 0;
    done = false;
    closed = false;
    host = record { errors = errors; inner = some (behind p x new) };
  }

  -- `refill`, from an iterator whose handle is at the place `p`, of which `l` is still to be walked.
  abbrev pub Refills : Heap Bytes → Place → RegolithIter scans → GoIter scans → List Pair → Type 0
  Refills errors p x it l =
      (errors' : Heap Bytes) × (p' : Place) × (refill scans cells (record it {
        host = record { errors = errors; inner = some (placed p (record x { pending = none })) };
      })
        ≡ refilled scans cells (some (framed (batch l), length (batch l)), none)
            (record it {
              ents = [];
              pos = 0;
              host = record { errors = errors'; inner = some (behind p' x (batch l)) };
            }))
      × IsOrdered errors'
      × (rest p' ≡ drop (length (batch l)) l)

  Refills-rest :
      (errors : Heap Bytes) (p : Place) (x : RegolithIter scans) (it : GoIter scans)
      → IsOrdered errors
      → All (λ e. length e.0 < 2 ^ 32) (rest p)
      → Refills errors p x it (rest p)
  unfolding on_iter
  Refills-rest errors p x it ordered s =
      let (p', q, left) =
        next_batch-placed scans cells entries laws slices b batch_entries p x (omega arith) s in
      let whole = record it {
        host = record { errors = errors; inner = some (placed p (record x { pending = none })) };
      } in
      let (errors', r, same, ordered') =
        finish-ok (Seats.next_body scans cells) whole.host _ (some (behind p' x (batch (rest p))))
          ordered (ap (λ z. (z.0, some z.1)) q) in
      (
        errors',
        p',
        Seats.refill-refilled scans cells whole
            ∙ ap (λ z. refilled scans cells z.0 (record it { ents = []; pos = 0; host = z.1 })) r,
        ordered',
        left,
      )

  pub refills :
      (errors : Heap Bytes) (p : Place) (x : RegolithIter scans) (it : GoIter scans) (l : List Pair)
      → IsOrdered errors
      → rest p ≡ l
      → All (λ e. length e.0 < 2 ^ 32) l
      → Refills errors p x it l
  refills errors p x it l ordered r s =
      subst (Refills errors p x it) r
        (Refills-rest errors p x it ordered (subst (All (λ e. length e.0 < 2 ^ 32)) (sym r) s))

  abbrev pub Moves : Heap Bytes → Place → RegolithIter scans → List Pair → ℕ → List Pair → Type 0
  Moves errors p x t i l =
      (errors' : Heap Bytes) × (p' : Place) × (next scans cells false (seated errors p x t i)
        ≡ refilled scans cells (some (framed (batch l), length (batch l)), none)
            (between errors' p' x (framed t) (batch l)))
      × IsOrdered errors'
      × (rest p' ≡ drop (length (batch l)) l)

  pub next_refills :
      (errors : Heap Bytes) (p : Place) (x : RegolithIter scans) (t : List Pair) (i : ℕ)
      (l : List Pair)
      → IsOrdered errors
      → length t ≤ suc i
      → rest p ≡ l
      → All (λ e. length e.0 < 2 ^ 32) l
      → Moves errors p x t i l
  next_refills errors p x t i l ordered h r s =
      let x' = record x { batch_values = kept b.keys_only t; batch_count = length t } in
      let (errors', p', q, ordered', left) =
        refills errors p x' (seated errors p x t i) l ordered r s in
      (
        errors',
        p',
        Seats.next-refill scans cells b.keys_only errors
              (Seated.at scans cells entries laws slices b p x) t i h
            ∙ q,
        ordered',
        left,
      )

  pub refilled-none :
      (it : GoIter scans)
      → refilled scans cells (some ([], 0), none) it
        ≡ some ((false, none), record it { done = true })
  unfolding refilled
  refilled-none it = refl

  pub refilled-batch :
      (errors : Heap Bytes) (p : Place) (x : RegolithIter scans) (buf : Bytes) (e : Pair)
      (es : List Pair)
      → All IsShort (e ∷ es)
      → length (e ∷ es) ≤ batch_entries
      → refilled scans cells
          (some (framed (e ∷ es), length (e ∷ es)), none)
          (between errors p x buf (e ∷ es))
        ≡ some ((true, none), seated errors p x (e ∷ es) 0)
  refilled-batch errors p x buf e es s l =
      Seats.refilled-located scans cells (between errors p x buf (e ∷ es)) (framed (e ∷ es))
        (length (e ∷ es)) (spots 0 (e ∷ es)) (omega (arith, length-framed (e ∷ es) s)) (omega arith)
        (locate-framed (length (framed (e ∷ es))) 0 (e ∷ es) s (length-framed_fuel (e ∷ es)))
