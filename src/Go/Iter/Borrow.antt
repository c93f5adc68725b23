-- ===== src/Go/Iter/Borrow.antt =====
-- iter.go: `BorrowValue` and `AppendValue`, and `Value` beside them. A callback changes a state of its own and
-- does not call the iterator back, as the code documents.
use go_regolith.Base.{
  ℕ, ◌≡◌, refl, ap, ◌∙◌, Option, none, some, true, inl, inr, Bool-cases, ◌||◌, [], ◌++◌, leb,
  if◌then◌else◌, length,
}
use go_regolith.Failure.{Bytes}
use go_regolith.Iter.Machine.{Scans}
use go_regolith.Iter.Calls.{regolith_iter_batch_value}
use go_regolith.Go.Errors.{GoError}
use go_regolith.Go.Store.{finish}
use go_regolith.Go.Iter.{GoIter, value, copied_value}

-- `fn`
abbrev pub Callback : Type 0 → Type 0
Callback S = Bytes → S → Option GoError × S

module _ (scans : Scans) where
  module _ {S : Type 0} (fn : Callback S) where
    -- What the iterator's side gave, handed on.
    abbrev pub lent : Option (Option Bytes × ℕ) × Option GoError → S → Option GoError × S
    lent (out, none) s = fn (copied_value scans out) s
    lent (out, some e) s = (some e, s)

    unfoldable pub borrow_value : GoIter scans → S → (Option GoError × S) × GoIter scans
    unfolding regolith_iter_batch_value
    borrow_value it s =
        if it.keys_only || leb (length it.ents) it.pos
        then (fn [] s, it)
        else let (r, host) = finish (regolith_iter_batch_value scans it.pos true true it.host) in
          (lent r s, record it { host = host })

    -- What a callback would be told of the result of `Value`.
    abbrev pub told : Bytes × Option GoError → S → Option GoError × S
    told (v, none) s = fn v s
    told (v, some e) s = (some e, s)

    -- `BorrowValue` calls its function once, on the bytes that `Value` returns at that place (none for a
    -- missing entry, an empty value or keys only), and returns the function's error; where `Value` fails, it
    -- returns that error and does not call it. It leaves the iterator as `Value` does.
    pub borrow_value-value :
        (it : GoIter scans) (s : S)
        → borrow_value it s ≡ (told (value scans it).0 s, (value scans it).1)
    unfolding borrow_value value
    borrow_value-value it s = elim (Bool-cases (it.keys_only || leb (length it.ents) it.pos)) [
      | inl none_there ↦ rw none_there refl
      | inr there ↦ rw there (
          by_error (finish (regolith_iter_batch_value scans it.pos true true it.host)).0
            (record it {
              host = (finish (regolith_iter_batch_value scans it.pos true true it.host)).1;
            }))
    ]
      where
        by_error :
            (r : (Option (Option Bytes × ℕ) × Option GoError)) (it' : GoIter scans)
            → ◌≡◌ {A = (Option GoError × S) × GoIter scans}
                (lent r s, it')
                (told (elim r.1 [ none ↦ copied_value scans r.0 | some e ↦ [] ], r.1) s, it')
        by_error (out, none) it' = refl
        by_error (out, some e) it' = refl

  abbrev pub appended : Callback Bytes
  appended value dst = (none, dst ++ value)

  -- The returns behind the call.
  abbrev pub returned :
      (Option GoError × Bytes) × GoIter scans → (Bytes × Option GoError) × GoIter scans
  returned ((none, dst), it) = ((dst, none), it)
  returned ((some e, dst), it) = (([], some e), it)

  unfoldable pub append_value : Bytes → GoIter scans → (Bytes × Option GoError) × GoIter scans
  unfolding borrow_value
  append_value dst it = returned (borrow_value appended it dst)

  -- What `AppendValue` makes of the result of `Value`.
  abbrev pub extended : Bytes → Bytes × Option GoError → Bytes × Option GoError
  extended dst (v, none) = (dst ++ v, none)
  extended dst (v, some e) = ([], some e)

  returned-told :
      (dst : Bytes) (r : Bytes × Option GoError) (it : GoIter scans)
      → returned (told appended r dst, it) ≡ (extended dst r, it)
  returned-told dst (v, none) it = refl
  returned-told dst (v, some e) it = refl

  -- `AppendValue` returns its argument followed by the bytes that `Value` returns at that place; where `Value`
  -- fails, it returns that error and nil. It leaves the iterator as `Value` does.
  pub append_value-value :
      (dst : Bytes) (it : GoIter scans)
      → append_value dst it ≡ (extended dst (value scans it).0, (value scans it).1)
  unfolding append_value
  append_value-value dst it =
      ap returned (borrow_value-value appended it dst)
      ∙ returned-told dst (value scans it).0 (value scans it).1
