-- ===== src/Go/Handles/Walked.antt =====
-- `NewIter` of `DB`, and a walk with the iterator that it gives.
use go_regolith.Base.{
  ℕ, ◌≡◌, ◌<◌, refl, ap, ◌∙◌, sym, Option, none, some, Bool, true, List, [], ◌∷◌, length, All,
  if◌then◌else◌,
}
use go_regolith.Base.Le.{IsByte}
use go_regolith.Failure.{Bytes}
use go_regolith.Guard.{Heap}
use go_regolith.Guard.Report.{IsOrdered}
use go_regolith.Batch.{WriteBatch}
use go_regolith.Options.{ResolvedOptions}
use go_regolith.Iter.Bounds.{Bounds, contains}
use go_regolith.Iter.Machine.{Scans, TxnInner, over_snapshot}
use go_regolith.Iter.Walk.Ways.{WalksBothWays}
use go_regolith.Iter.Walk.Spans.{Pair, filter, filter-same}
use go_regolith.Iter.Walk.Order.{walk_order, All-walk_order}
use go_regolith.Txn.{Transactions}
use go_regolith.Db
use go_regolith.Db.{Databases}
use go_regolith.Db.Calls.{regolith_db_iter}
use go_regolith.Go.Errors.{GoError}
use go_regolith.Go.Store.{GoDb}
use go_regolith.Go.Finish.{finish-ok}
use go_regolith.Go.Perform
use go_regolith.Go.Iter
use go_regolith.Go.Iter.{GoIter}
use go_regolith.Go.Iter.Frame.{IsShort}
use go_regolith.Go.Iter.Gather.{gather}
use go_regolith.Go.Iter.Walk.{gather-new_iter}
use go_regolith.Go.Ranges.{IterOptions, CMemory, free_options, read_options}
use go_regolith.Go.Ranges.Copied.{
  IsSame, made, ranges, in_range, contains-new_iter_options, free_options-new_iter_options,
}
use go_regolith.Go.Handles
use mathlib.Core.List.{map}
use mathlib.Core.Path.{subst}

All-inside :
    {p q : Bytes → Bool}
    → ((key : Bytes) → All IsByte key → p key ≡ q key)
    → (entries : List Pair) → All (λ e. All IsByte e.0) entries
    → All (λ e. p e.0 ≡ q e.0) entries
All-inside h [] b = tt
All-inside h (e ∷ entries) (b, bs) = (h e.0 b, All-inside h entries bs)

-- A walk, with the bounds' meaning written out.
walk_inside :
    (scans : Scans) (cells : ℕ → TxnInner scans.Txn) (entries : List Pair)
    → WalksBothWays scans entries
    → ((c : scans.Cursor) → scans.value_slice c ≡ scans.value c)
    → (c : scans.Cursor) (errors : Heap Bytes) (rounds : ℕ) (b : Bounds) (back only : Bool)
      (p : Bytes → Bool)
    → b.reverse ≡ back
    → b.keys_only ≡ only
    → All (λ e. contains b e.0 ≡ p e.0) entries
    → IsOrdered errors
    → All IsShort entries
    → length entries < rounds
    → gather scans cells rounds (
        Iter.new_iter scans only
          (record { errors = errors; inner = some (over_snapshot scans c b) }))
      ≡ some (
        map (λ e. (e.0, if only then [] else e.1)) (filter (λ e. p e.0) (walk_order back entries)),
        none,
      )
walk_inside scans cells entries laws slices c errors rounds b back only p r k inside o short h =
    rw (sym k, sym r)
      (gather-new_iter scans cells entries laws slices b c errors rounds o short h
        ∙ ap (λ l. some (map (λ e. (e.0, if b.keys_only then [] else e.1)) l, none))
            (filter-same (λ e. contains b e.0) (λ e. p e.0) (walk_order b.reverse entries)
              (All-walk_order (λ e. contains b e.0 ≡ p e.0) b.reverse entries inside)))

module _ {Others : Type 0} (usize_max : ℕ) (defaults : ResolvedOptions Others) (scans : Scans)
    (txns : Transactions scans.Txn) (batches : WriteBatch)
    (api : Databases scans txns batches Others) where
  abbrev opened :
      txns.Db → Heap Bytes → Heap Bytes → api.Disk → GoDb usize_max defaults scans txns batches api
  opened = Perform.opened usize_max defaults scans txns batches api

  module _ (opts : IterOptions) (memory : CMemory) (db : txns.Db) (errors pins : Heap Bytes)
      (disk : api.Disk) where
    abbrev g : GoDb usize_max defaults scans txns batches api
    g = opened db errors pins disk

    abbrev call :
        ((Option (GoIter scans) × Option GoError) × CMemory)
        × GoDb usize_max defaults scans txns batches api
    call = Handles.new_iter usize_max defaults scans txns batches api opts memory g

    new_iter_lem :
        IsOrdered errors
        → (errors' : Heap Bytes) × (IsOrdered errors')
          × (call ≡ (
            (
              (
                some (
                    Iter.new_iter scans opts.keys_only (record {
                      errors = errors';
                      inner = some (over_snapshot scans (api.snapshot db) (ranges memory opts));
                    })),
                none,
              ),
              free_options (made memory opts).0 (made memory opts).1,
            ),
            opened db errors' pins disk,
          ))
    unfolding Handles.new_iter Handles.iter_of regolith_db_iter
    new_iter_lem o =
        let (errors', q, same, ordered) =
          finish-ok
            (Db.iter usize_max defaults scans txns batches api
              (read_options (made memory opts).1 (made memory opts).0) true)
            g.host (over_snapshot scans (api.snapshot db) (ranges memory opts)) g.host.inner o
            (unfold Db.iter Db.on_db in refl) in
        (errors', ordered, rw q refl)

    -- An entry as a caller sees it.
    abbrev pub seen : Pair → Bytes × Bytes
    seen (k, v) = (k, if opts.keys_only then [] else v)

    abbrev pub gathered : List Pair → List Pair
    gathered entries = map seen (filter (λ e. in_range opts e.0) (walk_order opts.reverse entries))

    -- `NewIter` gave an iterator that walks exactly `entries`' part of the range, and its copy of the options
    -- is freed.
    pub record Walks (cells : ℕ → TxnInner scans.Txn) (rounds : ℕ) (entries : List Pair)
        : Type 0 where
      pub iter : GoIter scans
      pub given : call.0.0 ≡ (some iter, none)
      pub walked : gather scans cells rounds iter ≡ some (gathered entries, none)
      pub freed : IsSame memory call.0.1

    -- Where `DB` is open, the keys of the snapshot and the prefix are bytes, its cursor behaves as
    -- `WalksBothWays` says, its slices being its values, over `entries` of keys of 4 MiB at most, and no
    -- error object, C block or C struct is numbered from its heap's next number on: `NewIter` gives an
    -- iterator; calls of `Next`, with `Key` and `Value` after each, end without an error after one call
    -- more than there are entries at most, and give exactly the entries that `IterOptions` documents, in
    -- ascending order, or in descending order in reverse, each once, with the value unless keys only were
    -- asked for; and the copy of the options in C memory is freed.
    pub new_iter-Walks :
        (cells : ℕ → TxnInner scans.Txn) (entries : List Pair)
        → WalksBothWays scans entries
        → ((c : scans.Cursor) → scans.value_slice c ≡ scans.value c)
        → (rounds : ℕ) → IsOrdered errors
        → IsOrdered memory.blocks
        → IsOrdered memory.structs
        → All IsByte opts.prefix
        → All (λ e. All IsByte e.0) entries
        → All IsShort entries
        → length entries < rounds
        → Walks cells rounds entries
    new_iter-Walks cells entries laws slices rounds o blocks structs p bytes short h =
        let (errors', ordered, q) = new_iter_lem o in
        let (inside, direction, only) = contains-new_iter_options memory opts p in
        record {
          iter = Iter.new_iter scans opts.keys_only (record {
            errors = errors';
            inner = some (over_snapshot scans (api.snapshot db) (ranges memory opts));
          });
          given = ap (λ r. r.0.0) q;
          walked =
              walk_inside scans cells entries laws slices (api.snapshot db) errors' rounds
                (ranges memory opts) opts.reverse opts.keys_only (in_range opts) direction only
                (All-inside inside entries bytes) ordered short h;
          freed =
              subst (IsSame memory) (sym (ap (λ r. r.0.1) q))
                (free_options-new_iter_options memory opts blocks structs);
        }
