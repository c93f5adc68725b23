-- ===== src/Go/Handles/Runs.antt =====
-- New handles of a store of four entries that keeps its level, and the theorems at concrete inputs.
use go_regolith.Base.{◌≡◌, refl, none, some, true, false, inr, List, [], ◌∷◌, arith, All}
use go_regolith.Failure.{Bytes}
use go_regolith.Batch.{WriteBatch, u64_max}
use go_regolith.Guard.Report.{IsOrdered}
use go_regolith.Options.{IsolationLevel, read_committed}
use go_regolith.Options.Settings.{in_go}
use go_regolith.Iter.Listed.{listed, off, listed-WalksBothWays, four, four-Ascending, no_txns}
use go_regolith.Iter.Bounds.{contains}
use go_regolith.Base.Le.{IsByte}
use go_regolith.Txn
use go_regolith.Txn.{Transactions}
use go_regolith.Db.{Databases}
use go_regolith.Go.Runs.{defaults, no_objects}
use go_regolith.Go.Opening
use go_regolith.Go.Opening.{World}
use go_regolith.Go.Opening.Runs.{tuned, tuned-IsHeld, path, path_is_utf8}
use go_regolith.Go.Ranges.{IterOptions, CMemory, free_options}
use go_regolith.Go.Ranges.Copied.{
  IsSame, made, free_options-new_iter_options, contains-new_iter_options, ranges, in_range,
}
use go_regolith.Go.Handles
use go_regolith.Go.Handles.Walked
use go_regolith.Go.Handles.Walked.{new_iter-Walks}
use go_regolith.Go.Handles.Begun
use go_regolith.Go.Handles.Begun.{new_txn-open_with}

-- A store is its level; its entries are `four`.
abbrev txns : Transactions (List (Bytes × Bytes))
txns = record {
  Db = IsolationLevel;
  get_slice = λ k t. (Txn.returned none, t);
  put = λ k v t. (Txn.returned tt, (k, v) ∷ t);
  remove = λ k t. (Txn.returned tt, t);
  commit = λ t db. (Txn.returned tt, db);
  rollback = λ t db. db;
}

abbrev batches : WriteBatch
batches = record { Batch = Unit {0}; new = tt; put = λ k v b. b; remove = λ k b. b }

abbrev api : Databases (listed four) txns batches (Unit {0})
api = record {
  Disk = Unit {0};
  open_store = λ path options disk. (Txn.returned read_committed, disk);
  with_isolation = λ level db. level;
  isolation = λ db. db;
  close = λ db disk. (Txn.returned tt, disk);
  get_slice = λ k db. Txn.returned none;
  has = λ k db. Txn.returned false;
  put = λ k v db. (Txn.returned tt, db);
  remove = λ k db. (Txn.returned tt, db);
  write = λ b db. (Txn.returned tt, db);
  drop_all = λ db. (Txn.returned tt, db);
  snapshot = λ db. off;
  begin_transaction_owned = λ level db. ([], db);
}

abbrev ordered : IsOrdered no_objects
ordered = record { ahead = λ p l. refl }

abbrev no_memory : CMemory
no_memory = record { blocks = no_objects; structs = record { next = 0; cell = λ p. none } }

-- `b` is a prefix; the start is not looked at.
abbrev under_b : IterOptions
under_b = record { prefix = 98 ∷ []; start = 99 ∷ []; end = []; reverse = false; keys_only = false }

free_options-new_iter_options_example :
    IsSame no_memory (free_options (made no_memory under_b).0 (made no_memory under_b).1)
free_options-new_iter_options_example =
    free_options-new_iter_options no_memory under_b ordered (record { ahead = λ p l. refl })

new_iter-Walks_example :
    Walked.Walks u64_max defaults
      (listed four)
      txns
      batches
      api
      under_b
      no_memory
      read_committed
      no_objects
      no_objects
      tt
      no_txns
      5
      four
new_iter-Walks_example =
    new_iter-Walks u64_max defaults (listed four) txns batches api under_b no_memory read_committed
      no_objects no_objects tt no_txns four (listed-WalksBothWays four four-Ascending) (λ c. refl) 5
      ordered ordered (record { ahead = λ p l. refl }) (omega arith, tt)
      (
        (omega arith, tt),
        ((omega arith, tt), ((omega arith, (omega arith, tt)), ((omega arith, tt), tt))),
      )
      (omega arith, (omega arith, (omega arith, (omega arith, tt)))) (omega arith)

gathered-under_b :
    Walked.gathered u64_max defaults
      (listed four)
      txns
      batches
      api
      under_b
      no_memory
      read_committed
      no_objects
      no_objects
      tt
      four
    ≡ (98 ∷ [], []) ∷ (98 ∷ 255 ∷ [], 3 ∷ []) ∷ []
unfolding in_range
gathered-under_b = refl

abbrev world : World u64_max defaults (listed four) txns batches api
world = record { errors = no_objects; pins = no_objects; disk = tt }

new_txn-open_with_example :
    (g : _) × (Opening.open_with u64_max defaults
        (listed four)
        txns
        batches
        api
        path
        (in_go tuned)
        world
      ≡ inr g)
    × ((Handles.new_txn u64_max defaults (listed four) txns batches api true g).0
        ≡ (some (Begun.live_txn u64_max defaults (listed four) txns batches api [] true), none))
new_txn-open_with_example =
    new_txn-open_with u64_max defaults (listed four) txns batches api path tuned world true
      read_committed (λ level d. refl) ordered path_is_utf8 tuned-IsHeld (unfold Txn.asked in refl)

contains-new_iter_options_example :
    ((key : Bytes)
      → All IsByte key
      → contains (ranges no_memory under_b) key ≡ in_range under_b key)
    × ((ranges no_memory under_b).reverse ≡ false)
    × ((ranges no_memory under_b).keys_only ≡ false)
contains-new_iter_options_example = contains-new_iter_options no_memory under_b (omega arith, tt)
