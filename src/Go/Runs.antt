-- ===== src/Go/Runs.antt =====
-- A store that is a log of its entries, and the theorems on the binding at concrete inputs.
use go_regolith.Base.{
  ◌^◌, ℕ, ◌≡◌, refl, Option, none, some, true, false, List, [], ◌∷◌, ◌++◌, if◌then◌else◌, All,
  arith,
}
use go_regolith.Base.Text.{codes}
use go_regolith.Failure.{Bytes, Result, ok, panic, literal, Failure, err, invalid_arg}
use go_regolith.Guard.{Heap, Host, guard}
use go_regolith.Guard.Report.{IsOrdered}
use go_regolith.Batch.{WriteBatch, RawOp, set, delete, u64_max}
use go_regolith.Batch.Decode.{build}
use go_regolith.Batch.Sizing.{record_len, op_record_len}
use go_regolith.Options.{
  RegolithOptions, options_from, unknown_presence, unknown_bits, ResolvedOptions,
  snapshot_isolation, lz4, eventual,
}
use go_regolith.Iter.Machine.{Scans, equals}
use go_regolith.Iter.Listed.{listed, off}
use go_regolith.Txn
use go_regolith.Txn.{Transactions}
use go_regolith.Db
use go_regolith.Db.{Databases}
use go_regolith.Db.Opening.{open_with_options-options_from}
use go_regolith.Db.Utf8.{from_utf8}
use go_regolith.Options.Go.{unset}
use go_regolith.Iter.Bounds.{in_bytes}
use go_regolith.Go.Errors.Meant.{IsMeant, told, status_to_err-IsMeant}
use go_regolith.Guard.Report.{outcome_status, outcome_detail}
use go_regolith.Go.Errors.{err_not_found, err_closed, status_to_err, SameCells}
use go_regolith.Go.Model
use go_regolith.Go.Model.{
  Map, Model, Answer, value, found, done, failed, Request, replayed, model_all, updated, has_value,
  IsServable,
}
use go_regolith.Go.Bodies.{KeepsMap}
use go_regolith.Go.Perform
use go_regolith.Go.Perform.{is_opened}
use go_regolith.Guard.Buffers.{Pointer, out_boxed}
use go_regolith.Go.Buffers.{take_buf, take_buf-out_boxed}
use go_regolith.Go.Refine.{perform_all-model_all}

-- The newest entry comes first; a removed key has a tombstone.
abbrev pub Log : Type 0
Log = List (Bytes × Option Bytes)

abbrev pub find : Bytes → Log → Option Bytes
find k [] = none
find k ((k', v) ∷ es) = if equals k k' then v else find k es

abbrev pub scans : Scans
scans = listed []

abbrev pub txns : Transactions (List (Bytes × Bytes))
txns = record {
  Db = Log;
  get_slice = λ k t. (Txn.returned none, t);
  put = λ k v t. (Txn.returned tt, (k, v) ∷ t);
  remove = λ k t. (Txn.returned tt, t);
  commit = λ t db. (Txn.returned tt, db);
  rollback = λ t db. db;
}

abbrev pub batches : WriteBatch
batches = record {
  Batch = Log;
  new = [];
  put = λ k v b. (k, some v) ∷ b;
  remove = λ k b. (k, none) ∷ b;
}

abbrev pub api : Databases scans txns batches (Unit {0})
api = record {
  Disk = Log;
  open_store = λ path options disk. (Txn.returned disk, disk);
  with_isolation = λ i db. db;
  isolation = λ db. snapshot_isolation;
  close = λ db disk. (Txn.returned tt, db);
  get_slice = λ k db. Txn.returned (find k db);
  has = λ k db. Txn.returned (has_value (find k db));
  put = λ k v db. (Txn.returned tt, (k, some v) ∷ db);
  remove = λ k db. (Txn.returned tt, (k, none) ∷ db);
  write = λ b db. (Txn.returned tt, b ++ db);
  drop_all = λ db. (Txn.returned tt, []);
  snapshot = λ db. off;
  begin_transaction_owned = λ i db. ([], db);
}

abbrev pub defaults : ResolvedOptions (Unit {0})
defaults = record {
  engine = record {
    write_buffer_size = 1;
    block_cache_size = 1;
    max_background_compactions = 1;
    transaction_keys_inline = 32;
    compression = lz4;
    durability = eventual;
    others = tt;
  };
  isolation = snapshot_isolation;
}

pub build-replayed :
    (ops : List RawOp) (b db : Log)
    → (λ q. find q (build batches ops b ++ db)) ≡ replayed ops (λ q. find q (b ++ db))
unfolding build replayed updated
build-replayed [] b db = refl
build-replayed (set k v ∷ ops) b db = build-replayed ops ((k, some v) ∷ b) db
build-replayed (delete k ∷ ops) b db = build-replayed ops ((k, none) ∷ b) db

unfoldable pub laws : KeepsMap u64_max defaults scans txns batches api
unfolding updated
laws = record {
  limits = record { max_key_size = 2 ^ 23; max_value_size = 2 ^ 30 };
  contents = λ db q. find q db;
  get_slice_is = λ k db. refl;
  has_is = λ k db. refl;
  put_is = λ k v db taken h. (refl, refl);
  remove_is = λ k db taken h. (refl, refl);
  write_is = λ ops db taken h. (refl, build-replayed ops [] db);
  drop_all_is = λ db. (refl, refl);
  close_is = λ db disk. refl;
}

abbrev empty : Heap Bytes
empty = record { next = 0; cell = λ p. none }

abbrev pub no_objects : Heap Bytes
no_objects = record { next = 0; cell = λ p. none }

abbrev new_store : Perform.Handle u64_max defaults scans txns batches api
new_store = Perform.opened u64_max defaults scans txns batches api [] no_objects no_objects []

abbrev no_entries : Model
no_entries = record { is_open = true; map = λ q. none }

new_store-Stands :
    Perform.Stands u64_max defaults scans txns batches api laws no_objects no_objects new_store
      no_entries
unfolding laws
new_store-Stands = is_opened [] no_objects no_objects [] refl refl (record {
  errors_same = λ p. refl;
  errors_ordered = record { ahead = λ p l. refl };
  pins_same = λ p. refl;
  pins_ordered = record { ahead = λ p l. refl };
})

abbrev pub a_key : Bytes
a_key = b'a' ∷ []

abbrev requests : List Request
requests =
    Model.put a_key (b'1' ∷ [])
    ∷ Model.get a_key
    ∷ Model.write (delete a_key ∷ set (b'b' ∷ []) [] ∷ [])
    ∷ Model.get a_key
    ∷ Model.get (b'b' ∷ [])
    ∷ Model.has a_key
    ∷ Model.close
    ∷ Model.get a_key
    ∷ []

abbrev answers : List Answer
answers =
    done
    ∷ value (b'1' ∷ [])
    ∷ done
    ∷ failed err_not_found
    ∷ value []
    ∷ found false
    ∷ done
    ∷ failed err_closed
    ∷ []

model_all-requests : (model_all requests no_entries).0 ≡ answers
unfolding model_all record_len equals op_record_len
model_all-requests = refl

requests-IsServable : All (IsServable u64_max laws.limits) requests
unfolding record_len op_record_len laws
requests-IsServable = (
  ((omega arith, omega arith), omega arith),
  (
    tt,
    (
      (
        (omega arith, ((omega arith, omega arith), tt)),
        (omega arith, ((omega arith, omega arith), tt)),
      ),
      (tt, (tt, (tt, (tt, (tt, tt))))),
    ),
  ),
)

perform_all-model_all_example :
    ((Perform.perform_all u64_max defaults scans txns batches api requests new_store).0
      ≡ (model_all requests no_entries).0)
    × Perform.Stands u64_max defaults scans txns batches api laws no_objects no_objects
        (Perform.perform_all u64_max defaults scans txns batches api requests new_store).1
        (model_all requests no_entries).1
perform_all-model_all_example =
    perform_all-model_all u64_max defaults scans txns batches api laws no_objects no_objects
      requests new_store no_entries (omega arith) requests-IsServable new_store-Stands

abbrev panics : ℕ → Result (Unit {0}) × ℕ
panics s = (panic (literal (codes "out of memory")), s)

abbrev shop : Host ℕ
shop = record { errors = no_objects; inner = 7 }

status_to_err-IsMeant_example :
    IsMeant
      (outcome_status (panics 7).0)
      (told (outcome_detail (panics 7).0))
      (status_to_err
        (guard true panics shop).0.status
        (guard true panics shop).0.slot
        (guard true panics shop).1.errors).0
    × SameCells no_objects
        (status_to_err
          (guard true panics shop).0.status
          (guard true panics shop).0.slot
          (guard true panics shop).1.errors).1
    × IsOrdered
        (status_to_err
          (guard true panics shop).0.status
          (guard true panics shop).0.slot
          (guard true panics shop).1.errors).1
status_to_err-IsMeant_example = status_to_err-IsMeant panics shop (record { ahead = λ p l. refl })

-- A presence bit that is not known.
abbrev strange : RegolithOptions
strange = record unset { present = 128 }

strange_refused :
    options_from u64_max defaults (some strange) ≡ err (invalid_arg (unknown_bits 128))
unfolding options_from unknown_presence
strange_refused = refl

open_with_options-options_from_example :
    (g : Failure) × (Db.open_with_options u64_max defaults scans txns batches api
        (some a_key)
        1
        (some strange)
        true
        (none, [])
      ≡ (err g, (none, [])))
    × (true ≡ true
        → (bytes text : Bytes) → in_bytes (some a_key) 1 ≡ some bytes
        → from_utf8 bytes ≡ some text
        → g ≡ invalid_arg (unknown_bits 128))
open_with_options-options_from_example =
    open_with_options-options_from u64_max defaults scans txns batches api (some a_key) 1
      (some strange) true (invalid_arg (unknown_bits 128)) (none, []) strange_refused

take_buf-out_boxed_example :
    (ptr : Pointer) × (len : ℕ) × (lent left : Heap Bytes) × (out_boxed
        (7 ∷ 0 ∷ [])
        true
        true
        no_objects
      ≡ (ok (ptr, len), lent))
    × (take_buf ptr len none lent ≡ some ((7 ∷ 0 ∷ [], none), left))
    × SameCells no_objects left
take_buf-out_boxed_example =
    take_buf-out_boxed (7 ∷ 0 ∷ []) no_objects (record { ahead = λ p l. refl }) (omega arith)
