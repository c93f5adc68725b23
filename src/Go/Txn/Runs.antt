-- ===== src/Go/Txn/Runs.antt =====
-- Go transactions over an engine whose commits fail and over one that keeps maps, and the theorems on them at
-- concrete inputs.
use go_regolith.Base.{
  ◌^◌, ℕ, ◌≡◌, ◌⊎◌, inl, inr, refl, none, some, Bool, true, false, List, [], ◌∷◌, ◌++◌,
  if◌then◌else◌, arith,
}
use go_regolith.Failure.{Bytes, conflict, busy}
use go_regolith.Guard.{Heap, guard}
use go_regolith.Go.Store.{finish, byte_ptr}
use go_regolith.Batch.{RawOp}
use go_regolith.Batch.Sizing.{record_len, op_record_len}
use go_regolith.Iter.Machine.{Scans, TxnInner, equals}
use go_regolith.Go.Errors.{err_conflict, err_discarded}
use go_regolith.Go.Model.{Map, done, value, failed, replayed, updated}
use go_regolith.Go.Txn.Overlay.{Event, call, elsewhere, Overlay, overlay_all, asked_len, op_of}
use go_regolith.Go.Txn.Bodies.{KeepsWrites}
use go_regolith.Go.Txn.Serve
use go_regolith.Go.Txn.Serve.{perform_all, is_live}
use go_regolith.Go.Txn.Refine.{perform_all-overlay_all}
use go_regolith.Iter.Listed.{listed}
use go_regolith.Txn
use go_regolith.Go.Txn as GoSide
use go_regolith.Go.Txn.Handle.{Request, get, set, commit, discard, step_all, step_all-IsOwner}
use go_regolith.Go.Txn.Handle

abbrev no_objects : Heap Bytes
no_objects = record { next = 0; cell = λ p. none }

-- Every commit loses its race.
abbrev losing : Txn.Transactions (List (Bytes × Bytes))
losing = record {
  Db = Unit {0};
  get_slice = λ k t. (Txn.returned none, t);
  put = λ k v t. (Txn.returned tt, (k, v) ∷ t);
  remove = λ k t. (Txn.returned tt, t);
  commit = λ t db. (Txn.transaction_error conflict, tt);
  rollback = λ t db. tt;
}

abbrev begun : GoSide.GoTxn (listed []) losing
begun = record {
  resolved = false;
  host = record {
    errors = no_objects;
    inner = record {
      handle = some 4;
      cells = λ id. record { txn = some []; poisoned = false; readonly = false };
      pins = no_objects;
      db = tt;
    };
  };
}

abbrev calls : List (Request × Bool)
calls =
    (set (1 ∷ []) (2 ∷ []), false)
    ∷ (get (1 ∷ []), true)
    ∷ (commit, false)
    ∷ (get [], false)
    ∷ (discard, false)
    ∷ []

-- The commit that failed has resolved it.
resolved_by_commit : (step_all (listed []) losing calls begun).resolved ≡ true
unfolding step_all GoSide.get GoSide.set GoSide.commit GoSide.discard
resolved_by_commit = refl

step_all-IsOwner_example :
    Handle.IsOwner (listed []) losing 4 (step_all (listed []) losing calls begun)
step_all-IsOwner_example =
    step_all-IsOwner (listed []) losing 4 calls begun (record { handle_is = refl })

-- A transaction is the map that it found and its writes; a store is its map, and whether another writer has
-- been there, which makes a commit fail.
abbrev keeping : Scans
keeping = record {
  Cursor = Unit {0};
  seek = λ k c. tt;
  seek_for_prev = λ k c. tt;
  seek_to_first = λ c. tt;
  seek_to_last = λ c. tt;
  next = λ c. tt;
  prev = λ c. tt;
  valid = λ c. false;
  key = λ c. none;
  value = λ c. none;
  value_slice = λ c. none;
  status = λ c. none;
  Txn = Map × List RawOp;
  Stream = Unit {0};
  scan_stream_in = λ s e d t. tt;
  stream_next = λ s. (none, tt);
  stream_status = λ s. none;
}

abbrev engine : Txn.Transactions (Map × List RawOp)
engine = record {
  Db = Map × Bool;
  get_slice = λ k (b, ws). (Txn.returned (replayed ws b k), (b, ws));
  put = λ k v (b, ws). (Txn.returned tt, (b, ws ++ (RawOp.set k v ∷ [])));
  remove = λ k (b, ws). (Txn.returned tt, (b, ws ++ (RawOp.delete k ∷ [])));
  commit = λ (b, ws) (m, raced).
      if raced
      then (Txn.transaction_error conflict, (m, raced))
      else (Txn.returned tt, (replayed ws m, raced));
  rollback = λ t db. db;
}

abbrev commits :
    (t : Map × List RawOp) (db : Map × Bool)
    → (((engine.commit t db).0 ≡ Txn.returned tt) × ((engine.commit t db).1.0 ≡ replayed t.1 db.0))
      ⊎ ((((engine.commit t db).0 ≡ Txn.transaction_error conflict)
            ⊎ ((engine.commit t db).0 ≡ Txn.transaction_error busy))
          × ((engine.commit t db).1.0 ≡ db.0))
commits (b, ws) (m, true) = inr (inl refl, refl)
commits (b, ws) (m, false) = inl (refl, refl)

abbrev laws : KeepsWrites keeping engine
laws = record {
  limits = record { max_key_size = 2 ^ 23; max_value_size = 2 ^ 30 };
  base = λ t. t.0;
  writes = λ t. t.1;
  contents = λ db. db.0;
  get_slice_is = λ k t. (refl, refl, refl);
  put_is = λ k v t taken h. (refl, refl, refl);
  remove_is = λ k t taken h. (refl, refl, refl);
  commit_is = λ t db taken h. commits t db;
  rollback_is = λ t db. refl;
}

abbrev cells : ℕ → TxnInner (Map × List RawOp)
cells id = record { txn = some ((λ k. none), []); poisoned = false; readonly = false }

abbrev fresh : GoSide.GoTxn keeping engine
fresh =
    Serve.seated keeping engine 4 cells no_objects no_objects
      ((λ k. if equals k (1 ∷ []) then some (7 ∷ []) else none), false)

abbrev found : Overlay
found =
    Serve.found_by keeping engine laws no_objects no_objects false ((λ k. none), [])
      ((λ k. if equals k (1 ∷ []) then some (7 ∷ []) else none), false)

-- A write, a read of it, another writer, a read and a commit that loses, and a call after it.
abbrev events : List (Event (Map × Bool))
events =
    call (set (1 ∷ []) (2 ∷ [])) false
    ∷ call (get (1 ∷ [])) false
    ∷ elsewhere ((λ k. none), true)
    ∷ call (get (1 ∷ [])) false
    ∷ call commit false
    ∷ call (get (1 ∷ [])) false
    ∷ []

answers_of_the_events :
    (perform_all keeping engine events fresh).0
    ≡ done
      ∷ value (2 ∷ [])
      ∷ done
      ∷ value (2 ∷ [])
      ∷ failed err_conflict
      ∷ failed err_discarded
      ∷ []
unfolding perform_all GoSide.get GoSide.set GoSide.commit replayed updated equals finish guard
    Txn.set byte_ptr Txn.get_borrowed Txn.commit
answers_of_the_events = refl

perform_all-overlay_all_example :
    (outcomes : List Bool) × ((perform_all keeping engine events fresh).0
      ≡ (overlay_all laws.contents outcomes events found).0)
    × Serve.Stands keeping engine laws no_objects no_objects
        (perform_all keeping engine events fresh).1
        (overlay_all laws.contents outcomes events found).1
perform_all-overlay_all_example =
    perform_all-overlay_all keeping engine laws no_objects no_objects events fresh found tt
      (unfold op_of in (((omega arith, omega arith), tt), (tt, (tt, (tt, (tt, (tt, tt)))))))
      (unfold asked_len op_of record_len op_record_len in omega arith)
      (is_live 4 cells no_objects no_objects
        ((λ k. if equals k (1 ∷ []) then some (7 ∷ []) else none), false) ((λ k. none), []) false
        refl refl refl
        (record {
          errors_same = λ p. refl;
          errors_ordered = record { ahead = λ p l. refl };
          pins_same = λ p. refl;
          pins_ordered = record { ahead = λ p l. refl };
        }))
