-- ===== src/Go/Txn/Serve.antt =====
-- One call of a method of regolith.go's `Txn`, as a caller sees it, and the transactions that stand for an
-- overlay of Go/Txn/Overlay.
use go_regolith.Base.{ℕ, ◌≡◌, Option, none, some, Bool, true, false, List, [], ◌∷◌}
use go_regolith.Failure.{Bytes}
use go_regolith.Guard.{Heap}
use go_regolith.Iter.Machine.{Scans, TxnInner, RegolithIter}
use go_regolith.Txn.{Transactions}
use go_regolith.Txn.Calls.{}
use go_regolith.Go.Errors.{GoError}
use go_regolith.Go.Tidy.{Tidy}
use go_regolith.Go.Model.{Answer, done, failed}
use go_regolith.Go.Perform.{as_value, as_found, as_done}
use go_regolith.Go.Txn as GoSide
use go_regolith.Go.Txn.Handle.{get, has, set, delete, new_iter, commit, discard}
use go_regolith.Go.Txn.Overlay.{Event, call, elsewhere, Overlay}
use go_regolith.Go.Txn.Bodies
use go_regolith.Go.Txn.Bodies.{KeepsWrites}

module _ (scans : Scans) (api : Transactions scans.Txn) where
  abbrev pub GoTxn : Type 0
  GoTxn = GoSide.GoTxn scans api

  abbrev pub as_iter : Option (RegolithIter scans) × Option GoError → Answer
  as_iter (it, none) = done
  as_iter (it, some e) = failed e.sentinel

  -- One event: a call of a method, or a store that another writer has changed.
  unfoldable pub perform : Event api.Db → GoTxn → Answer × GoTxn
  perform (call (get k) c) t = let (r, t') = GoSide.get scans api k c t in (as_value r, t')
  perform (call (has k) c) t = let (r, t') = GoSide.has scans api k c t in (as_found r, t')
  perform (call (set k v) c) t = let (r, t') = GoSide.set scans api k v c t in (as_done r, t')
  perform (call (delete k) c) t = let (r, t') = GoSide.delete scans api k c t in (as_done r, t')
  perform (call (new_iter o) c) t = let (r, t') = GoSide.new_iter scans api o c t in (as_iter r, t')
  perform (call commit c) t = let (r, t') = GoSide.commit scans api c t in (as_done r, t')
  perform (call discard c) t = (done, GoSide.discard scans api t)
  perform (elsewhere db) t =
      (done, record t { host = record (t.host) { inner = record (t.host.inner) { db = db } } })

  unfoldable pub perform_all : List (Event api.Db) → GoTxn → List Answer × GoTxn
  unfolding perform
  perform_all [] t = ([], t)
  perform_all (q ∷ qs) t =
      let (a, t') = perform q t in let (answers, t'') = perform_all qs t' in (a ∷ answers, t'')

  abbrev pub seated : ℕ → (ℕ → TxnInner scans.Txn) → Heap Bytes → Heap Bytes → api.Db → GoTxn
  seated id cells errors pins db = record {
    resolved = false;
    host = record { errors = errors; inner = Bodies.seat scans api (some id) cells pins db };
  }

  module _ (laws : KeepsWrites scans api) (e₀ p₀ : Heap Bytes) where
    abbrev pub found_by : Bool → scans.Txn → api.Db → Overlay
    found_by ro t db = record {
      live = true;
      readonly = ro;
      base = laws.base t;
      writes = laws.writes t;
      store = laws.contents db;
    }

    -- The Go transaction stands for the overlay: an unresolved one with the engine's transaction behind its
    -- handle, or a resolved one; the store's contents are the overlay's, and nothing is left behind.
    pub data Stands (g : GoTxn) (s : Overlay) : Type 0 where
      is_live :
          (id : ℕ) (cells : ℕ → TxnInner scans.Txn) (errors pins : Heap Bytes) (db : api.Db)
          (t : scans.Txn) (ro : Bool)
          → g ≡ seated id cells errors pins db
          → cells id ≡ Bodies.alive scans api t ro
          → s ≡ found_by ro t db
          → Tidy e₀ p₀ errors pins
          → Stands g s
      is_resolved :
          g.resolved ≡ true
          → s.live ≡ false
          → laws.contents g.host.inner.db ≡ s.store
          → Tidy e₀ p₀ g.host.errors g.host.inner.pins
          → Stands g s
