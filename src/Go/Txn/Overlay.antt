-- ===== src/Go/Txn/Overlay.antt =====
-- What a Go `Txn` promises: a map as the transaction found it, with its own writes over it, that it puts
-- into the store's map when it is committed.
use go_regolith.Base.{
  ℕ, ◌+◌, Option, none, some, Bool, true, false, not, List, [], ◌∷◌, ◌++◌, if◌then◌else◌,
}
use go_regolith.Batch.{RawOp}
use go_regolith.Batch.Sizing.{record_len}
use go_regolith.Go.Errors.{Sentinel, err_closed, err_conflict, err_discarded, err_read_only}
use go_regolith.Go.Model.{Answer, found, done, failed, Map, has_value, read, replayed}
use go_regolith.Go.Txn.Handle.{Request, get, has, set, delete, new_iter, commit, discard}

-- A call, with what `t.db.closed` holds at it, or another writer's change of the store.
pub data Event (Db : Type 0) : Type 0 where
  call : Request → Bool → Event Db
  elsewhere : Db → Event Db

pub record Overlay : Type 0 where
  pub live : Bool
  pub readonly : Bool
  pub base : Map
  pub writes : List RawOp
  pub store : Map

-- What the transaction sees: its writes, the last one on a key winning, over what it found.
unfoldable pub seen : Overlay → Map
unfolding replayed
seen s = replayed s.writes s.base

-- Why a call is refused before anything is asked, if it is.
abbrev pub refusal : Request → Bool → Overlay → Option Sentinel
refusal discard db_closed s = none
refusal commit db_closed s =
    if not s.live then some err_discarded else if db_closed then some err_closed else none
refusal _ db_closed s =
    if db_closed then some err_closed else if not s.live then some err_discarded else none

abbrev pub written : RawOp → Overlay → Answer × Overlay
written op s =
    if s.readonly
    then (failed err_read_only, s)
    else (done, record s { writes = s.writes ++ (op ∷ []) })

-- A call that is let through; `won` says that a commit finds no conflict.
abbrev pub answered : Bool → Request → Overlay → Answer × Overlay
answered won (get k) s = (read (seen s k), s)
answered won (has k) s = (found (has_value (seen s k)), s)
answered won (set k v) s = written (RawOp.set k v) s
answered won (delete k) s = written (RawOp.delete k) s
answered won (new_iter opts) s = (done, s)
answered won commit s =
    if won
    then (done, record s { live = false; store = replayed s.writes s.store })
    else (failed err_conflict, record s { live = false })
answered won discard s = (done, record s { live = false })

module _ {Db : Type 0} (contents : Db → Map) where
  unfoldable pub overlay : Bool → Event Db → Overlay → Answer × Overlay
  unfolding seen read
  overlay won (elsewhere db) s = (done, record s { store = contents db })
  overlay won (call q db_closed) s = elim (refusal q db_closed s) [
    | none ↦ answered won q s
    | some e ↦ (failed e, s)
  ]

  -- The events one after the other, each with the outcome of a commit; what is left out is a win.
  unfoldable pub overlay_all : List Bool → List (Event Db) → Overlay → List Answer × Overlay
  unfolding overlay
  overlay_all outcomes [] s = ([], s)
  overlay_all [] (q ∷ qs) s =
      let (a, s') = overlay true q s in
      let (answers, s'') = overlay_all [] qs s' in (a ∷ answers, s'')
  overlay_all (won ∷ outcomes) (q ∷ qs) s =
      let (a, s') = overlay won q s in
      let (answers, s'') = overlay_all outcomes qs s' in (a ∷ answers, s'')

  -- What the calls write, at most.
  unfoldable pub op_of : Event Db → List RawOp
  op_of (call (set k v) c) = RawOp.set k v ∷ []
  op_of (call (delete k) c) = RawOp.delete k ∷ []
  op_of _ = []

  unfoldable pub asked_len : List (Event Db) → ℕ
  unfolding op_of record_len
  asked_len [] = 0
  asked_len (q ∷ qs) = record_len (op_of q) + asked_len qs
