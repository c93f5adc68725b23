-- ===== src/Go/Txn/Steps/Ends.antt =====
-- Commit and Discard of a Go `Txn` that is not resolved, and writes of others meanwhile.
use go_regolith.Base.{All, ◌≡◌, refl, ap, ◌∙◌, inl, inr, Option, none, Bool, true, false, ◌+◌, ◌≤◌}
use go_regolith.Failure.{Bytes, ok, conflict, busy}
use go_regolith.Exec.{Exec}
use go_regolith.Guard.{Heap, Host, guard, settle, report}
use go_regolith.Iter.Machine.{Scans}
use go_regolith.Txn
use go_regolith.Txn.{Transactions, Call, returned, transaction_error}
use go_regolith.Txn.Calls.{regolith_txn_commit, regolith_txn_free}
use go_regolith.Batch.{batch_count_len, max_batch_record_len}
use go_regolith.Batch.Sizing.{IsTaken, record_len}
use go_regolith.Go.Errors.{GoError, error_of, classify, err_conflict}
use go_regolith.Go.Store.{finish}
use go_regolith.Go.Tidy.{finish-Tidy}
use go_regolith.Go.Model.{Answer, done, failed}
use go_regolith.Go.Perform.{as_done}
use go_regolith.Go.Txn as GoSide
use go_regolith.Go.Txn.Handle.{commit, discard}
use go_regolith.Go.Txn.Overlay.{Event, call, elsewhere, Overlay, overlay}
use go_regolith.Go.Txn.Bodies
use go_regolith.Go.Txn.Bodies.{KeepsWrites}
use go_regolith.Go.Txn.Serve
use go_regolith.Go.Txn.Serve.{is_live, is_resolved}
use go_regolith.Go.Txn.Steps
use go_regolith.Go.Txn.Steps.{Found, lands, kept}

-- A call with no error slot boxes nothing.
guard-quiet :
    {S A : Type 0} (body : Exec S A) (errors : Heap Bytes) (s₀ s : S) (a : A)
    → body s₀ ≡ (ok a, s)
    → (guard false body (record { errors = errors; inner = s₀ })).1
      ≡ record { errors = errors; inner = s }
unfolding guard settle report
guard-quiet body errors s₀ s a e = rw e refl

module _ (scans : Scans) (api : Transactions scans.Txn) (laws : KeepsWrites scans api)
    (e₀ p₀ : Heap Bytes) (at : Found scans api e₀ p₀) where
  open at use {id, cells, errors, pins, db, t, ro, cell, tidy}

  abbrev Seat : Type 0
  Seat = Bodies.Seat scans api

  abbrev GoTxn : Type 0
  GoTxn = Serve.GoTxn scans api

  abbrev here : Seat
  here = Steps.here scans api laws e₀ p₀ at

  abbrev host : Host Seat
  host = Steps.host scans api laws e₀ p₀ at

  abbrev g : GoTxn
  g = Steps.g scans api laws e₀ p₀ at

  abbrev s : Overlay
  s = Steps.s scans api laws e₀ p₀ at

  abbrev perform : Event api.Db → GoTxn → Answer × GoTxn
  perform = Serve.perform scans api

  abbrev specified : Bool → Event api.Db → Overlay → Answer × Overlay
  specified = overlay laws.contents

  abbrev Meets : Event api.Db → Type 0
  Meets = Steps.Meets scans api laws e₀ p₀ at

  -- A method that returns an error only.
  abbrev closing : Bool → (Option (Unit {0}) × Option GoError) × Host Seat → Answer × GoTxn
  closing resolved ((out, e), host) = (as_done e, record { resolved = resolved; host = host })

  abbrev commit_call : Exec Seat (Unit {0})
  commit_call = Txn.commit scans api

  perform-commit :
      perform (call commit false) g ≡ closing true (finish (guard true commit_call host))
  unfolding Serve.perform GoSide.commit regolith_txn_commit
  perform-commit = refl

  -- What a commit leaves, and the transaction over it.
  abbrev spent : Seat
  spent =
      Bodies.seat scans api none (Bodies.taken scans api id cells pins db t ro cell) pins
        (api.commit t db).1

  abbrev over : Heap Bytes → GoTxn
  over errors' = record { resolved = true; host = record { errors = errors'; inner = spent } }

  -- A commit that the engine ends with `c`.
  commits :
      (won : Bool) (a : Answer) (s' : Overlay) (c : Call (Unit {0}))
      → (api.commit t db).0 ≡ c
      → specified won (call commit false) s ≡ (a, s')
      → as_done (error_of (Txn.asked c)) ≡ a
      → s'.live ≡ false
      → laws.contents (api.commit t db).1 ≡ s'.store
      → Meets (call commit false)
  commits won a s' c e m same ended contents =
      let (errors', q, tidy') = finish-Tidy tidy commit_call here spent (Txn.asked c) (
        Bodies.commit_body scans api id cells pins db t ro cell
        ∙ ap (λ z. (Txn.asked z, spent)) e) in
      lands scans api laws e₀ p₀ at won (call commit false) a (over errors') s'
        (perform-commit ∙ ap (closing true) q ∙ ap (λ z. (z, over errors')) same) m
        (is_resolved refl ended contents tidy')

  pub commit-Meets :
      All (IsTaken laws.limits) (laws.writes t)
      → batch_count_len + record_len (laws.writes t) ≤ max_batch_record_len
      → Meets (call commit false)
  unfolding overlay error_of classify Txn.asked
  commit-Meets taken h = elim (laws.commit_is t db taken h) [
    | inl (e, kept_map) ↦ commits true done _ (returned tt) e refl refl refl kept_map
    | inr (inl e, same) ↦
        commits false (failed err_conflict) _ (transaction_error conflict) e refl refl refl same
    | inr (inr e, same) ↦
        commits false (failed err_conflict) _ (transaction_error busy) e refl refl refl same
  ]

  pub discard-Meets : (c : Bool) → Meets (call discard c)
  unfolding Serve.perform overlay GoSide.discard regolith_txn_free
  discard-Meets c =
      let q =
        guard-quiet (Txn.free_txn scans api) errors here _ tt
          (Bodies.free_body scans api id cells pins db t ro cell) in
      lands scans api laws e₀ p₀ at true (call discard c) done _ _
        (ap (λ h. (done, record { resolved = true; host = h })) q) refl
        (is_resolved refl refl (laws.rollback_is t db) tidy)

  pub elsewhere-Meets : (db' : api.Db) → Meets (elsewhere db')
  unfolding Serve.perform overlay
  elsewhere-Meets db' = (true, refl, is_live id cells errors pins db' t ro refl cell refl tidy)
