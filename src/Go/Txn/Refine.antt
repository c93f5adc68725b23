-- ===== src/Go/Txn/Refine.antt =====
-- Each call of a Go `Txn`, and every sequence of them, with other writers between, against Go/Txn/Overlay.
use go_regolith.Base.{
  All, All-append, ◌+◌, ◌≤◌, ◌≡◌, refl, inl, inr, Bool-cases, Option, none, some, Bool, true, false,
  List, [], ◌∷◌, ◌++◌, arith,
}
use go_regolith.Failure.{Bytes}
use go_regolith.Guard.{Heap}
use go_regolith.Iter.Machine.{Scans}
use go_regolith.Txn.{Transactions}
use go_regolith.Batch.{RawOp, batch_count_len, max_batch_record_len}
use go_regolith.Batch.Sizing.{Limits, IsTaken, record_len}
use go_regolith.Go.Tidy.{Tidy}
use go_regolith.Go.Model.{Answer, failed, Map}
use go_regolith.Go.Errors.{Sentinel}
use go_regolith.Go.Txn as GoSide
use go_regolith.Go.Txn.Handle.{get, has, set, delete, new_iter, commit, discard}
use go_regolith.Go.Txn.Overlay.{
  Event, call, elsewhere, Overlay, refusal, written, overlay, overlay_all, op_of, asked_len,
}
use go_regolith.Go.Txn.Bodies.{KeepsWrites}
use go_regolith.Go.Txn.Serve
use go_regolith.Go.Txn.Serve.{is_live, is_resolved}
use go_regolith.Go.Txn.Steps
use go_regolith.Go.Txn.Steps.{Found}
use go_regolith.Go.Txn.Steps.Reads
use go_regolith.Go.Txn.Steps.Writes
use go_regolith.Go.Txn.Steps.Ends

record_len-append : (xs ys : List RawOp) → record_len (xs ++ ys) ≡ record_len xs + record_len ys
unfolding record_len
record_len-append [] ys = omega arith
record_len-append (x ∷ xs) ys = omega (arith, record_len-append xs ys)

record_len-written :
    (op : RawOp) (s : Overlay)
    → record_len (written op s).1.writes ≤ record_len s.writes + record_len (op ∷ [])
record_len-written op s = elim (Bool-cases s.readonly) [
  | inl y ↦ rw y (omega arith)
  | inr n ↦ rw n (omega (arith, record_len-append s.writes (op ∷ [])))
]

-- A call that is refused or let through.
refused_or :
    (P : List RawOp → Type 0) (r : Option Sentinel) (x : Answer × Overlay) (s : Overlay)
    → P x.1.writes
    → P s.writes
    → P (elim r as (λ _. Answer × Overlay) [ none ↦ x | some e ↦ (failed e, s) ]).1.writes
refused_or P none x s h g = h
refused_or P (some e) x s h g = g

written-IsTaken :
    (limits : Limits) (op : RawOp) (s : Overlay)
    → All (IsTaken limits) s.writes
    → IsTaken limits op
    → All (IsTaken limits) (written op s).1.writes
written-IsTaken limits op s h taken = elim (Bool-cases s.readonly) [
  | inl y ↦ rw y h
  | inr n ↦ rw n (All-append (IsTaken limits) s.writes (op ∷ []) h (taken, tt))
]

module _ {Db : Type 0} (contents : Db → Map) where
  abbrev IsGrown : Overlay → Event Db → List RawOp → Type 0
  IsGrown s q ws = record_len ws ≤ record_len s.writes + record_len (op_of contents q)

  -- What a call adds to what a commit will write, at most.
  writes-overlay :
      (won : Bool) (q : Event Db) (s : Overlay)
      → record_len (overlay contents won q s).1.writes
        ≤ record_len s.writes + record_len (op_of contents q)
  unfolding overlay op_of record_len
  writes-overlay won (elsewhere db) s = omega arith
  writes-overlay won (call (get k) c) s =
      refused_or (IsGrown s (call (get k) c)) (refusal (get k) c s) _ s (omega arith) (omega arith)
  writes-overlay won (call (has k) c) s =
      refused_or (IsGrown s (call (has k) c)) (refusal (has k) c s) _ s (omega arith) (omega arith)
  writes-overlay won (call (set k v) c) s =
      refused_or (IsGrown s (call (set k v) c)) (refusal (set k v) c s) _ s
        (record_len-written (RawOp.set k v) s) (omega arith)
  writes-overlay won (call (delete k) c) s =
      refused_or (IsGrown s (call (delete k) c)) (refusal (delete k) c s) _ s
        (record_len-written (RawOp.delete k) s) (omega arith)
  writes-overlay won (call (new_iter o) c) s =
      refused_or (IsGrown s (call (new_iter o) c)) (refusal (new_iter o) c s) _ s (omega arith)
        (omega arith)
  writes-overlay true (call commit c) s =
      refused_or (IsGrown s (call commit c)) (refusal commit c s) _ s (omega arith) (omega arith)
  writes-overlay false (call commit c) s =
      refused_or (IsGrown s (call commit c)) (refusal commit c s) _ s (omega arith) (omega arith)
  writes-overlay won (call discard c) s = omega arith

  overlay-IsTaken :
      (limits : Limits) (won : Bool) (q : Event Db) (s : Overlay)
      → All (IsTaken limits) s.writes
      → All (IsTaken limits) (op_of contents q)
      → All (IsTaken limits) (overlay contents won q s).1.writes
  unfolding overlay op_of
  overlay-IsTaken l won (elsewhere db) s h t = h
  overlay-IsTaken l won (call (get k) c) s h t =
      refused_or (All (IsTaken l)) (refusal (get k) c s) _ s h h
  overlay-IsTaken l won (call (has k) c) s h t =
      refused_or (All (IsTaken l)) (refusal (has k) c s) _ s h h
  overlay-IsTaken l won (call (set k v) c) s h (t, u) =
      refused_or (All (IsTaken l)) (refusal (set k v) c s) _ s
        (written-IsTaken l (RawOp.set k v) s h t) h
  overlay-IsTaken l won (call (delete k) c) s h (t, u) =
      refused_or (All (IsTaken l)) (refusal (delete k) c s) _ s
        (written-IsTaken l (RawOp.delete k) s h t) h
  overlay-IsTaken l won (call (new_iter o) c) s h t =
      refused_or (All (IsTaken l)) (refusal (new_iter o) c s) _ s h h
  overlay-IsTaken l true (call commit c) s h t =
      refused_or (All (IsTaken l)) (refusal commit c s) _ s h h
  overlay-IsTaken l false (call commit c) s h t =
      refused_or (All (IsTaken l)) (refusal commit c s) _ s h h
  overlay-IsTaken l won (call discard c) s h t = h

module _ (scans : Scans) (api : Transactions scans.Txn) (laws : KeepsWrites scans api)
    (e₀ p₀ : Heap Bytes) where
  abbrev GoTxn : Type 0
  GoTxn = Serve.GoTxn scans api

  abbrev Stands : GoTxn → Overlay → Type 0
  Stands = Serve.Stands scans api laws e₀ p₀

  abbrev perform : Event api.Db → GoTxn → Answer × GoTxn
  perform = Serve.perform scans api

  abbrev specified : Bool → Event api.Db → Overlay → Answer × Overlay
  specified = overlay laws.contents

  -- The engine takes what is written so far, and what a call adds, and the record that a commit writes stays
  -- within the engine's limit.
  abbrev IsWithin : Overlay → List RawOp → Type 0
  IsWithin s more =
      All (IsTaken laws.limits) s.writes
      × All (IsTaken laws.limits) more
      × (batch_count_len + record_len s.writes + record_len more ≤ max_batch_record_len)

  abbrev Meets : Event api.Db → GoTxn → Overlay → Type 0
  Meets q g s =
      (won : Bool) × ((perform q g).0 ≡ (specified won q s).0)
      × Stands (perform q g).1 (specified won q s).1

  -- A transaction that is not resolved.
  meets :
      (q : Event api.Db) (at : Found scans api e₀ p₀)
      → IsWithin (Serve.found_by scans api laws e₀ p₀ at.ro at.t at.db) (op_of laws.contents q)
      → Steps.Meets scans api laws e₀ p₀ at q
  unfolding op_of record_len
  meets (elsewhere db') at h = Ends.elsewhere-Meets scans api laws e₀ p₀ at db'
  meets (call discard c) at h = Ends.discard-Meets scans api laws e₀ p₀ at c
  meets (call (get k) false) at h = Reads.get-Meets scans api laws e₀ p₀ at k
  meets (call (has k) false) at h = Reads.has-Meets scans api laws e₀ p₀ at k
  meets (call (set k v) false) at (ws, (taken, u), h) =
      Writes.set-Meets scans api laws e₀ p₀ at k v taken (omega arith)
  meets (call (delete k) false) at (ws, (taken, u), h) =
      Writes.delete-Meets scans api laws e₀ p₀ at k taken (omega arith)
  meets (call (new_iter o) false) at h = Reads.new_iter-Meets scans api laws e₀ p₀ at o
  meets (call commit false) at (ws, t, h) =
      Ends.commit-Meets scans api laws e₀ p₀ at ws (omega arith)
  meets (call (get k) true) at h = Steps.refused_closed scans api laws e₀ p₀ at (get k) refl
  meets (call (has k) true) at h = Steps.refused_closed scans api laws e₀ p₀ at (has k) refl
  meets (call (set k v) true) at h = Steps.refused_closed scans api laws e₀ p₀ at (set k v) refl
  meets (call (delete k) true) at h = Steps.refused_closed scans api laws e₀ p₀ at (delete k) refl
  meets (call (new_iter o) true) at h =
      Steps.refused_closed scans api laws e₀ p₀ at (new_iter o) refl
  meets (call commit true) at h = Steps.refused_closed scans api laws e₀ p₀ at commit refl

  -- A transaction that is resolved.
  meets_resolved :
      (q : Event api.Db) (g : GoTxn) (s : Overlay)
      → g.resolved ≡ true
      → s.live ≡ false
      → laws.contents g.host.inner.db ≡ s.store
      → Tidy e₀ p₀ g.host.errors g.host.inner.pins
      → Meets q g s
  unfolding Serve.perform GoSide.get GoSide.has GoSide.set GoSide.delete GoSide.new_iter
      GoSide.begin GoSide.commit GoSide.discard overlay
  meets_resolved (elsewhere db) g s r l c t = (true, refl, is_resolved r l refl t)
  meets_resolved (call (get k) true) g s r l m t = (true, refl, is_resolved r l m t)
  meets_resolved (call (get k) false) g s r l m t =
      (true, rw (r, l) refl, rw (r, l) (is_resolved refl refl m t))
  meets_resolved (call (has k) true) g s r l m t = (true, refl, is_resolved r l m t)
  meets_resolved (call (has k) false) g s r l m t =
      (true, rw (r, l) refl, rw (r, l) (is_resolved refl refl m t))
  meets_resolved (call (set k v) true) g s r l m t = (true, refl, is_resolved r l m t)
  meets_resolved (call (set k v) false) g s r l m t =
      (true, rw (r, l) refl, rw (r, l) (is_resolved refl refl m t))
  meets_resolved (call (delete k) true) g s r l m t = (true, refl, is_resolved r l m t)
  meets_resolved (call (delete k) false) g s r l m t =
      (true, rw (r, l) refl, rw (r, l) (is_resolved refl refl m t))
  meets_resolved (call (new_iter o) true) g s r l m t = (true, refl, is_resolved r l m t)
  meets_resolved (call (new_iter o) false) g s r l m t =
      (true, rw (r, l) refl, rw (r, l) (is_resolved refl refl m t))
  meets_resolved (call commit c) g s r l m t =
      (true, rw (r, l) refl, rw (r, l) (is_resolved refl refl m t))
  meets_resolved (call discard c) g s r l m t = (true, refl, rw r (is_resolved refl refl m t))

  -- One call of a method of `Txn`, or a change of the store by another writer: its answer is that of the
  -- overlay, on every branch, for some outcome of the commit, and what is left stands for what is left of
  -- the overlay. What a commit writes is to stay within the engine's limit on a record.
  pub perform-overlay :
      (q : Event api.Db) (g : GoTxn) (s : Overlay)
      → IsWithin s (op_of laws.contents q)
      → Stands g s
      → Meets q g s
  perform-overlay q g s h (is_live id cells errors pins db t ro eg cell es tidy) =
      let found : Found scans api e₀ p₀ = record {
        id = id;
        cells = cells;
        errors = errors;
        pins = pins;
        db = db;
        t = t;
        ro = ro;
        cell = cell;
        tidy = tidy;
      } in
      rw (eg, es) (meets q found (rw es at h))
  perform-overlay q g s h (is_resolved r l m t) = meets_resolved q g s r l m t

  -- For an engine that keeps each transaction's writes over what the transaction found, and a Go transaction
  -- that stands for an overlay: any sequence of calls of its methods, with the store open or closed at each,
  -- and of changes of the store by other writers between them, where the engine takes the keys and the
  -- values that are written, and all of them fit its limit on a record, gets the answers of the overlay of
  -- Go/Txn/Overlay for some outcomes of its commits: its reads see its own writes over what it found, a commit that finds no conflict puts them
  -- into the store as it stands then, one that finds a conflict and a discard change nothing there; and no
  -- error object and no value handle is left behind.
  pub perform_all-overlay_all :
      (qs : List (Event api.Db)) (g : GoTxn) (s : Overlay)
      → All (IsTaken laws.limits) s.writes
      → All (λ q. All (IsTaken laws.limits) (op_of laws.contents q)) qs
      → batch_count_len + record_len s.writes + asked_len laws.contents qs ≤ max_batch_record_len
      → Stands g s
      → (outcomes : List Bool) × ((Serve.perform_all scans api qs g).0
          ≡ (overlay_all laws.contents outcomes qs s).0)
        × Stands (Serve.perform_all scans api qs g).1 (overlay_all laws.contents outcomes qs s).1
  unfolding Serve.perform_all overlay_all asked_len
  perform_all-overlay_all [] g s ws ts h stands = ([], refl, stands)
  perform_all-overlay_all (q ∷ qs) g s ws (t, ts) h stands =
      let (won, a, stands') = perform-overlay q g s (ws, t, omega arith) stands in
      let (outcomes, answers, last) =
        perform_all-overlay_all qs (perform q g).1 (specified won q s).1
          (overlay-IsTaken laws.contents laws.limits won q s ws t) ts
          (omega (arith, writes-overlay laws.contents won q s)) stands' in
      (won ∷ outcomes, rw (a, answers) refl, last)
