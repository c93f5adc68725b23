-- ===== src/Txn/Resolve.antt =====
-- What every call does to a transaction that is resolved, and on a null handle.
use go_regolith.Base.{
  ℕ, ◌≡◌, inl, inr, Bool-cases, Option-cases, Option, none, some, Bool, true, false, if◌then◌else◌,
}
use go_regolith.Failure.{success, read_only_txn, discarded, invalid_argument, code, err}
use go_regolith.Guard.Report.{outcome_status}
use go_regolith.Iter.Bounds.{in_bytes}
use go_regolith.Iter.Machine.{Scans, live, over_txn}
use go_regolith.Exec.{Exec}
use go_regolith.Txn
use go_regolith.Txn.Calls.{
  Request, get_borrowed, has, set, delete, iter, commit, discard, free, serve,
}

-- The status that a call on a resolved transaction is documented to have, its arguments checked first.
unfoldable pub resolved_status : Request → Bool → ℕ
resolved_status (get_borrowed key key_len outs) readonly = elim (in_bytes key key_len) [
  | none ↦ invalid_argument
  | some k ↦ discarded
]
resolved_status (has key key_len found) readonly = elim (in_bytes key key_len) [
  | none ↦ invalid_argument
  | some k ↦ discarded
]
resolved_status (set key key_len value value_len) readonly =
    if readonly then read_only_txn else elim (in_bytes key key_len) [
      | none ↦ invalid_argument
      | some k ↦ elim (in_bytes value value_len) [ none ↦ invalid_argument | some v ↦ discarded ]
    ]
resolved_status (delete key key_len) readonly =
    if readonly
    then read_only_txn
    else elim (in_bytes key key_len) [ none ↦ invalid_argument | some k ↦ discarded ]
resolved_status (iter opts out) readonly = if out then discarded else invalid_argument
resolved_status commit readonly = discarded
resolved_status discard readonly = success
resolved_status free readonly = success

-- The handle that a call leaves behind.
unfoldable pub handle_after : Request → Option ℕ → Option ℕ
handle_after commit h = none
handle_after free h = none
handle_after _ h = h

module _ (scans : Scans) (api : Txn.Transactions scans.Txn) where
  abbrev Seat : Type 0
  Seat = Txn.Seat scans api

  -- The cell holds no transaction, and its lock is not poisoned.
  pub record IsResolved (id : ℕ) (s : Seat) : Type 0 where
    pub empty : (s.cells id).txn ≡ none
    pub sound : (s.cells id).poisoned ≡ false

  live-resolved : (id : ℕ) (s : Seat) → IsResolved id s → live (s.cells id) ≡ err (code discarded)
  unfolding live
  live-resolved id s r = rw (r.sound, r.empty)

  take-resolved :
      (id : ℕ) (s : Seat) → IsResolved id s → Txn.take scans api id s ≡ (err (code discarded), s)
  unfolding Txn.take
  take-resolved id s r = rw (r.sound, r.empty)

  pub on_txn-handle :
      {A : Type 0} (id : ℕ) (s : Seat)
      → s.handle ≡ some id
      → (f : ℕ → Exec Seat A) → Txn.on_txn scans api f s ≡ f id s
  unfolding Txn.on_txn
  on_txn-handle id s h f = rw h

  unboxed : (id : ℕ) (s : Seat) → IsResolved id s → IsResolved id (record s { handle = none })
  unboxed id s r = record { empty = r.empty; sound = r.sound }

  module _ (id : ℕ) (s : Seat) (h : s.handle ≡ some id) (r : IsResolved id s) where
    on_handle : {A : Type 0} (f : ℕ → Exec Seat A) → Txn.on_txn scans api f s ≡ f id s
    on_handle f = on_txn-handle id s h f

    with_live-resolved :
        {A : Type 0} (body : scans.Txn → Txn.Call A × scans.Txn)
        → Txn.with_live scans api id body s ≡ (err (code discarded), s)
    unfolding Txn.with_live
    with_live-resolved body = rw (Txn.with_live, live-resolved id s r)

    -- On a resolved transaction a call has the documented status, and it changes nothing, but that commit and
    -- free release the handle. With valid arguments a set or delete is READ_ONLY_TXN if the transaction is
    -- read-only and otherwise DISCARDED, reads, iterators and commits are DISCARDED; discard and free are OK.
    pub serve-resolved :
        (q : Request)
        → serve scans api q s
          ≡ (resolved_status q (s.cells id).readonly, record s { handle = handle_after q s.handle })
    unfolding serve resolved_status handle_after outcome_status Txn.get_borrowed Txn.has Txn.set
        Txn.delete Txn.iter Txn.commit Txn.discard Txn.free_txn Txn.writable Txn.unbox
    serve-resolved (get_borrowed key key_len outs) = elim (Option-cases (in_bytes key key_len)) [
      | inl e ↦ rw (on_handle _, resolved_status, e)
      | inr (k, e) ↦ rw (on_handle _, resolved_status, e, with_live-resolved (api.get_slice k))
    ]
    serve-resolved (has key key_len found) = elim (Option-cases (in_bytes key key_len)) [
      | inl e ↦ rw (on_handle _, resolved_status, e)
      | inr (k, e) ↦ rw (on_handle _, resolved_status, e, with_live-resolved (api.get_slice k))
    ]
    serve-resolved (set key key_len value value_len) = elim (Bool-cases ((s.cells id).readonly)) [
      | inl ro ↦ rw (on_handle _, resolved_status, Txn.writable, ro)
      | inr writes ↦ elim (Option-cases (in_bytes key key_len)) [
        | inl e ↦ rw (on_handle _, resolved_status, Txn.writable, writes, e)
        | inr (k, e) ↦ elim (Option-cases (in_bytes value value_len)) [
          | inl e' ↦ rw (on_handle _, resolved_status, Txn.writable, writes, e, e')
          | inr (v, e') ↦ rw (
            on_handle _,
            resolved_status,
            Txn.writable,
            writes,
            e,
            e',
            with_live-resolved (api.put k v),
          )
        ]
      ]
    ]
    serve-resolved (delete key key_len) = elim (Bool-cases ((s.cells id).readonly)) [
      | inl ro ↦ rw (on_handle _, resolved_status, Txn.writable, ro)
      | inr writes ↦ elim (Option-cases (in_bytes key key_len)) [
        | inl e ↦ rw (on_handle _, resolved_status, Txn.writable, writes, e)
        | inr (k, e) ↦ rw (
          on_handle _,
          resolved_status,
          Txn.writable,
          writes,
          e,
          with_live-resolved (api.remove k),
        )
      ]
    ]
    serve-resolved (iter opts true) = rw (on_handle _, over_txn, live-resolved id s r)
    serve-resolved (iter opts false) = rw (on_handle _)
    serve-resolved commit = rw (on_handle _, Txn.unbox, take-resolved id _ (unboxed id s r))
    serve-resolved discard = rw (on_handle _, take-resolved id s r, take-resolved id s r)
    serve-resolved free = rw (
      on_handle _,
      Txn.unbox,
      take-resolved id _ (unboxed id s r),
      take-resolved id _ (unboxed id s r),
    )

  -- A call on a null handle is an invalid argument and changes nothing, whatever its other arguments.
  pub serve-null :
      (s : Seat) → s.handle ≡ none → (q : Request) → serve scans api q s ≡ (invalid_argument, s)
  unfolding serve outcome_status Txn.on_txn Txn.get_borrowed Txn.has Txn.set Txn.delete Txn.iter
      Txn.commit Txn.discard Txn.free_txn
  serve-null s h (get_borrowed key key_len outs) = rw h
  serve-null s h (has key key_len found) = rw h
  serve-null s h (set key key_len value value_len) = rw h
  serve-null s h (delete key key_len) = rw h
  serve-null s h (iter opts out) = rw h
  serve-null s h commit = rw h
  serve-null s h discard = rw h
  serve-null s h free = rw h
