-- ===== src/Txn/Iterators.antt =====
-- Iterators over a transaction that is resolved.
use go_regolith.Base.{ℕ, ◌≡◌, Option, none, Bool, true, false, [], if◌then◌else◌}
use go_regolith.Failure.{Bytes, code, discarded, err}
use go_regolith.Iter.Machine.{
  Scans, TxnInner, Entry, RegolithIter, scan, live, restart, seek, seek_forward, seek_reverse,
  rebuild_and_pull,
}

module _ (scans : Scans) (cells : ℕ → TxnInner scans.Txn) (id : ℕ) (empty : (cells id).txn ≡ none)
    (sound : (cells id).poisoned ≡ false) where
  rebuild-resolved :
      (start end : Option Bytes) (it : RegolithIter scans)
      → (rebuild_and_pull scans cells id start end it).0 ≡ err (code discarded)
  unfolding rebuild_and_pull live
  rebuild-resolved start end it = rw (sound, empty)

  either_way :
      (reverse : Bool) (stream : Option scans.Stream) (current : Option Entry) (target : Bytes)
      (it : RegolithIter scans)
      → (if reverse
          then seek_reverse scans cells target (scan id stream current) it
          else seek_forward scans cells target (scan id stream current) it).0
        ≡ err (code discarded)
  unfolding seek_forward seek_reverse
  either_way true stream current target it = rebuild-resolved _ _ it
  either_way false stream current target it = rebuild-resolved _ _ it

  -- Once its transaction is resolved, restarting an iterator over it and seeking in it report DISCARDED,
  -- whatever its range, its direction and the target.
  pub restart-resolved :
      (it : RegolithIter scans) (stream : Option scans.Stream) (current : Option Entry)
      (target : Bytes)
      → it.source ≡ scan id stream current
      → ((restart scans cells it).0 ≡ err (code discarded))
        × ((seek scans cells target it).0 ≡ err (code discarded))
  unfolding restart seek
  restart-resolved it stream current target e = (
    rw e (rebuild-resolved _ _ it),
    rw e (
        either_way it.bounds.reverse stream current target (record it {
          source = scan id stream current;
          reset = false;
          pending = none;
          batch_values = [];
          batch_count = 0;
          include_current = true;
        })),
  )
