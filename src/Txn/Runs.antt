-- ===== src/Txn/Runs.antt =====
-- Transactions over a store that is a list of entries, and the theorems on them at concrete inputs.
use go_regolith.Base.{
  ℕ, ◌≡◌, refl, Option, none, some, true, false, List, [], ◌∷◌, ◌==◌, if◌then◌else◌,
}
use go_regolith.Failure.{Bytes, discarded, txn_conflict, code, err, conflict}
use go_regolith.Guard.{Heap}
use go_regolith.Guard.Report.{outcome_status}
use go_regolith.Iter.Bounds.{in_bytes, bounds_from}
use go_regolith.Iter.Machine.{Scans, RegolithIter, scan, equals, restart, seek, fresh}
use go_regolith.Iter.Listed.{listed}
use go_regolith.Iter.Walk.Spans.{Pair}
use go_regolith.Txn
use go_regolith.Txn.Calls.{Request, get_borrowed, set, commit, discard, serve, serve_all}
use go_regolith.Txn.Resolve.{IsResolved, resolved_status, handle_after, serve-resolved}
use go_regolith.Txn.Once.{serve_all-resolution}
use go_regolith.Txn.Iterators.{restart-resolved}

-- The first entry with the key.
abbrev find : Bytes → List Pair → Option Bytes
find k [] = none
find k ((k', v) ∷ es) = if equals k k' then some v else find k es

abbrev without : Bytes → List Pair → List Pair
without k [] = []
without k ((k', v) ∷ es) = if equals k k' then without k es else (k', v) ∷ without k es

-- A transaction is a copy of the store's entries with its writes in them. One without entries loses the
-- race of its commit.
abbrev copies : Txn.Transactions (List Pair)
copies = record {
  Db = List Pair;
  get_slice = λ k t. (Txn.returned (find k t), t);
  put = λ k v t. (Txn.returned tt, (k, v) ∷ t);
  remove = λ k t. (Txn.returned tt, without k t);
  commit = λ t db. elim t [
    | [] ↦ (Txn.transaction_error conflict, db)
    | e ∷ es ↦ (Txn.returned tt, e ∷ es)
  ];
  rollback = λ t db. db;
}

abbrev scans : Scans
scans = listed []

abbrev Seat : Type 0
Seat = Txn.Seat scans copies

abbrev no_pins : Heap Bytes
no_pins = record { next = 0; cell = λ p. none }

abbrev begun : Option (List Pair) → Option ℕ → Seat
begun t h = record {
  handle = h;
  cells = λ id. record { txn = if id == 0 then t else none; poisoned = false; readonly = false };
  pins = no_pins;
  db = [];
}

abbrev a : Bytes
a = 97 ∷ []

-- Set, commit, and one more set on the freed handle.
abbrev writes_a : List Request
writes_a = set (some a) 1 (some (1 ∷ [])) 1 ∷ commit ∷ set (some a) 1 (some (2 ∷ [])) 1 ∷ []

committed : (serve_all scans copies writes_a (begun (some []) (some 0))).db ≡ (a, 1 ∷ []) ∷ []
unfolding serve_all Txn.set Txn.commit
committed = refl

-- A commit that loses the race is a conflict, and the handle is gone all the same.
lost_race :
    ((serve scans copies commit (begun (some []) (some 0))).0 ≡ txn_conflict)
    × ((serve scans copies commit (begun (some []) (some 0))).1.handle ≡ none)
unfolding serve Txn.commit outcome_status
lost_race = (refl, refl)

ended-IsResolved : IsResolved scans copies 0 (begun none (some 0))
ended-IsResolved = record { empty = refl; sound = refl }

serve-resolved_example :
    serve scans copies (get_borrowed (some a) 1 (true, true, true)) (begun none (some 0))
    ≡ (discarded, begun none (some 0))
unfolding resolved_status handle_after in_bytes
serve-resolved_example =
    serve-resolved scans copies 0 (begun none (some 0)) refl ended-IsResolved
      (get_borrowed (some a) 1 (true, true, true))

abbrev later : List Request
later = get_borrowed (some a) 1 (true, true, true) ∷ discard ∷ commit ∷ []

serve_all-resolution_example :
    ((serve_all scans copies (discard ∷ later) (begun (some ((a, a) ∷ [])) (some 0))).db ≡ [])
    × IsResolved scans copies 0
        (serve_all scans copies (discard ∷ later) (begun (some ((a, a) ∷ [])) (some 0)))
serve_all-resolution_example =
    serve_all-resolution scans copies 0 (begun (some ((a, a) ∷ [])) (some 0)) ((a, a) ∷ []) refl
      refl refl discard copies.rollback later refl

abbrev of_ended : RegolithIter scans
of_ended = fresh scans (bounds_from none) (scan 0 (some ((a, a) ∷ [])) none)

restart-resolved_example :
    ((restart scans (begun none none).cells of_ended).0 ≡ err (code discarded))
    × ((seek scans (begun none none).cells a of_ended).0 ≡ err (code discarded))
restart-resolved_example =
    restart-resolved scans (begun none none).cells 0 refl refl of_ended (some ((a, a) ∷ [])) none a
      refl
