-- ===== src/Go/Model.antt =====
-- What `DB` promises: a map from keys to values, until it is closed.
use go_regolith.Base.{
  ℕ, ◌+◌, ◌≤◌, Option, none, some, Bool, true, false, List, [], ◌∷◌, leb, if◌then◌else◌, All,
}
use go_regolith.Failure.{Bytes}
use go_regolith.Batch.{RawOp, set, delete, batch_count_len, max_batch_record_len}
use go_regolith.Batch.Sizing.{Limits, IsTaken, record_len}
use go_regolith.Batch.Frames.{IsAddressable}
use go_regolith.Iter.Machine.{equals}
use go_regolith.Go.Errors.{Sentinel, err_not_found, err_closed, err_invalid_argument}

pub data Request : Type 0 where
  get : Bytes → Request
  has : Bytes → Request
  put : Bytes → Bytes → Request
  remove : Bytes → Request
  write : List RawOp → Request
  drop_all close : Request

pub data Answer : Type 0 where
  value : Bytes → Answer
  found : Bool → Answer
  done : Answer
  failed : Sentinel → Answer

abbrev pub Map : Type 0
Map = Bytes → Option Bytes

unfoldable pub updated : Bytes → Option Bytes → Map → Map
updated k v m = λ q. if equals q k then v else m q

-- The ops one after the other, so that the last one on a key wins.
unfoldable pub replayed : List RawOp → Map → Map
replayed [] m = m
replayed (set k v ∷ ops) m = replayed ops (updated k (some v) m)
replayed (delete k ∷ ops) m = replayed ops (updated k none m)

pub record Model : Type 0 where
  pub is_open : Bool
  pub map : Map

abbrev pub has_value : Option Bytes → Bool
has_value none = false
has_value (some v) = true

unfoldable pub read : Option Bytes → Answer
read none = failed err_not_found
read (some v) = value v

abbrev pub fits : List RawOp → Bool
fits ops = leb (batch_count_len + record_len ops) max_batch_record_len

unfoldable pub answered : Request → Map → Answer × Map
unfolding read updated replayed
answered (get k) m = (read (m k), m)
answered (has k) m = (found (has_value (m k)), m)
answered (put k v) m = (done, updated k (some v) m)
answered (remove k) m = (done, updated k none m)
answered (write ops) m =
    if fits ops then (done, replayed ops m) else (failed err_invalid_argument, m)
answered drop_all m = (done, λ q. none)
answered close m = (done, m)

abbrev pub stays_open : Request → Bool
stays_open close = false
stays_open _ = true

abbrev pub when_closed : Request → Answer
when_closed close = done
when_closed _ = failed err_closed

unfoldable pub model : Request → Model → Answer × Model
unfolding answered
model q s =
    if s.is_open
    then (let (a, m) = answered q s.map in (a, record { is_open = stays_open q; map = m }))
    else (when_closed q, s)

unfoldable pub model_all : List Request → Model → List Answer × Model
unfolding model
model_all [] s = ([], s)
model_all (q ∷ qs) s =
    let (a, s') = model q s in let (answers, s'') = model_all qs s' in (a ∷ answers, s'')

-- A put of a key and a value that the engine takes, and whose log record it takes; ops of a batch whose
-- slices the platform can hold, and whose keys and values the engine takes.
abbrev pub IsServable : ℕ → Limits → Request → Type 0
IsServable usize_max limits (put k v) =
    IsTaken limits (set k v) × (batch_count_len + record_len (set k v ∷ []) ≤ max_batch_record_len)
IsServable usize_max limits (remove k) =
    IsTaken limits (delete k)
    × (batch_count_len + record_len (delete k ∷ []) ≤ max_batch_record_len)
IsServable usize_max limits (write ops) =
    All (IsAddressable usize_max) ops × All (IsTaken limits) ops
IsServable usize_max limits _ = Unit {0}
