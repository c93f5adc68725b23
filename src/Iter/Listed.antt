-- ===== src/Iter/Listed.antt =====
-- A cursor over a list of entries, for concrete runs.
use go_regolith.Base.{
  not, ℕ, ◌≡◌, refl, ◌∙◌, inl, inr, Bool-cases, Option, none, some, Bool, true, false, ◌&&◌, List,
  [], ◌∷◌, if◌then◌else◌,
}
use go_regolith.Iter.Bounds.{
  RegolithIterOptions, ScanDirection, forward, backward, bytes_lt, from_start, below_end,
}
use go_regolith.Failure.{Bytes, EngineError}
use go_regolith.Iter.Machine.{is_key, Scans, TxnInner}
use go_regolith.Iter.Walk.Ways.{WalksBothWays}
use go_regolith.Iter.Walk.Order.{Ascending}
use go_regolith.Iter.Walk.Spans.{Pair, filter, drop_while}
use mathlib.Core.List.{reverse}
use mathlib.Core.Option

-- On an entry, with those below it, the nearest first, and those above it; or on none.
pub data Finger : Type 0 where
  off : Finger
  at : (below : List Pair) → Pair → (above : List Pair) → Finger

abbrev up_from : List Pair → List Pair → Finger
up_from below [] = off
up_from below (e ∷ es) = at below e es

abbrev down_from : List Pair → List Pair → Finger
down_from above [] = off
down_from above (e ∷ es) = at es e above

-- Up past the entries that the test holds for, and down.
abbrev climb : (Pair → Bool) → List Pair → List Pair → Finger
climb p below [] = off
climb p below (e ∷ es) = if p e then climb p (e ∷ below) es else at below e es

abbrev descend : (Pair → Bool) → List Pair → List Pair → Finger
descend p above [] = off
descend p above (e ∷ es) = if p e then descend p (e ∷ above) es else at es e above

abbrev next : Finger → Finger
next off = off
next (at below e above) = up_from (e ∷ below) above

abbrev prev : Finger → Finger
prev off = off
prev (at below e above) = down_from (e ∷ above) below

abbrev is_on : Finger → Bool
is_on off = false
is_on (at below e above) = true

abbrev current : Finger → Option Pair
current off = none
current (at below e above) = some e

abbrev ahead : Bool → Finger → List Pair
ahead r off = []
ahead false (at below e above) = e ∷ above
ahead true (at below e above) = e ∷ below

abbrev take_first : List Pair → Option Pair × List Pair
take_first [] = (none, [])
take_first (x ∷ xs) = (some x, xs)

abbrev directed : ScanDirection → List Pair → List Pair
directed forward es = es
directed backward es = reverse es

abbrev pub listed : List Pair → Scans
listed entries = record {
  Cursor = Finger;
  seek = λ k c. climb (λ e. bytes_lt e.0 k) [] entries;
  seek_for_prev = λ k c. descend (λ e. bytes_lt k e.0) [] (reverse entries);
  seek_to_first = λ c. up_from [] entries;
  seek_to_last = λ c. down_from [] (reverse entries);
  next = next;
  prev = prev;
  valid = is_on;
  key = λ c. Option.map (λ e. e.0) (current c);
  value = λ c. Option.map (λ e. e.1) (current c);
  value_slice = λ c. Option.map (λ e. e.1) (current c);
  status = λ c. none;
  Txn = List Pair;
  Stream = List Pair;
  scan_stream_in = λ s e d t. filter (λ x. from_start s x.0 && below_end e x.0) (directed d t);
  stream_next = take_first;
  stream_status = λ s. none;
}

current-cons :
    (r : Bool) (c : Finger) (e : Pair) (es : List Pair)
    → ahead r c ≡ e ∷ es
    → (current c ≡ some e) × (is_on c ≡ true)
current-cons r off e es h = absurd cc
current-cons false (at below x above) e es h = (cc, refl)
current-cons true (at below x above) e es h = (cc, refl)

current-nil : (r : Bool) (c : Finger) → ahead r c ≡ [] → (current c ≡ none) × (is_on c ≡ false)
current-nil r off h = (refl, refl)
current-nil false (at below x above) h = absurd cc
current-nil true (at below x above) h = absurd cc

ahead-up_from : (below l : List Pair) → ahead false (up_from below l) ≡ l
ahead-up_from below [] = refl
ahead-up_from below (e ∷ es) = refl

ahead-down_from : (above l : List Pair) → ahead true (down_from above l) ≡ l
ahead-down_from above [] = refl
ahead-down_from above (e ∷ es) = refl

ahead-next :
    (c : Finger) (e : Pair) (es : List Pair) → ahead false c ≡ e ∷ es → ahead false (next c) ≡ es
ahead-next off e es h = absurd cc
ahead-next (at below x above) e es h = ahead-up_from (x ∷ below) above ∙ cc

ahead-prev :
    (c : Finger) (e : Pair) (es : List Pair) → ahead true c ≡ e ∷ es → ahead true (prev c) ≡ es
ahead-prev off e es h = absurd cc
ahead-prev (at below x above) e es h = ahead-down_from (x ∷ above) below ∙ cc

ahead-climb :
    (p : Pair → Bool) (below l : List Pair) → ahead false (climb p below l) ≡ drop_while p l
ahead-climb p below [] = refl
ahead-climb p below (e ∷ es) = elim (Bool-cases (p e)) [
  | inl y ↦ rw y (ahead-climb p (e ∷ below) es)
  | inr n ↦ rw n refl
]

ahead-descend :
    (p : Pair → Bool) (above l : List Pair) → ahead true (descend p above l) ≡ drop_while p l
ahead-descend p above [] = refl
ahead-descend p above (e ∷ es) = elim (Bool-cases (p e)) [
  | inl y ↦ rw y (ahead-descend p (e ∷ above) es)
  | inr n ↦ rw n refl
]

pub listed-WalksBothWays :
    (entries : List Pair) → Ascending entries → WalksBothWays (listed entries) entries
listed-WalksBothWays entries up = record {
  ascending = up;
  ahead = ahead;
  key_nil = λ r c h. rw (current-nil r c h).0 refl;
  key_cons = λ r c e es h. rw (current-cons r c e es h).0 refl;
  value_cons = λ r c e es h. rw (current-cons r c e es h).0 refl;
  valid_nil = λ r c h. (current-nil r c h).1;
  valid_cons = λ r c e es h. (current-cons r c e es h).1;
  status_ok = λ c. refl;
  ahead-next = ahead-next;
  ahead-prev = ahead-prev;
  ahead-seek_to_first = λ c. ahead-up_from [] entries;
  ahead-seek_to_last = λ c. ahead-down_from [] (reverse entries);
  ahead-seek = λ k c. ahead-climb (λ e. bytes_lt e.0 k) [] entries;
  ahead-seek_for_prev = λ k c. ahead-descend (λ e. bytes_lt k e.0) [] (reverse entries);
}

-- Keys of one and two bytes; `b` is a prefix of two of them.
abbrev pub four : List Pair
four = (97 ∷ [], 1 ∷ []) ∷ (98 ∷ [], []) ∷ (98 ∷ 255 ∷ [], 3 ∷ []) ∷ (99 ∷ [], 4 ∷ []) ∷ []

abbrev pub no_txns : ℕ → TxnInner (List Pair)
no_txns id = record { txn = none; poisoned = false; readonly = false }

abbrev pub under_b : RegolithIterOptions
under_b = record {
  prefix = some (98 ∷ []);
  prefix_len = 1;
  start = none;
  start_len = 0;
  end = none;
  end_len = 0;
  reverse = 0;
  keys_only = 0;
}

pub four-Ascending : Ascending four
unfolding bytes_lt
four-Ascending = ((refl, (refl, (refl, tt))), ((refl, (refl, tt)), ((refl, tt), (tt, tt))))

-- An engine that cannot read its entry of the key `c`.
abbrev is_torn : Option Bytes → Bool
is_torn key = is_key key (99 ∷ [])

abbrev pub torn : Scans
torn = record (listed four) {
  valid = λ c. (listed four).valid c && not (is_torn ((listed four).key c));
  status = λ c. if is_torn ((listed four).key c) then some (EngineError.failed (33 ∷ [])) else none;
}
