-- ===== src/Iter/Batches/Fill.antt =====
-- The loop of `regolith_iter_next_batch`, against a description of the entries that one batch takes.
use go_regolith.Base.{
  ℕ, zero, suc, ◌+◌, ◌^◌, ◌<◌, ◌≡◌, refl, sym, ap, ◌∙◌, inl, inr, Bool-cases, none, some, Bool,
  true, false, not, List, [], ◌∷◌, ◌++◌, leb, if◌then◌else◌, length, drop, ◌&&◌, All, arith,
}
use go_regolith.Base.Le.{to_le_bytes}
use go_regolith.Failure.{Bytes, Result, ok}
use go_regolith.Iter.Bounds.{Bounds}
use go_regolith.Iter.Machine.{
  Scans, TxnInner, RegolithIter, current_key, current_value_slice, advance_in_batch,
  max_batch_value_bytes,
}
use go_regolith.Iter.Calls.{fill}
use go_regolith.Iter.Walk.Ways.{WalksBothWays}
use go_regolith.Iter.Walk.Spans.{Pair}
use go_regolith.Iter.Batches
use go_regolith.Iter.Batches.{framed}

module _ (scans : Scans) (cells : ℕ → TxnInner scans.Txn) where
  fill-end :
      (n : ℕ) (frame : Bytes) (count retained : ℕ) (it it' : RegolithIter scans)
      → advance_in_batch scans cells it ≡ (ok false, it')
      → fill scans cells (suc n) frame count retained it ≡ (ok (frame, count), it')
  unfolding fill
  fill-end n frame count retained it it' a = rw (fill, ap (λ r. r.0) a, ap (λ r. r.1) a)

  module _ (n : ℕ) (frame : Bytes) (count retained : ℕ) (it : RegolithIter scans) (k : Bytes)
      (a : (advance_in_batch scans cells it).0 ≡ ok true)
      (is_key : current_key scans (advance_in_batch scans cells it).1 ≡ some k)
      (short : length k < 2 ^ 32) where
    abbrev it' : RegolithIter scans
    it' = (advance_in_batch scans cells it).1

    abbrev frame' : Bytes
    frame' = (frame ++ to_le_bytes 4 (length k)) ++ k

    pub fill-key :
        current_value_slice scans it' ≡ none
        → fill scans cells (suc n) frame count retained it
          ≡ fill scans cells n frame' (count + 1) retained it'
    unfolding fill
    fill-key v =
        let fits : leb (2 ^ 32) (length k) ≡ false = ground arith in rw (fill, a, is_key, fits, v)

    module _ (value : Bytes) (v : current_value_slice scans it' ≡ some value) where
      abbrev it'' : RegolithIter scans
      it'' = record it' { batch_values = it'.batch_values ++ (value ∷ []) }

      pub fill-full :
          leb max_batch_value_bytes (retained + length value) ≡ true
          → fill scans cells (suc n) frame count retained it ≡ (ok (frame', count + 1), it'')
      unfolding fill
      fill-full full =
          let fits : leb (2 ^ 32) (length k) ≡ false = ground arith in
          rw (fill, a, is_key, fits, v, full)

      pub fill-value :
          leb max_batch_value_bytes (retained + length value) ≡ false
          → fill scans cells (suc n) frame count retained it
            ≡ fill scans cells n frame' (count + 1) (retained + length value) it''
      unfolding fill
      fill-value more =
          let fits : leb (2 ^ 32) (length k) ≡ false = ground arith in
          rw (fill, a, is_key, fits, v, more)

module _ {ℓ} {A : Type ℓ} where
  pub append_nil : (xs : List A) → xs ++ [] ≡ xs
  append_nil [] = refl
  append_nil (x ∷ xs) = ap (λ t. x ∷ t) (append_nil xs)

  pub append_assoc : (xs ys zs : List A) → (xs ++ ys) ++ zs ≡ xs ++ (ys ++ zs)
  append_assoc [] ys zs = refl
  append_assoc (x ∷ xs) ys zs = ap (λ t. x ∷ t) (append_assoc xs ys zs)

pub framed_next :
    (frame k : Bytes) (es : Bytes)
    → ((frame ++ to_le_bytes 4 (length k)) ++ k) ++ es
      ≡ frame ++ ((to_le_bytes 4 (length k) ++ k) ++ es)
framed_next frame k es =
    ap (λ z. z ++ es) (append_assoc frame (to_le_bytes 4 (length k)) k)
    ∙ append_assoc frame (to_le_bytes 4 (length k) ++ k) es

-- The entries that one batch takes of what is left, `retained` value bytes being pinned already: no more
-- than `n`, and none after the one that reaches the cap.
unfoldable pub taken : Bool → ℕ → ℕ → List Pair → List Pair
taken keys_only zero retained es = []
taken keys_only (suc n) retained [] = []
taken keys_only (suc n) retained ((k, v) ∷ es) =
    let retained' = if keys_only then retained else retained + length v in
    let more = taken keys_only n retained' es in
    (k, v) ∷ (if not keys_only && leb max_batch_value_bytes retained' then [] else more)

-- The values that are pinned for them.
unfoldable pub kept : Bool → List Pair → List Bytes
kept keys_only [] = []
kept keys_only ((k, v) ∷ es) = if keys_only then kept keys_only es else v ∷ kept keys_only es

module _ (scans : Scans) (cells : ℕ → TxnInner scans.Txn) (entries : List Pair)
    (laws : WalksBothWays scans entries)
    (slices : (c : scans.Cursor) → scans.value_slice c ≡ scans.value c) (b : Bounds) where
  abbrev Place : Type 0
  Place = Batches.Place scans cells entries laws slices b

  abbrev placed : Place → RegolithIter scans → RegolithIter scans
  placed = Batches.placed scans cells entries laws slices b

  abbrev rest : Place → List Pair
  rest = Batches.rest scans cells entries laws slices b

  abbrev filled :
      Bytes → ℕ → Place → RegolithIter scans → List Bytes → Result (Bytes × ℕ) × RegolithIter scans
  filled frame count p x values = (ok (frame, count), placed p (record x { batch_values = values }))

  alike :
      {frame frame' : Bytes} {count count' : ℕ} (p : Place) (x : RegolithIter scans)
      {values values' : List Bytes}
      → frame ≡ frame'
      → count ≡ count'
      → values ≡ values'
      → filled frame count p x values ≡ filled frame' count' p x values'
  alike p x e e' e'' = rw (e, e', e'') refl

  abbrev Fills : Bool → ℕ → Bytes → ℕ → ℕ → Place → RegolithIter scans → List Pair → Type 0
  Fills keys_only n frame count retained p x l =
      let t : List Pair = taken keys_only n retained l in
      (p' : Place) × (fill scans cells n frame count retained (placed p x)
        ≡ filled (frame ++ framed t) (count + length t) p' x (x.batch_values ++ kept keys_only t))
      × (rest p' ≡ drop (length t) l)

  pub fill-placed :
      (keys_only : Bool) (n : ℕ) (frame : Bytes) (count retained : ℕ) (p : Place)
      (x : RegolithIter scans) (l : List Pair)
      → b.keys_only ≡ keys_only
      → rest p ≡ l
      → All (λ e. length e.0 < 2 ^ 32) l
      → Fills keys_only n frame count retained p x l
  unfolding taken kept framed fill
  fill-placed keys_only zero frame count retained p x l o h s =
      (p, alike p x (sym (append_nil frame)) (omega arith) (sym (append_nil x.batch_values)), h)
  fill-placed keys_only (suc n) frame count retained p x [] o h s =
      let (c, a, left) = Batches.advance_none scans cells entries laws slices b p x h in
      (
        Batches.entry c,
        fill-end scans cells n frame count retained (placed p x) (placed (Batches.entry c) x) a
            ∙ alike (Batches.entry c) x (sym (append_nil frame)) (omega arith)
                (sym (append_nil x.batch_values)),
        left,
      )
  fill-placed true (suc n) frame count retained p x ((k, v) ∷ es) o h (short, s) =
      let (c, a, at) = Batches.advance_some scans cells entries laws slices b p x (k, v) es h in
      let (is_key, slice, left) =
        Batches.current-At scans cells entries laws slices b c x (k, v) es at in
      let frame' = (frame ++ to_le_bytes 4 (length k)) ++ k in
      let (p', filled', left') =
        fill-placed true n frame' (count + 1) retained (Batches.entry c) x es o left s in
      (
        p',
        fill-key scans cells n frame count retained (placed p x) k (ap (λ r. r.0) a)
              (ap (λ r. current_key scans r.1) a ∙ is_key) short
              (ap (λ r. current_value_slice scans r.1) a
                ∙ slice
                ∙ ap (λ y. if y then none else some v) o)
            ∙ ap (λ r. fill scans cells n frame' (count + 1) retained r.1) a
            ∙ filled'
            ∙ alike p' x (framed_next frame k _) (omega arith) refl,
        left',
      )
  fill-placed false (suc n) frame count retained p x ((k, v) ∷ es) o h (short, s) =
      let (c, a, at) = Batches.advance_some scans cells entries laws slices b p x (k, v) es h in
      let (is_key, slice, left) =
        Batches.current-At scans cells entries laws slices b c x (k, v) es at in
      let frame' = (frame ++ to_le_bytes 4 (length k)) ++ k in
      let x' : RegolithIter scans = record x { batch_values = x.batch_values ++ (v ∷ []) } in
      let is_key' = ap (λ r. current_key scans r.1) a ∙ is_key in
      let slice' =
        ap (λ r. current_value_slice scans r.1) a
        ∙ slice
        ∙ ap (λ y. if y then none else some v) o in
      elim (Bool-cases (leb max_batch_value_bytes (retained + length v))) [
        | inl full ↦ rw full (
          Batches.entry c,
          fill-full scans cells n frame count retained (placed p x) k (ap (λ r. r.0) a) is_key'
                short v slice' full
              ∙ ap
                  (λ r. (
                    ok (frame', count + 1),
                    record (r.1) { batch_values = r.1.batch_values ++ (v ∷ []) },
                  ))
                  a
              ∙ alike (Batches.entry c) x (sym (append_nil frame') ∙ framed_next frame k []) refl
                  refl,
          left,
        )
        | inr more ↦
            let (p', filled', left') =
              fill-placed false n frame' (count + 1) (retained + length v) (Batches.entry c) x' es o
                left s in
            rw more (
              p',
              fill-value scans cells n frame count retained (placed p x) k (ap (λ r. r.0) a) is_key'
                    short v slice' more
                  ∙ ap
                      (λ r.
                        fill scans cells n frame' (count + 1) (retained + length v)
                          (record (r.1) { batch_values = r.1.batch_values ++ (v ∷ []) }))
                      a
                  ∙ filled'
                  ∙ alike p' x (framed_next frame k _) (omega arith)
                      (append_assoc x.batch_values (v ∷ []) _),
              left',
            )
      ]
