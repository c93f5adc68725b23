-- ===== src/Iter/Walk/Spans.antt =====
-- In a list where one test stays true and another stays false, the entries that pass both are one span.
use go_regolith.Base.{
  ℕ, length, ◌≤◌, ◌≡◌, refl, sym, ap, ◌∙◌, inl, inr, Bool-cases, Bool, true, false, not, ◌&&◌, List,
  [], ◌∷◌, if◌then◌else◌, arith, All,
}
pub use go_regolith.Base.{filter}
use go_regolith.Failure.{Bytes}
use mathlib.Core.Path.{fun_ext}

-- A key and its value.
abbrev pub Pair : Type 0
Pair = Bytes × Bytes

module _ {ℓ} {A : Type ℓ} where
  abbrev pub take_while : (A → Bool) → List A → List A
  take_while p [] = []
  take_while p (x ∷ xs) = if p x then x ∷ take_while p xs else []

  abbrev pub drop_while : (A → Bool) → List A → List A
  drop_while p [] = []
  drop_while p (x ∷ xs) = if p x then drop_while p xs else x ∷ xs

  abbrev pub Stays : (A → Bool) → List A → Type 0
  Stays p [] = Unit {0}
  Stays p (x ∷ xs) = (p x ≡ true → All (λ y. p y ≡ true) xs) × Stays p xs

  none_pass : (p : A → Bool) (xs : List A) → All (λ x. p x ≡ false) xs → filter p xs ≡ []
  none_pass p [] h = refl
  none_pass p (x ∷ xs) (e, h) = rw e (none_pass p xs h)

  and_false :
      (p q : A → Bool) (xs : List A)
      → All (λ x. not (q x) ≡ true) xs
      → All (λ x. (p x && q x) ≡ false) xs
  and_false p q [] h = tt
  and_false p q (x ∷ xs) (e, h) = (ground arith, and_false p q xs h)

  -- `p` holds from some entry on, and `q` up to some entry.
  first_pass :
      (p q : A → Bool) (xs : List A)
      → All (λ x. p x ≡ true) xs
      → Stays (λ x. not (q x)) xs
      → take_while (λ x. p x && q x) xs ≡ filter (λ x. p x && q x) xs
  first_pass p q [] hp hq = refl
  first_pass p q (x ∷ xs) (e, hp) (stop, hq) = elim (Bool-cases (q x)) [
    | inl y ↦ rw (e, y) (ap (λ l. x ∷ l) (first_pass p q xs hp hq))
    | inr n ↦ rw (e, n) (sym (none_pass (λ x. p x && q x) xs (and_false p q xs (stop (rw n)))))
  ]

  take_while-drop_while_both :
      (p q : A → Bool) (xs : List A)
      → Stays p xs
      → Stays (λ x. not (q x)) xs
      → take_while (λ x. p x && q x) (drop_while (λ x. not (p x)) xs) ≡ filter (λ x. p x && q x) xs
  take_while-drop_while_both p q [] hp hq = refl
  take_while-drop_while_both p q (x ∷ xs) (on, hp) (stop, hq) = elim (Bool-cases (p x)) [
    | inl y ↦
        let cut : drop_while (λ z. not (p z)) (x ∷ xs) ≡ x ∷ xs = rw y in
        ap (take_while (λ z. p z && q z)) cut ∙ first_pass p q (x ∷ xs) (y, on y) (stop, hq)
    | inr n ↦ rw n (take_while-drop_while_both p q xs hp hq)
  ]

  take_while-same :
      (p q : A → Bool) (xs : List A) → All (λ x. p x ≡ q x) xs → take_while p xs ≡ take_while q xs
  take_while-same p q [] h = refl
  take_while-same p q (x ∷ xs) (e, h) = elim (Bool-cases (q x)) [
    | inl y ↦ rw (e, y) (ap (λ t. x ∷ t) (take_while-same p q xs h))
    | inr n ↦ rw (e, n) refl
  ]

  All-drop_while :
      (p : A → Bool) (xs : List A)
      → Stays p xs
      → All (λ x. p x ≡ true) (drop_while (λ x. not (p x)) xs)
  All-drop_while p [] h = tt
  All-drop_while p (x ∷ xs) (on, h) = elim (Bool-cases (p x)) [
    | inl y ↦ rw y (y, on y)
    | inr n ↦ rw n (All-drop_while p xs h)
  ]

  All-same :
      (t p q : A → Bool)
      → ((x : A) → p x ≡ true → t x ≡ q x)
      → (xs : List A) → All (λ x. p x ≡ true) xs
      → All (λ x. t x ≡ (p x && q x)) xs
  All-same t p q h [] a = tt
  All-same t p q h (x ∷ xs) (e, a) = (h x e ∙ rw e refl, All-same t p q h xs a)

  -- A test `t` that says the same as `q` from where `p` holds.
  pub take_while-drop_while :
      (t p q : A → Bool) (xs : List A)
      → ((x : A) → p x ≡ true → t x ≡ q x)
      → Stays p xs
      → Stays (λ x. not (q x)) xs
      → take_while t (drop_while (λ x. not (p x)) xs) ≡ filter (λ x. p x && q x) xs
  take_while-drop_while t p q xs h hp hq =
      take_while-same t (λ x. p x && q x) (drop_while (λ x. not (p x)) xs)
        (All-same t p q h _ (All-drop_while p xs hp))
      ∙ take_while-drop_while_both p q xs hp hq

  pub filter-same : (p q : A → Bool) (l : List A) → All (λ e. p e ≡ q e) l → filter p l ≡ filter q l
  filter-same p q [] h = refl
  filter-same p q (e ∷ l) (s, h) = elim (Bool-cases (q e)) [
    | inl y ↦ rw (s, y) (ap (λ t. e ∷ t) (filter-same p q l h))
    | inr n ↦ rw (s, n) (filter-same p q l h)
  ]

  pub filter-same_everywhere :
      (p q : A → Bool) → ((x : A) → p x ≡ q x) → (l : List A) → filter p l ≡ filter q l
  filter-same_everywhere p q h l = ap (λ f. filter f l) (fun_ext h)

  pub drop_while-false : (xs : List A) → drop_while (λ _. false) xs ≡ xs
  drop_while-false [] = refl
  drop_while-false (x ∷ xs) = refl

  pub drop_while-not-not :
      (p : A → Bool) (xs : List A) → drop_while (λ x. not (not (p x))) xs ≡ drop_while p xs
  drop_while-not-not p [] = refl
  drop_while-not-not p (x ∷ xs) = elim (Bool-cases (p x)) [
    | inl y ↦ rw y (drop_while-not-not p xs)
    | inr n ↦ rw n
  ]

  pub length-drop_while :
      (p : A → Bool) (xs : List A) (n : ℕ) → length xs ≤ n → length (drop_while p xs) ≤ n
  length-drop_while p [] n h = h
  length-drop_while p (x ∷ xs) n h = elim (Bool-cases (p x)) [
    | inl y ↦ rw y (length-drop_while p xs n (omega arith))
    | inr n ↦ rw n h
  ]

  pub drop_while-drop_while :
      (p q : A → Bool) (xs : List A)
      → ((x : A) → p x ≡ true → q x ≡ true)
      → drop_while q (drop_while p xs) ≡ drop_while q xs
  drop_while-drop_while p q [] h = refl
  drop_while-drop_while p q (x ∷ xs) h = elim (Bool-cases (p x)) [
    | inl y ↦ rw (y, h x y) (drop_while-drop_while p q xs h)
    | inr n ↦ rw n refl
  ]

  pub drop_while-cons :
      (p : A → Bool) (xs : List A) (e : A) (es : List A) → drop_while p xs ≡ e ∷ es → p e ≡ false
  drop_while-cons p [] e es h = absurd cc
  drop_while-cons p (x ∷ xs) e es h = elim (Bool-cases (p x)) [
    | inl y ↦ drop_while-cons p xs e es (rw y at h)
    | inr n ↦ let h' : x ∷ xs ≡ e ∷ es = rw n at h in let same : x ≡ e = cc in rw (sym same) n
  ]

  pub length-filter : (p : A → Bool) (l : List A) → length (filter p l) ≤ length l
  length-filter p [] = omega arith
  length-filter p (e ∷ l) = elim (Bool-cases (p e)) [
    | inl y ↦ rw y (omega (arith, length-filter p l))
    | inr n ↦ rw n (omega (arith, length-filter p l))
  ]
