-- ===== src/Prelude/Lists.antt =====
-- Tables as lists of rows in the order of their rowid, with the statements that the code runs on
-- them: a search, a count, an UPDATE with a WHERE clause, and the lemmas about these.
use Prim.Native.Nat.{ℕ, suc, ◌+◌}
use mathlib.Core.Path.{◌≡◌, refl, ap}
use mathlib.Core.Logic.{◌⊎◌, inl, inr}
use mathlib.Core.Bool.{Bool, true, false, ◌||◌}
use mathlib.Core.Option
use mathlib.Core.Option.{Option, none, some}
use mathlib.Core.List.{List, [], ◌∷◌, ◌++◌}
use native.Mathlib.Omega.{arith}
use package.imgent.Prelude.Tests.{if◌then◌else◌, Bool-cases, or_else}

module _ {ℓ} {A : Type ℓ} where
  abbrev pub length : List A → ℕ
  length [] = 0
  length (x ∷ xs) = suc (length xs)

  -- SELECT ... WHERE p LIMIT 1, in rowid order
  unfoldable pub find_where : (A → Bool) → List A → Option A
  find_where p [] = none
  find_where p (x ∷ xs) = if p x then some x else find_where p xs

  -- EXISTS (SELECT 1 ... WHERE p)
  unfoldable pub any_where : (A → Bool) → List A → Bool
  any_where p [] = false
  any_where p (x ∷ xs) = p x || any_where p xs

  -- SELECT ... WHERE p
  unfoldable pub filter_where : (A → Bool) → List A → List A
  filter_where p [] = []
  filter_where p (x ∷ xs) = let rest = filter_where p xs in if p x then x ∷ rest else rest

  -- SELECT count(*) ... WHERE p, and the `changes` of an UPDATE
  unfoldable pub count_where : (A → Bool) → List A → ℕ
  count_where p [] = 0
  count_where p (x ∷ xs) = (if p x then 1 else 0) + count_where p xs

  -- UPDATE ... SET f WHERE p
  unfoldable pub update_where : (A → Bool) → (A → A) → List A → List A
  update_where p f [] = []
  update_where p f (x ∷ xs) = (if p x then f x else x) ∷ update_where p f xs

  -- DELETE ... WHERE p
  unfoldable pub delete_where : (A → Bool) → List A → List A
  delete_where p [] = []
  delete_where p (x ∷ xs) = let rest = delete_where p xs in if p x then rest else x ∷ rest

-- A row of the table, and a property of all its rows. Rows are small types, so these are too.
module _ {A : Type 0} where
  abbrev pub In : A → List A → Type 0
  In y [] = ⊥
  In y (x ∷ xs) = (y ≡ x) ⊎ In y xs

  abbrev pub All : (A → Type 0) → List A → Type 0
  All P [] = Unit
  All P (x ∷ xs) = P x × All P xs

  -- Exactly those rows that WHERE takes are mapped.
  abbrev pub set_if : (A → Bool) → (A → A) → A → A
  set_if p f x = if p x then f x else x

  pub In-update_where :
      (p : A → Bool) (f : A → A) (xs : List A) (y : A)
      → In y (update_where p f xs)
      → (x : A) × In x xs × (y ≡ set_if p f x)
  unfolding update_where
  In-update_where p f [] y h = absurd h
  In-update_where p f (x ∷ xs) y (inl e) = (x, inl refl, e)
  In-update_where p f (x ∷ xs) y (inr h) =
      let (z, m, e) = In-update_where p f xs y h in (z, inr m, e)

  pub In-update_where_self :
      (p : A → Bool) (f : A → A) (xs : List A) (x : A)
      → In x xs
      → In (set_if p f x) (update_where p f xs)
  unfolding update_where
  In-update_where_self p f [] x h = absurd h
  In-update_where_self p f (y ∷ xs) x (inl e) = inl (ap (set_if p f) e)
  In-update_where_self p f (y ∷ xs) x (inr h) = inr (In-update_where_self p f xs x h)

  pub In-append : (xs ys : List A) (y : A) → In y (xs ++ ys) → In y xs ⊎ In y ys
  In-append [] ys y h = inr h
  In-append (x ∷ xs) ys y (inl e) = inl (inl e)
  In-append (x ∷ xs) ys y (inr h) = elim (In-append xs ys y h) [
    | inl m ↦ inl (inr m)
    | inr m ↦ inr m
  ]

  pub any_where-false :
      (p : A → Bool) (xs : List A) → any_where p xs ≡ false → (x : A) → In x xs → p x ≡ false
  unfolding any_where
  any_where-false p [] h x m = absurd m
  any_where-false p (y ∷ xs) h x (inl e) = ground arith
  any_where-false p (y ∷ xs) h x (inr m) = any_where-false p xs (ground arith) x m

  pub any_where-true :
      (p : A → Bool) (xs : List A) → any_where p xs ≡ true → (x : A) × In x xs × (p x ≡ true)
  unfolding any_where
  any_where-true p [] h = cc
  any_where-true p (y ∷ xs) h = elim (Bool-cases (p y)) [
    | inl e ↦ (y, inl refl, e)
    | inr e ↦ let (x, m, q) = any_where-true p xs (ground arith) in (x, inr m, q)
  ]

  pub any_where_of_In :
      (p : A → Bool) (xs : List A) (x : A) → In x xs → p x ≡ true → any_where p xs ≡ true
  unfolding any_where
  any_where_of_In p [] x m h = absurd m
  any_where_of_In p (y ∷ xs) x (inl e) h = ground arith
  any_where_of_In p (y ∷ xs) x (inr m) h = ground (arith, any_where_of_In p xs x m h)

  pub find_where-some :
      (p : A → Bool) (xs : List A) (x : A) → find_where p xs ≡ some x → In x xs × (p x ≡ true)
  unfolding find_where
  find_where-some p [] x h = cc
  find_where-some p (y ∷ xs) x h = elim (Bool-cases (p y)) [
    | inl e ↦ (inl (ground arith), ground arith)
    | inr e ↦ let (m, q) = find_where-some p xs x (ground arith) in (inr m, q)
  ]

  pub find_where-none :
      (p : A → Bool) (xs : List A) → find_where p xs ≡ none → (x : A) → In x xs → p x ≡ false
  unfolding find_where
  find_where-none p [] h x m = absurd m
  find_where-none p (y ∷ xs) h x (inl e) = ground arith
  find_where-none p (y ∷ xs) h x (inr m) = find_where-none p xs (ground arith) x m

  pub In-filter_where :
      (p : A → Bool) (xs : List A) (x : A) → In x (filter_where p xs) → In x xs × (p x ≡ true)
  unfolding filter_where
  In-filter_where p [] x m = absurd m
  In-filter_where p (y ∷ xs) x m = elim (Bool-cases (p y)) [
    | inl e ↦
        let m' : In x (y ∷ filter_where p xs) = rw e at m in
        elim m' [
          | inl q ↦ (inl q, rw q e)
          | inr k ↦ let (i, t) = In-filter_where p xs x k in (inr i, t)
        ]
    | inr e ↦
        let m' : In x (filter_where p xs) = rw e at m in
        let (i, t) = In-filter_where p xs x m' in (inr i, t)
  ]

  pub In-filter_where_intro :
      (p : A → Bool) (xs : List A) (x : A) → In x xs → p x ≡ true → In x (filter_where p xs)
  unfolding filter_where
  In-filter_where_intro p [] x m h = absurd m
  In-filter_where_intro p (y ∷ xs) x (inl e) h = rw (← e) (rw h (inl refl))
  In-filter_where_intro p (y ∷ xs) x (inr m) h = elim (Bool-cases (p y)) [
    | inl e ↦ rw e (inr (In-filter_where_intro p xs x m h))
    | inr e ↦ rw e (In-filter_where_intro p xs x m h)
  ]

  -- An UPDATE that keeps what a search tests finds the same row, updated.
  pub find_where-update_where :
      (q p : A → Bool) (f : A → A) (xs : List A)
      → ((x : A) → q (f x) ≡ q x)
      → find_where q (update_where p f xs) ≡ Option.map (set_if p f) (find_where q xs)
  unfolding find_where update_where
  find_where-update_where q p f [] h = refl
  find_where-update_where q p f (x ∷ xs) h = ground (arith, h x, find_where-update_where q p f xs h)

  pub find_where-append :
      (q : A → Bool) (xs ys : List A)
      → find_where q (xs ++ ys) ≡ or_else (find_where q xs) (find_where q ys)
  unfolding find_where
  find_where-append q [] ys = refl
  find_where-append q (x ∷ xs) ys = ground (arith, find_where-append q xs ys)

  pub any_where-append :
      (p : A → Bool) (xs ys : List A) → any_where p (xs ++ ys) ≡ any_where p xs || any_where p ys
  unfolding any_where
  any_where-append p [] ys = refl
  any_where-append p (x ∷ xs) ys = ground (arith, any_where-append p xs ys)
