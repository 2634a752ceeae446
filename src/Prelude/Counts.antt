-- ===== src/Prelude/Counts.antt =====
-- The rows that an UPDATE or a count meets.
use Prim.Native.Nat.{◌+◌, ◌≤◌, ◌<◌}
use mathlib.Core.Path.{◌≡◌, refl, sym, ◌∙◌}
use mathlib.Core.Logic.{inl, inr}
use mathlib.Core.Bool.{Bool, true, false}
use mathlib.Core.List.{List, [], ◌∷◌, ◌++◌}
use native.Mathlib.Omega.{arith}
use package.imgent.Prelude.Tests.{Bool-cases}
use package.imgent.Prelude.Lists.{length, In, any_where, count_where, update_where}

module _ {A : Type 0} where
  pub count_where-zero :
      (p : A → Bool) (xs : List A) → ((x : A) → In x xs → p x ≡ false) → count_where p xs ≡ 0
  unfolding count_where
  count_where-zero p [] h = refl
  count_where-zero p (x ∷ xs) h =
      ground (arith, h x (inl refl), count_where-zero p xs (λ y m. h y (inr m)))

  pub count_where-update_where :
      (q p : A → Bool) (f : A → A) (xs : List A)
      → ((x : A) → p x ≡ true → q (f x) ≡ q x)
      → count_where q (update_where p f xs) ≡ count_where q xs
  unfolding count_where update_where
  count_where-update_where q p f [] h = refl
  count_where-update_where q p f (x ∷ xs) h = elim (Bool-cases (p x)) [
    | inl e ↦ ground (arith, h x e, count_where-update_where q p f xs h)
    | inr e ↦ ground (arith, count_where-update_where q p f xs h)
  ]

  pub count_where_mono :
      (p q : A → Bool) (xs : List A)
      → ((x : A) → p x ≡ true → q x ≡ true)
      → count_where p xs ≤ count_where q xs
  unfolding count_where
  count_where_mono p q [] h = omega arith
  count_where_mono p q (x ∷ xs) h = elim (Bool-cases (p x)) [
    | inl e ↦ ground (arith, h x e, count_where_mono p q xs h)
    | inr e ↦ ground (arith, count_where_mono p q xs h)
  ]

  -- An UPDATE that meets no row.
  pub update_where_none :
      (p : A → Bool) (f : A → A) (xs : List A) → count_where p xs ≡ 0 → update_where p f xs ≡ xs
  unfolding count_where update_where
  update_where_none p f [] h = refl
  update_where_none p f (x ∷ xs) h =
      let none : p x ≡ false = ground arith in rw (none, update_where_none p f xs (ground arith))

  pub count_where_suc :
      (p : A → Bool) (xs : List A) → 1 ≤ count_where p xs → (x : A) × In x xs × (p x ≡ true)
  unfolding count_where
  count_where_suc p [] h = absurd (ground arith)
  count_where_suc p (y ∷ xs) h = elim (Bool-cases (p y)) [
    | inl e ↦ (y, inl refl, e)
    | inr e ↦ let (x, m, q) = count_where_suc p xs (ground arith) in (x, inr m, q)
  ]

  pub count_where-le : (p : A → Bool) (xs : List A) → count_where p xs ≤ length xs
  unfolding count_where
  count_where-le p [] = omega arith
  count_where-le p (x ∷ xs) = ground (arith, count_where-le p xs)

  pub count_where_pos :
      (p : A → Bool) (xs : List A) (x : A) → In x xs → p x ≡ true → 1 ≤ count_where p xs
  unfolding count_where
  count_where_pos p [] x m h = absurd m
  count_where_pos p (y ∷ xs) x (inl e) h = ground arith
  count_where_pos p (y ∷ xs) x (inr m) h = ground (arith, count_where_pos p xs x m h)

  -- A row is the only one where at most one is taken.
  pub unique_row :
      (p : A → Bool) (xs : List A) (x y : A)
      → count_where p xs ≤ 1
      → In x xs
      → In y xs
      → p x ≡ true
      → p y ≡ true
      → x ≡ y
  unfolding count_where
  unique_row p [] x y c m n h k = absurd m
  unique_row p (z ∷ xs) x y c (inl d) (inl e) h k = d ∙ sym e
  unique_row p (z ∷ xs) x y c (inl d) (inr n) h k =
      absurd (ground (arith, count_where_pos p xs y n k))
  unique_row p (z ∷ xs) x y c (inr m) (inl e) h k =
      absurd (ground (arith, count_where_pos p xs x m h))
  unique_row p (z ∷ xs) x y c (inr m) (inr n) h k = unique_row p xs x y (ground arith) m n h k

  -- An UPDATE after which no row that it meets is counted.
  pub count_where_drop :
      (p q : A → Bool) (f : A → A) (xs : List A)
      → ((x : A) → p x ≡ true → q (f x) ≡ false)
      → count_where q (update_where p f xs) ≤ count_where q xs
  unfolding count_where update_where
  count_where_drop p q f [] h = omega arith
  count_where_drop p q f (x ∷ xs) h = elim (Bool-cases (p x)) [
    | inl e ↦ ground (arith, h x e, count_where_drop p q f xs h)
    | inr e ↦ ground (arith, count_where_drop p q f xs h)
  ]

  pub count_where_less :
      (p q : A → Bool) (f : A → A) (xs : List A) (x : A)
      → ((y : A) → p y ≡ true → q (f y) ≡ false)
      → In x xs
      → p x ≡ true
      → q x ≡ true
      → count_where q (update_where p f xs) < count_where q xs
  unfolding count_where update_where
  count_where_less p q f [] x h m e c = absurd m
  count_where_less p q f (y ∷ xs) x h (inl d) e c =
      ground (arith, h y (rw d at e), count_where_drop p q f xs h, d)
  count_where_less p q f (y ∷ xs) x h (inr m) e c = elim (Bool-cases (p y)) [
    | inl d ↦ ground (arith, h y d, count_where_less p q f xs x h m e c)
    | inr d ↦ ground (arith, count_where_less p q f xs x h m e c)
  ]

  pub count_where-append :
      (p : A → Bool) (xs ys : List A)
      → count_where p (xs ++ ys) ≡ count_where p xs + count_where p ys
  unfolding count_where
  count_where-append p [] ys = omega arith
  count_where-append p (x ∷ xs) ys = ground (arith, count_where-append p xs ys)

  pub count_where_none :
      (p : A → Bool) (xs : List A) → any_where p xs ≡ false → count_where p xs ≡ 0
  unfolding count_where any_where
  count_where_none p [] h = refl
  count_where_none p (x ∷ xs) h = ground (arith, count_where_none p xs)
