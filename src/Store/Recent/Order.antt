-- ===== src/Store/Recent/Order.antt =====
-- The order in which recentInboundTurns (src/storage/store.ts) takes its rows and returns them.
use imgent.Prelude.{
  ℕ, zero, suc, ◌≡◌, ◌<◌, ◌⊎◌, inl, inr, refl, ap, false, true, List, [], ◌∷◌, ◌++◌, arith,
  Bool-cases, In, In-append, length,
}
use imgent.Store.Rows.{TaskRow}
use imgent.Store.Recent.{is_earlier, insert_latest, latest_first, take, reverse}

-- `a` was created before `b`, or at the same time with the smaller rowid.
abbrev pub CameBefore : TaskRow → TaskRow → Type 0
CameBefore a b =
    (a.created_at < b.created_at) ⊎ ((a.created_at ≡ b.created_at) × (a.rowid < b.rowid))

-- No row is earlier than one behind it.
abbrev pub Descends : List TaskRow → Type 0
Descends [] = Unit
Descends (t ∷ ts) = ((u : TaskRow) → In u ts → is_earlier t u ≡ false) × Descends ts

-- No row came before one in front of it.
abbrev pub Ascends : List TaskRow → Type 0
Ascends [] = Unit
Ascends (t ∷ ts) = ((u : TaskRow) → In u ts → ¬ CameBefore u t) × Ascends ts

pub not_before : (a b : TaskRow) → is_earlier a b ≡ false → ¬ CameBefore a b
not_before a b h (inl k) = absurd (ground (arith, k))
not_before a b h (inr (e, k)) = absurd (ground (arith, e, k))

is_earlier_asym : (a b : TaskRow) → is_earlier a b ≡ true → is_earlier b a ≡ false
is_earlier_asym a b h = ground arith

is_earlier_trans :
    (a b c : TaskRow) → is_earlier a b ≡ false → is_earlier b c ≡ false → is_earlier a c ≡ false
is_earlier_trans a b c h k = ground arith

pub In-insert_latest :
    (t : TaskRow) (us : List TaskRow) (x : TaskRow) → In x (insert_latest t us) → In x (t ∷ us)
unfolding insert_latest
In-insert_latest t [] x m = m
In-insert_latest t (u ∷ us) x m = elim (Bool-cases (is_earlier t u)) [
  | inr e ↦ rw e at m
  | inl e ↦ elim (rw e at m) [
    | inl q ↦ inr (inl q)
    | inr k ↦ elim (In-insert_latest t us x k) [ inl q ↦ inl q | inr l ↦ inr (inr l) ]
  ]
]

insert_latest-In :
    (t : TaskRow) (us : List TaskRow) (x : TaskRow) → In x (t ∷ us) → In x (insert_latest t us)
unfolding insert_latest
insert_latest-In t [] x m = m
insert_latest-In t (u ∷ us) x m = elim (Bool-cases (is_earlier t u)) [
  | inr e ↦ rw e m
  | inl e ↦ rw e (elim m [
    | inl q ↦ inr (insert_latest-In t us x (inl q))
    | inr (inl q) ↦ inl q
    | inr (inr k) ↦ inr (insert_latest-In t us x (inr k))
  ])
]

pub In-latest_first : (ts : List TaskRow) (x : TaskRow) → In x (latest_first ts) → In x ts
unfolding latest_first
In-latest_first [] x m = m
In-latest_first (t ∷ ts) x m = elim (In-insert_latest t (latest_first ts) x m) [
  | inl q ↦ inl q
  | inr k ↦ inr (In-latest_first ts x k)
]

pub latest_first-In : (ts : List TaskRow) (x : TaskRow) → In x ts → In x (latest_first ts)
unfolding latest_first
latest_first-In [] x m = m
latest_first-In (t ∷ ts) x (inl q) = insert_latest-In t (latest_first ts) x (inl q)
latest_first-In (t ∷ ts) x (inr k) =
    insert_latest-In t (latest_first ts) x (inr (latest_first-In ts x k))

insert_latest-Descends :
    (t : TaskRow) (us : List TaskRow) → Descends us → Descends (insert_latest t us)
unfolding insert_latest
insert_latest-Descends t [] d = (λ u m. absurd m, tt)
insert_latest-Descends t (u ∷ us) (first, d) = elim (Bool-cases (is_earlier t u)) [
  | inr e ↦ rw e (
      (λ v m. elim m [ inl q ↦ rw q e | inr k ↦ is_earlier_trans t u v e (first v k) ], (first, d)))
  | inl e ↦ rw e (
      (
        λ v m. elim (In-insert_latest t us v m) [
          | inl q ↦ rw q (is_earlier_asym t u e)
          | inr k ↦ first v k
        ],
        insert_latest-Descends t us d,
      ))
]

pub latest_first-Descends : (ts : List TaskRow) → Descends (latest_first ts)
unfolding latest_first
latest_first-Descends [] = tt
latest_first-Descends (t ∷ ts) =
    insert_latest-Descends t (latest_first ts) (latest_first-Descends ts)

pub In-take : (n : ℕ) (ts : List TaskRow) (x : TaskRow) → In x (take n ts) → In x ts
unfolding take
In-take zero ts x m = absurd m
In-take (suc n) [] x m = m
In-take (suc n) (t ∷ ts) x (inl q) = inl q
In-take (suc n) (t ∷ ts) x (inr k) = inr (In-take n ts x k)

take-Descends : (n : ℕ) (ts : List TaskRow) → Descends ts → Descends (take n ts)
unfolding take
take-Descends zero ts d = tt
take-Descends (suc n) [] d = tt
take-Descends (suc n) (t ∷ ts) (first, d) =
    (λ u m. first u (In-take n ts u m), take-Descends n ts d)

-- What a limit leaves out comes behind all that it takes.
pub take-cases :
    (n : ℕ) (ts : List TaskRow)
    → Descends ts
    → (x : TaskRow) → In x ts
    → In x (take n ts)
      ⊎ ((length (take n ts) ≡ n) × ((u : TaskRow) → In u (take n ts) → is_earlier u x ≡ false))
unfolding take
take-cases zero ts d x m = inr (refl, λ u k. absurd k)
take-cases (suc n) [] d x m = absurd m
take-cases (suc n) (t ∷ ts) (first, d) x (inl q) = inl (inl q)
take-cases (suc n) (t ∷ ts) (first, d) x (inr k) = elim (take-cases n ts d x k) [
  | inl l ↦ inl (inr l)
  | inr (full, rest) ↦
      inr (ap suc full, λ u m. elim m [ inl q ↦ rw q (first x k) | inr l ↦ rest u l ])
]

append-In : (xs ys : List TaskRow) (x : TaskRow) → In x xs ⊎ In x ys → In x (xs ++ ys)
append-In [] ys x (inl m) = absurd m
append-In [] ys x (inr m) = m
append-In (t ∷ xs) ys x (inl (inl q)) = inl q
append-In (t ∷ xs) ys x (inl (inr m)) = inr (append-In xs ys x (inl m))
append-In (t ∷ xs) ys x (inr m) = inr (append-In xs ys x (inr m))

pub In-reverse : (ts : List TaskRow) (x : TaskRow) → In x (reverse ts) → In x ts
unfolding reverse
In-reverse [] x m = m
In-reverse (t ∷ ts) x m = elim (In-append (reverse ts) (t ∷ []) x m) [
  | inl k ↦ inr (In-reverse ts x k)
  | inr (inl q) ↦ inl q
  | inr (inr n) ↦ absurd n
]

pub reverse-In : (ts : List TaskRow) (x : TaskRow) → In x ts → In x (reverse ts)
unfolding reverse
reverse-In [] x m = m
reverse-In (t ∷ ts) x (inl q) = append-In (reverse ts) (t ∷ []) x (inr (inl q))
reverse-In (t ∷ ts) x (inr k) = append-In (reverse ts) (t ∷ []) x (inl (reverse-In ts x k))

Ascends-append_one :
    (xs : List TaskRow) (t : TaskRow)
    → Ascends xs
    → ((u : TaskRow) → In u xs → ¬ CameBefore t u)
    → Ascends (xs ++ t ∷ [])
Ascends-append_one [] t a h = (λ u m. absurd m, tt)
Ascends-append_one (x ∷ xs) t (first, a) h = (
  λ u m. elim (In-append xs (t ∷ []) u m) [
    | inl k ↦ first u k
    | inr (inl q) ↦ rw q (h x (inl refl))
    | inr (inr n) ↦ absurd n
  ],
  Ascends-append_one xs t a (λ u m. h u (inr m)),
)

reverse-Ascends : (ts : List TaskRow) → Descends ts → Ascends (reverse ts)
unfolding reverse
reverse-Ascends [] d = tt
reverse-Ascends (t ∷ ts) (first, d) =
    Ascends-append_one (reverse ts) t (reverse-Ascends ts d)
      (λ u m. not_before t u (first u (In-reverse ts u m)))

pub reverse-take-Ascends :
    (n : ℕ) (ts : List TaskRow) → Ascends (reverse (take n (latest_first ts)))
reverse-take-Ascends n ts =
    reverse-Ascends (take n (latest_first ts))
      (take-Descends n (latest_first ts) (latest_first-Descends ts))
