-- ===== src/Store/Inserts.antt =====
-- src/storage/store.ts, src/schedule/service.ts, src/identity/service.ts: statements that several parts
-- share. INSERT INTO tasks, and INSERT ... ON CONFLICT DO UPDATE.
use imgent.Prelude.{
  none, ℕ, ◌+◌, ◌≡◌, inl, inr, refl, String, some, Bool, true, false, not, ◌&&◌, ◌==◌, List, [],
  ◌∷◌, ◌++◌, ltb, if◌then◌else◌, arith, Bool-cases, any_where, find_where, find_where-append,
  update_where,
}
use imgent.Store.Rows.{TaskRow}
use imgent.Store.Directory.{MembershipRow}
use imgent.Store.Db.{constraint, Exec, run, gets, guard, ◌>>=◌, ◌>>◌}

module _ {A : Type 0} where
  -- The row with the key is replaced, or a new one is added.
  unfoldable pub upsert : (A → Bool) → A → List A → List A
  upsert key row rows =
      if any_where key rows then update_where key (λ _. row) rows else rows ++ row ∷ []

  replaced :
      (key : A → Bool) (row : A) (rows : List A)
      → key row ≡ true
      → any_where key rows ≡ true
      → find_where key (update_where key (λ _. row) rows) ≡ some row
  unfolding find_where update_where any_where
  replaced key row [] own e = cc
  replaced key row (r ∷ rs) own e = elim (Bool-cases (key r)) [
    | inl h ↦ ground (arith, own)
    | inr h ↦ let rest = replaced key row rs own (rw h at e) in ground (arith, rest)
  ]

  pub appended_row :
      (key : A → Bool) (row : A) (rows : List A)
      → key row ≡ true
      → any_where key rows ≡ false
      → find_where key (rows ++ row ∷ []) ≡ some row
  unfolding find_where any_where
  appended_row key row [] own e = ground (arith, own)
  appended_row key row (r ∷ rs) own e = elim (Bool-cases (key r)) [
    | inl h ↦ absurd (ground arith)
    | inr h ↦ let rest = appended_row key row rs own (rw h at e) in ground (arith, rest)
  ]

  -- A search that finds nothing finds a row that is added.
  pub find_where-new :
      (q : A → Bool) (row : A) (rows : List A)
      → find_where q rows ≡ none
      → q row ≡ true
      → find_where q (rows ++ row ∷ []) ≡ some row
  unfolding find_where
  find_where-new q row rows h mine = rw (find_where-append q rows (row ∷ []), h, mine, find_where)

  pub find_where-upsert :
      (key : A → Bool) (row : A) (rows : List A)
      → key row ≡ true
      → find_where key (upsert key row rows) ≡ some row
  unfolding upsert
  find_where-upsert key row rows own = elim (Bool-cases (any_where key rows)) [
    | inl e ↦ rw (e, upsert) (replaced key row rows own e)
    | inr e ↦ rw (e, upsert) (appended_row key row rows own e)
  ]

  updates_other :
      (key other : A → Bool) (row : A) (rows : List A)
      → other row ≡ false
      → ((r : A) → key r ≡ true → other r ≡ false)
      → find_where other (update_where key (λ _. row) rows) ≡ find_where other rows
  unfolding find_where update_where
  updates_other key other row [] own apart = refl
  updates_other key other row (r ∷ rs) own apart = elim (Bool-cases (key r)) [
    | inl h ↦
        let rest = updates_other key other row rs own apart in
        let no = apart r h in ground (arith, own, rest, no)
    | inr h ↦ let rest = updates_other key other row rs own apart in ground (arith, rest)
  ]

  appends_other :
      (other : A → Bool) (row : A) (rows : List A)
      → other row ≡ false
      → find_where other (rows ++ row ∷ []) ≡ find_where other rows
  unfolding find_where
  appends_other other row [] own = ground (arith, own)
  appends_other other row (r ∷ rs) own =
      let rest = appends_other other row rs own in ground (arith, rest)

  -- Rows of another key stay.
  pub find_where-upsert_other :
      (key other : A → Bool) (row : A) (rows : List A)
      → other row ≡ false
      → ((r : A) → key r ≡ true → other r ≡ false)
      → find_where other (upsert key row rows) ≡ find_where other rows
  unfolding upsert
  find_where-upsert_other key other row rows own apart = elim (Bool-cases (any_where key rows)) [
    | inl e ↦ rw (e, upsert) (updates_other key other row rows own apart)
    | inr e ↦ rw (e, upsert) (appends_other other row rows own)
  ]

-- One more than every rowid.
unfoldable pub next_rowid : List TaskRow → ℕ
next_rowid [] = 1
next_rowid (t ∷ ts) = let n = next_rowid ts in if ltb t.rowid n then n else t.rowid + 1

-- An INSERT into tasks; idempotency_key is UNIQUE.
unfoldable pub insert_task : (List TaskRow → TaskRow) → Exec Unit
insert_task row = do
  taken ← gets (λ db. any_where (λ t. t.idempotency_key == (row db.tasks).idempotency_key) db.tasks)
  guard (not taken) constraint
  run (λ db. record db { tasks = db.tasks ++ row db.tasks ∷ [] })

abbrev pub is_membership : String → String → MembershipRow → Bool
is_membership space principal m = m.conversation_space_id == space && m.principal_id == principal

-- ON CONFLICT(conversation_space_id, principal_id) DO UPDATE
abbrev pub put_membership : MembershipRow → List MembershipRow → List MembershipRow
put_membership m = upsert (is_membership m.conversation_space_id m.principal_id) m
