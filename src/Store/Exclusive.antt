-- ===== src/Store/Exclusive.antt =====
-- One turn at a time under an execution key (src/storage/store.ts): what claimNextTask and beginSteer
-- make of it, and the operations that start nothing.
use imgent.Prelude.{
  ℕ, ◌≤◌, ◌≡◌, ◌⊎◌, refl, sym, ap, ◌∙◌, String, Bool, true, false, ◌&&◌, arith, eq_iff, eq_refl,
  Bool-cases, inl, inr, In, set_if, update_where, In-update_where, count_where,
  count_where-update_where, unique_row,
}
use imgent.Store.Rows.{TaskRow, is_running, is_pending}
use imgent.Store.Db.{Db}
use imgent.Store.Tasks.{has_id, claimed, claim_next_task}
use imgent.Store.Fifo.{Claims, claim_next_task-Claims}
use imgent.Store.Calm.{is_handed, Calmer}

-- Ids are unique, and of two tasks that run under one execution key one was handed to a turn.
pub record Exclusive (db : Db) : Type 0 where
  pub primary : (id : String) → count_where (has_id id) db.tasks ≤ 1
  pub single :
      (a b : TaskRow)
      → In a db.tasks
      → In b db.tasks
      → is_running a.status ≡ true
      → is_running b.status ≡ true
      → a.execution_key ≡ b.execution_key
      → (is_handed a.id db.task_steers ≡ true)
        ⊎ (is_handed b.id db.task_steers ≡ true)
        ⊎ (a.id ≡ b.id)

pub same_row :
    (db : Db) (a b : TaskRow) → Exclusive db → In a db.tasks → In b db.tasks → a.id ≡ b.id → a ≡ b
same_row db a b x m n e =
    unique_row (has_id b.id) db.tasks a b (x.primary b.id) m n ((eq_iff a.id b.id).1 e)
      (eq_refl b.id)

pub Exclusive-Calmer : (db after : Db) → Calmer db after → Exclusive db → Exclusive after
Exclusive-Calmer db after c x = record {
  primary = λ id. rw (c.rows id) (x.primary id);
  single = λ a b m n r s k.
      let (t, i, p) = c.source a m in
      let (u, j, q) = c.source b n in
      elim (x.single t u i j (p.ran r) (q.ran s) (sym p.execution_key ∙ k ∙ q.execution_key)) [
        | inl h ↦ inl (c.handed a m r (rw p.id h))
        | inr (inl h) ↦ inr (inl (c.handed b n s (rw q.id h)))
        | inr (inr e) ↦ inr (inr (p.id ∙ e ∙ sym q.id))
      ];
}

abbrev takes : TaskRow → TaskRow → Bool
takes t u = has_id t.id u && is_pending u.status

-- A task that a claim starts finds nothing running under its key.
fresh :
    (now : ℕ) (db : Db) (t u v : TaskRow)
    → Exclusive db
    → Claims now db t
    → In u db.tasks
    → In v db.tasks
    → takes t u ≡ true
    → u.execution_key ≡ v.execution_key
    → is_running v.status ≡ false
fresh now db t u v x c m n p k =
    let same : u ≡ t = same_row db u t x m c.stored (ground (arith, eq_iff u.id t.id)) in
    c.ready.alone v n (sym k ∙ ap (λ r. r.execution_key) same)

claimed_row :
    (t u a : TaskRow)
    → a ≡ set_if (takes t) claimed u
    → (a.id ≡ u.id) × (a.execution_key ≡ u.execution_key)
claimed_row t u a e = (ground arith, ground arith)

kept_row : (t u a : TaskRow) → a ≡ set_if (takes t) claimed u → takes t u ≡ false → a ≡ u
kept_row t u a e h = e ∙ rw h

Exclusive-claimed :
    (now : ℕ) (db after : Db) (t : TaskRow)
    → after ≡ record db { tasks = update_where (takes t) claimed db.tasks }
    → Claims now db t
    → Exclusive db
    → Exclusive after
Exclusive-claimed now db after t same c x = rw same (record {
  primary = λ id.
      rw (count_where-update_where (has_id id) (takes t) claimed db.tasks (λ u h. refl))
        (x.primary id);
  single = λ a b m n r s k.
      let (u, i, d) = In-update_where (takes t) claimed db.tasks a m in
      let (v, j, e) = In-update_where (takes t) claimed db.tasks b n in
      let (da, ka) = claimed_row t u a d in
      let (db', kb) = claimed_row t v b e in
      let key : u.execution_key ≡ v.execution_key = sym ka ∙ k ∙ kb in
      elim (Bool-cases (takes t u)) [
        | inl p ↦ elim (Bool-cases (takes t v)) [
          | inl q ↦ inr (inr (ground (arith, eq_iff u.id t.id, eq_iff v.id t.id)))
          | inr q ↦
              let idle : is_running v.status ≡ false = fresh now db t u v x c i j p key in
              absurd (ground (arith, kept_row t v b e q))
        ]
        | inr p ↦ elim (Bool-cases (takes t v)) [
          | inl q ↦
              let idle : is_running u.status ≡ false = fresh now db t v u x c j i q (sym key) in
              absurd (ground (arith, kept_row t u a d p))
          | inr q ↦
              rw (kept_row t u a d p, kept_row t v b e q)
                (x.single u v i j (rw (← kept_row t u a d p) r) (rw (← kept_row t v b e q) s) key)
        ]
      ];
})

pub Exclusive-claim_next_task :
    (now : ℕ) (db : Db) → Exclusive db → Exclusive (claim_next_task now db).0
Exclusive-claim_next_task now db x = elim (claim_next_task-Claims now db) [
  | inl (t, c) ↦ Exclusive-claimed now db (claim_next_task now db).0 t c.marked c x
  | inr (e, _) ↦ rw e x
]
