-- ===== src/Identity/Workspaces.antt =====
-- What setWorkspace (src/identity/service.ts) comes to.
use imgent.Prelude.{
  ℕ, ◌≡◌, ◌⊎◌, inl, inr, refl, sym, ap, ◌∙◌, String, Option, none, some, Bool, true, false, ◌&&◌,
  In, Bool-cases, Option-cases, any_where, find_where-some, eq_iff, subst, present, update_where,
}
use imgent.Store.Rows.{TaskRow}
use imgent.Store.Directory.{SessionRow, PrincipalRow, workspace_changed}
use imgent.Store.Db.{Db, Result, ok, err, transaction}
use imgent.Identity.Principals.{
  rejected, is_principal, find_principal, is_paired_of, is_at_work, works_for, clears,
  clear_sessions_for_principal, WorkspaceChange, is_same_workspace, workspace, move_workspace,
  set_workspace, audit,
}
use imgent.Identity.Repeat.{find_where-update_found}
use imgent.Identity.Hosts.{In-delete_where}

-- Whether a task in the principal's workspace runs or waits for an approval.
abbrev pub is_working : String → Db → Bool
is_working principal db =
    any_where (λ (t : TaskRow). is_at_work t.status && works_for principal db t) db.tasks

module _ (now : ℕ) (principal path : String) (db : Db) where
  abbrev pub result : Result WorkspaceChange × Db
  result = set_workspace now principal path db

  abbrev renamed : PrincipalRow → Db
  renamed p = record db {
    principals =
        update_where (is_principal p.id) (λ q. record q { workspace = some path }) db.principals;
  }

  abbrev moved : PrincipalRow → Db
  moved p =
      audit now p.agent_profile_id p.id none
        (workspace_changed p.workspace path (clear_sessions_for_principal p.id (renamed p)).1)
        (clear_sessions_for_principal p.id (renamed p)).0

  abbrev change : PrincipalRow → WorkspaceChange
  change p = record {
    previous_workspace = present p.workspace;
    workspace = path;
    cleared_sessions = (clear_sessions_for_principal p.id (renamed p)).1;
  }

  unknown : find_principal principal db ≡ none → result ≡ (err rejected, db)
  unfolding set_workspace transaction
  unknown e = rw (e, set_workspace, transaction)

  module _ (p : PrincipalRow) (e : find_principal principal db ≡ some p) where
    abbrev is_paired : Bool
    is_paired = any_where (is_paired_of p.id) db.platform_identities

    unpaired : is_paired ≡ false → result ≡ (err rejected, db)
    unfolding set_workspace transaction
    unpaired h = rw (e, h, set_workspace, transaction)

    module _ (h : is_paired ≡ true) where
      unchanged :
          is_same_workspace p.workspace path ≡ true
          → result ≡ (
            ok (record {
              previous_workspace = present p.workspace;
              workspace = path;
              cleared_sessions = 0;
            }),
            db,
          )
      unfolding set_workspace transaction
      unchanged w = rw (e, h, w, set_workspace, transaction)

      working :
          is_same_workspace p.workspace path ≡ false
          → is_working p.id db ≡ true
          → result ≡ (err rejected, db)
      unfolding set_workspace transaction move_workspace
      working w i = rw (e, h, w, i, set_workspace, transaction, move_workspace)

      moves :
          is_same_workspace p.workspace path ≡ false
          → is_working p.id db ≡ false
          → result ≡ (ok (change p), moved p)
      unfolding set_workspace transaction move_workspace
      moves w i = rw (e, h, w, i, set_workspace, transaction, move_workspace)

  abbrev pub IsMoved : Db → Type 0
  IsMoved after =
      (workspace principal none after ≡ some path)
      × ((after ≡ db)
          ⊎ ((is_working principal db ≡ false)
              × ((s : SessionRow) → In s after.agent_sessions → clears principal after s ≡ false)))

  moved-workspace :
      (p : PrincipalRow)
      → find_principal principal db ≡ some p
      → p.id ≡ principal
      → workspace principal none (moved p) ≡ some path
  unfolding workspace audit clear_sessions_for_principal
  moved-workspace p e same =
      let own : find_principal p.id db ≡ some p =
        subst (λ k. find_principal k db ≡ some p) (sym same) e in
      let found =
        find_where-update_found (is_principal p.id) (λ q. record q { workspace = some path })
          db.principals p (λ y. refl) own in
      rw (← same) (rw (found, workspace))

  moved-clears :
      (p : PrincipalRow) (s : SessionRow)
      → p.id ≡ principal
      → In s (moved p).agent_sessions
      → clears principal (moved p) s ≡ false
  unfolding works_for audit clear_sessions_for_principal
  moved-clears p s same m =
      rw (← same) (In-delete_where (clears p.id (renamed p)) db.agent_sessions s m)

  unchanged-workspace :
      (p : PrincipalRow)
      → find_principal principal db ≡ some p
      → (o : Option String) → p.workspace ≡ o
      → is_same_workspace o path ≡ true
      → workspace principal none db ≡ some path
  unfolding workspace
  unchanged-workspace p e none o w = cc
  unchanged-workspace p e (some q) o w =
      let same : q ≡ path = (eq_iff q path).0 w in rw (e, o, same, workspace)

  paired_moves :
      (p : PrincipalRow)
      → find_principal principal db ≡ some p
      → any_where (is_paired_of p.id) db.platform_identities ≡ true
      → (c : WorkspaceChange) → result.0 ≡ ok c
      → IsMoved result.1
  paired_moves p e h c succeeds =
      let (_, own) = find_where-some (is_principal principal) db.principals p e in
      let same : p.id ≡ principal = (eq_iff p.id principal).0 own in
      elim (Bool-cases (is_same_workspace p.workspace path)) [
        | inl w ↦ rw (unchanged p e h w) (unchanged-workspace p e p.workspace refl w, inl refl)
        | inr w ↦ elim (Bool-cases (is_working p.id db)) [
          | inl i ↦
              let first : err rejected ≡ ok c =
                sym (ap (λ r. r.0) (working p e h w i)) ∙ succeeds in
              absurd (cc)
          | inr i ↦
              rw (moves p e h w i)
                (moved-workspace p e same, inr (rw (← same) i, λ s m. moved-clears p s same m))
        ]
      ]

  -- Where setWorkspace succeeds, the principal's workspace is the one given. Either nothing has
  -- changed, or no task in that workspace ran or waited for an approval, and no agent session is left
  -- that a task in it, the principal's own or one of a group that it let in, would resume.
  pub set_workspace-IsMoved : (c : WorkspaceChange) → result.0 ≡ ok c → IsMoved result.1
  set_workspace-IsMoved c succeeds = elim (Option-cases (find_principal principal db)) [
    | inl e ↦
        let first : err rejected ≡ ok c = sym (ap (λ r. r.0) (unknown e)) ∙ succeeds in absurd (cc)
    | inr (p, e) ↦ elim (Bool-cases (any_where (is_paired_of p.id) db.platform_identities)) [
      | inl h ↦ paired_moves p e h c succeeds
      | inr h ↦
          let first : err rejected ≡ ok c = sym (ap (λ r. r.0) (unpaired p e h)) ∙ succeeds in
          absurd (cc)
    ]
  ]
