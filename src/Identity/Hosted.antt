-- ===== src/Identity/Hosted.antt =====
-- A group works in the workspace of who let it in (src/identity/service.ts: authorizeGroup, workspace).
use imgent.Prelude.{
  ℕ, ◌≡◌, inl, inr, sym, ap, ◌∙◌, String, some, true, false, ◌==◌, List, In, find_where,
  find_where-some, eq_iff,
}
use imgent.Store.Directory.{SpaceRow, SessionRow, PrincipalRow}
use imgent.Store.Db.{Db, ok, err}
use imgent.Schedules.Access.{has_space_id}
use imgent.Identity.Principals.{
  is_group_space, find_principal, workspace, rejected, is_session_among, audit,
}
use imgent.Identity.Groups.{is_group_kind, is_in_space, authorization, authorize_group}
use imgent.Identity.Hosts.{
  In-delete_where, find_where-both, find_where-put, by_other, hosted, Host, authorize_group-Outcome,
}

group_space_found :
    (space : String) (s : SpaceRow) (spaces : List SpaceRow)
    → find_where (has_space_id space) spaces ≡ some s
    → is_group_kind s.kind ≡ true
    → find_where (is_group_space space) spaces ≡ some s
group_space_found space s spaces e k =
    find_where-both (has_space_id space) (λ y. is_group_kind y.kind) spaces s e k

module _ (now : ℕ) (space principal : String) (db : Db) (host : PrincipalRow)
    (known : find_principal principal db ≡ some host) where
  hosted-workspace :
      (s : SpaceRow) (anyone : String)
      → (space == "") ≡ false
      → Host now space principal db s
      → workspace anyone (some space) (hosted now space principal db s) ≡ host.workspace
  unfolding workspace audit
  hosted-workspace s anyone named h =
      let (_, own) = find_where-some (has_space_id space) db.conversation_spaces s h.found in
      let id : s.id ≡ space = (eq_iff s.id space).0 own in
      let group_row = group_space_found space s db.conversation_spaces h.found h.is_group in
      let row = find_where-put (authorization now space principal) db.group_authorizations in
      rw (named, group_row, id, row, known, workspace)

  hosted_cleared :
      (s : SpaceRow) (session : SessionRow)
      → by_other now space principal db ≡ true
      → In session (hosted now space principal db s).agent_sessions
      → is_session_among (is_in_space space) db.tasks session ≡ false
  unfolding audit
  hosted_cleared s session o m =
      In-delete_where (is_session_among (is_in_space space) db.tasks) db.agent_sessions session
        (rw (o) at m)

  -- Where authorizeGroup succeeds, for a principal that is known and a group whose id is not empty,
  -- everybody's workspace in the group is that of the principal; and where another had let the group
  -- in before, no session of a task of the group is left.
  pub authorize_group-workspace :
      (anyone : String)
      → (space == "") ≡ false
      → (authorize_group now space principal db).0 ≡ ok tt
      → (workspace anyone (some space) (authorize_group now space principal db).1 ≡ host.workspace)
        × (by_other now space principal db ≡ true
            → (session : SessionRow)
            → In session (authorize_group now space principal db).1.agent_sessions
            → is_session_among (is_in_space space) db.tasks session ≡ false)
  authorize_group-workspace anyone named succeeds =
      elim (authorize_group-Outcome now space principal db) [
        | inl e ↦ let first : ok tt ≡ err rejected = sym succeeds ∙ ap (λ p. p.0) e in absurd (cc)
        | inr (s, h, e) ↦ (
          rw (e) (hosted-workspace s anyone named h),
          λ o session m. hosted_cleared s session o (rw (e) at m),
        )
      ]
