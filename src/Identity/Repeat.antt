-- ===== src/Identity/Repeat.antt =====
-- confirmPairing (src/identity/service.ts) may be repeated.
use mathlib.Core.Option
use imgent.Prelude.{
  ℕ, ◌≡◌, refl, ap, ◌∙◌, String, Option, none, some, Bool, true, false, List, is_some, present,
  find_where, update_where, find_where-update_where, find_where-some, set_if, subst,
}
use imgent.Store.Directory.{IdentityRow, PrincipalRow, CodeRow}
use imgent.Store.Db.{Db, Result, ok}
use imgent.Identity.Principals.{is_identity, is_principal, audit}
use imgent.Identity.Pairing.{Coding, typed_hash, use_code, move_to, Pairing, confirm_pairing}
use imgent.Identity.Once.{find_where-use}
use imgent.Identity.Confirmed.{
  Known, answer, paired_db, Confirmed, refused, repeated, paired, again, confirm_pairing-Confirmed,
}

module _ {A : Type 0} where
  -- The row that a search by a key finds is the row that an update by that key maps.
  pub find_where-update_found :
      (q : A → Bool) (f : A → A) (xs : List A) (x : A)
      → ((y : A) → q (f y) ≡ q y)
      → find_where q xs ≡ some x
      → find_where q (update_where q f xs) ≡ some (f x)
  find_where-update_found q f xs x same h =
      let (_, own) = find_where-some q xs x h in
      find_where-update_where q q f xs same ∙ ap (Option.map (set_if q f)) h ∙ ap some (rw (own))

move_to-id :
    (id : String) (o : Option String) (p : PrincipalRow)
    → is_principal id (move_to o p) ≡ is_principal id p
move_to-id id none p = refl
move_to-id id (some path) p = refl

-- The code is used, and it leads to a paired identity and its principal, which the answer names.
record Settled (hash : String) (a : Pairing) (db : Db) : Type 0 where
  pub code_row : CodeRow
  pub identity_row : IdentityRow
  pub principal_row : PrincipalRow
  pub known : Known hash db code_row identity_row principal_row
  pub used : is_some code_row.used_at ≡ true
  pub is_paired : identity_row.paired ≡ true
  pub same_answer : answer code_row identity_row a.workspace ≡ a

paired-Settled :
    (hash : String) (now : ℕ) (path : Option String) (db : Db) (c : CodeRow) (i : IdentityRow)
    (p : PrincipalRow)
    → Known hash db c i p
    → is_some c.used_at ≡ false
    → Settled hash (answer c i (present path)) (paired_db now c i path db)
unfolding audit
paired-Settled hash now path db c i p known u = record {
  code_row = use_code now c;
  identity_row = record i { paired = true };
  principal_row = move_to (present path) p;
  known = record {
    found = find_where-use hash now db.pairing_codes c known.found u;
    identity =
        find_where-update_found (is_identity c.platform_identity_id)
          (λ j. record j { paired = true }) db.platform_identities i (λ y. refl) known.identity;
    principal =
        find_where-update_found (is_principal i.principal_id) (move_to (present path)) db.principals
          p (move_to-id i.principal_id (present path)) known.principal;
  };
  used = refl;
  is_paired = refl;
  same_answer = refl;
}

Confirmed-Settled :
    (hash : String) (now : ℕ) (path : Option String) (strict : Bool) (db : Db) (r : Result Pairing)
    (after : Db) (a : Pairing)
    → Confirmed hash now path strict db r after
    → r ≡ ok a
    → Settled hash a after
Confirmed-Settled hash now path strict db r after a (refused e) h = cc
Confirmed-Settled hash now path strict db r after a (repeated c i p known u k d) h =
    let same : answer c i (present p.workspace) ≡ a = cc h in
    subst (λ b. Settled hash b db) same
      (record {
        code_row = c;
        identity_row = i;
        principal_row = p;
        known = known;
        used = u;
        is_paired = k;
        same_answer = refl;
      })
Confirmed-Settled hash now path strict db r after a (paired c i p known u l) h =
    let same : answer c i (present path) ≡ a = cc h in
    subst (λ b. Settled hash b after) same (paired-Settled hash now path db c i p known u)

module _ (coding : Coding) (now : ℕ) (code : String) (path : Option String) (strict : Bool)
    (db : Db) where
  -- After a pairing code was accepted it is accepted again, at any time, so also after it has expired,
  -- and with any workspace: unless a workspace that differs is to be rejected, the same call names the
  -- same identity and principal, and nothing changes.
  pub confirm_pairing-confirm_pairing :
      (a : Pairing) (later : ℕ) (path' : Option String)
      → (confirm_pairing coding now code path strict db).0 ≡ ok a
      → (found : Option String) × (confirm_pairing coding later code path' false
            (confirm_pairing coding now code path strict db).1
          ≡ (
            ok (record a { workspace = found }),
            (confirm_pairing coding now code path strict db).1,
          ))
  confirm_pairing-confirm_pairing a later path' h =
      let s =
        Confirmed-Settled (typed_hash coding code) now path strict db _ _ a
          (confirm_pairing-Confirmed coding now code path strict db) h in
      let same : answer s.code_row s.identity_row (present s.principal_row.workspace)
          ≡ record a { workspace = present s.principal_row.workspace } =
        ap (λ (b : Pairing). record b { workspace = present s.principal_row.workspace })
          s.same_answer in
      (
        present s.principal_row.workspace,
        again coding later code path' false _ s.code_row s.identity_row s.principal_row s.known
              s.used s.is_paired refl
            ∙ ap (λ (b : Pairing). (ok b, (confirm_pairing coding now code path strict db).1)) same,
      )
