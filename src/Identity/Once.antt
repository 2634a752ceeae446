-- ===== src/Identity/Once.antt =====
-- A binding code (src/identity/service.ts) is used once.
use mathlib.Core.Option
use imgent.Prelude.{
  ℕ, ◌≡◌, refl, ap, ◌∙◌, String, some, true, false, ◌==◌, List, eq_refl, is_some, find_where,
  update_where, find_where-update_where, set_if,
}
use imgent.Store.Directory.{CodeRow}
use imgent.Store.Db.{Db, plain, Result, ok, err}
use imgent.Identity.Principals.{audit}
use imgent.Identity.Pairing.{Coding, typed_hash, is_code, is_unused_of, use_code}
use imgent.Identity.Binding.{Bound, use_binding, consume_binding_code}
use imgent.Identity.Offers.{
  Consumed, refused, clashing, scheduled, shared, merged, used, consume_binding_code-Consumed,
}

-- An unused code that is found stays found when its identity's codes are used, and is then used.
pub find_where-use :
    (hash : String) (now : ℕ) (codes : List CodeRow) (c : CodeRow)
    → find_where (is_code hash) codes ≡ some c
    → is_some c.used_at ≡ false
    → find_where
        (is_code hash)
        (update_where (is_unused_of c.platform_identity_id) (use_code now) codes)
      ≡ some (use_code now c)
find_where-use hash now codes c h u =
    let own : (c.platform_identity_id == c.platform_identity_id) ≡ true =
      eq_refl c.platform_identity_id in
    let set : set_if (is_unused_of c.platform_identity_id) (use_code now) c ≡ use_code now c =
      rw (own, u) in
    find_where-update_where (is_code hash) (is_unused_of c.platform_identity_id) (use_code now)
      codes (λ x. refl)
    ∙ ap (Option.map (set_if (is_unused_of c.platform_identity_id) (use_code now))) h
    ∙ ap some set

module _ (coding : Coding) (now : ℕ) (code target_id : String) (db : Db) where
  -- The code is in the table, and used.
  abbrev IsSpent : Db → Type 0
  IsSpent after =
      (c : CodeRow) × (find_where (is_code (typed_hash coding code)) after.binding_codes ≡ some c)
      × (is_some c.used_at ≡ true)

  Consumed-IsSpent :
      (b : Bound) (r : Result Bound) (after : Db)
      → Consumed coding now code target_id db r after
      → r ≡ ok b
      → IsSpent after
  unfolding use_binding audit
  Consumed-IsSpent b r after (refused why) h = cc
  Consumed-IsSpent b r after (clashing c source target offer q k) h = cc
  Consumed-IsSpent b r after (scheduled c source target offer q k) h = cc
  Consumed-IsSpent b r after (shared c source target offer q) h = (
    use_code now c,
    find_where-use (typed_hash coding code) now db.binding_codes c offer.found offer.unused,
    refl,
  )
  Consumed-IsSpent b r after (merged c source target mid offer q done) h = (
    use_code now c,
    rw (done.codes)
        (find_where-use (typed_hash coding code) now db.binding_codes c offer.found offer.unused),
    refl,
  )

  -- After a code was used, it is refused at any time and for any identity, and nothing changes.
  pub consume_binding_code-consume_binding_code :
      (b : Bound) (later : ℕ) (other_id : String)
      → (consume_binding_code coding now code target_id db).0 ≡ ok b
      → consume_binding_code coding later code other_id
          (consume_binding_code coding now code target_id db).1
        ≡ (err plain, (consume_binding_code coding now code target_id db).1)
  consume_binding_code-consume_binding_code b later other_id h =
      let (c, e, u) =
        Consumed-IsSpent b _ _ (consume_binding_code-Consumed coding now code target_id db) h in
      used coding later code other_id _ c e u
