-- ===== src/Store/Db.antt =====
-- The database as a record of tables, and IMGentStore.transaction (src/storage/store.ts).
-- An operation that may throw takes the database to a result and a database; a statement that has
-- run stays in effect if a later one throws, unless a transaction rolls it back.
use imgent.Prelude.{◌≡◌, ◌⊎◌, inl, inr, refl, List, [], Bool, true, false}
use imgent.Errors.Codes.{ErrorCode}
use imgent.Store.Rows.{TaskRow, SteerRow, ApprovalRow, OutboundRow, DeadLetterRow, CurationRow}
use imgent.Store.Directory.{
  SpaceRow, IdentityRow, MembershipRow, AuthorizationRow, SessionRow, ScheduleRow, ScheduleRunRow,
  AuditRow, PrincipalRow, PolicyRow, EventRow, CheckpointRow, CodeRow,
}
use imgent.Store.Memories.{MemoryRow, IndexRow}

pub record Db : Type 0 where
  pub tasks : List TaskRow
  pub task_steers : List SteerRow
  pub approvals : List ApprovalRow
  pub outbound_messages : List OutboundRow
  pub dead_letters : List DeadLetterRow
  pub memory_outbox : List CurationRow
  pub conversation_spaces : List SpaceRow
  pub platform_identities : List IdentityRow
  pub group_memberships : List MembershipRow
  pub group_authorizations : List AuthorizationRow
  pub agent_sessions : List SessionRow
  pub schedules : List ScheduleRow
  pub schedule_runs : List ScheduleRunRow
  pub audit_events : List AuditRow
  pub principals : List PrincipalRow
  pub group_policies : List PolicyRow
  pub inbound_events : List EventRow
  pub transport_checkpoints : List CheckpointRow
  pub pairing_codes : List CodeRow
  pub binding_codes : List CodeRow
  pub memory_records : List MemoryRow
  pub memory_fts : List IndexRow

abbrev pub empty_db : Db
empty_db = record {
  tasks = [];
  task_steers = [];
  approvals = [];
  outbound_messages = [];
  dead_letters = [];
  memory_outbox = [];
  conversation_spaces = [];
  platform_identities = [];
  group_memberships = [];
  group_authorizations = [];
  agent_sessions = [];
  schedules = [];
  schedule_runs = [];
  audit_events = [];
  principals = [];
  group_policies = [];
  inbound_events = [];
  transport_checkpoints = [];
  pairing_codes = [];
  binding_codes = [];
  memory_records = [];
  memory_fts = [];
}

-- What an operation throws: an ImgentError of a code, a constraint of the schema that SQLite
-- reports, or a plain Error.
pub data Failure : Type 0 where
  coded : ErrorCode → Failure
  constraint : Failure
  plain : Failure

pub data Result {ℓ} (A : Type ℓ) : Type ℓ where
  ok : A → Result A
  err : Failure → Result A

pub Result-cases {ℓ} :
    {A : Type ℓ} (r : Result A) → ((e : Failure) × (r ≡ err e)) ⊎ ((a : A) × (r ≡ ok a))
Result-cases (err e) = inl (e, refl)
Result-cases (ok a) = inr (a, refl)

abbrev pub Exec : Type 0 → Type 0
Exec A = Db → Result A × Db

module _ {A : Type 0} where
  abbrev pub pure : A → Exec A
  pure a db = (ok a, db)

  abbrev pub throw : Failure → Exec A
  throw e db = (err e, db)

-- A statement that cannot throw.
abbrev pub run : (Db → Db) → Exec Unit
run f db = (ok tt, f db)

abbrev pub gets : {A : Type 0} → (Db → A) → Exec A
gets f db = (ok (f db), db)

abbrev pub state : {A : Type 0} → (Db → Db × A) → Exec A
state f db = let (db', a) = f db in (ok a, db')

abbrev pub continue : {A B : Type 0} → Result A → (A → Exec B) → Exec B
continue (ok a) f db = f a db
continue (err e) f db = (err e, db)

infixl 5 ◌>>=◌ ◌>>◌
abbrev pub ◌>>=◌ : {A B : Type 0} → Exec A → (A → Exec B) → Exec B
◌>>=◌ m f db = let (r, db') = m db in continue r f db'

abbrev pub ◌>>◌ : {B : Type 0} → Exec Unit → Exec B → Exec B
m >> n = m >>= λ _. n

-- if (!test) throw e
abbrev pub guard : Bool → Failure → Exec Unit
guard true e db = (ok tt, db)
guard false e db = (err e, db)

-- COMMIT or ROLLBACK
abbrev pub finish : {A : Type 0} → Db → Result A → Db → Result A × Db
finish before (ok a) after = (ok a, after)
finish before (err e) after = (err e, before)

unfoldable pub transaction : {A : Type 0} → Exec A → Exec A
transaction operation db = let (r, after) = operation db in finish db r after
