-- ===== src/Requests/Access.antt =====
-- RunService.get_run with _owner_user_id, and the selection by owner of SqliteRunStore.get_run.
use pangi.Prelude.{
  String, Bool, true, false, ◌&&◌, ◌||◌, not, List, [], ◌∷◌, Option, none, some, ◌≡◌, refl, arith,
  map, str_eq, eq_refl, eq_iff, if◌then◌else◌, inl, inr, sym, subst,
}
use pangi.Prelude.Distinct.{In, Distinct}
use pangi.Prelude.Keyed.{contains-keys}
use pangi.Prelude.Results.{Result, ok, err, ◌>>=◌}
use pangi.Prelude.Sets.{contains}
use pangi.Runs.Contracts.{UserRole, admin, Run}
use pangi.Queue.Database.{RunEntry, Database, entry_id, run_from_row}
use pangi.Queue.Invariant.{IsQueue, IsEntry-run_from_row}
use pangi.Requests.Store.{same_role}

-- AuthenticatedPrincipal: the user, the role, and whether the status is active
pub record Actor : Type 0 where
  pub user_id : String
  pub role : UserRole
  pub active : Bool

pub data AccessError : Type 0 where
  run_not_found run_persistence : AccessError

-- `_owner_user_id`
unfoldable pub owner_user_id : Actor → Result AccessError (Option String)
owner_user_id a =
    if not a.active
    then err run_not_found
    else if same_role a.role admin
    then ok none
    else ok (some a.user_id)

-- AND r.principal_id = ?, with an owner
abbrev pub owned_by_user : Option String → RunEntry → Bool
owned_by_user none e = true
owned_by_user (some id) e = str_eq id e.run.request.principal.user_id

-- `_select_run` with an owner
unfoldable pub select_owned : String → Option String → List RunEntry → Option RunEntry
select_owned id owner [] = none
select_owned id owner (e ∷ rest) =
    let later = select_owned id owner rest in
    if str_eq id e.run.id && owned_by_user owner e then some e else later

abbrev read_found : Option RunEntry → Result AccessError Run
read_found none = err run_not_found
read_found (some row) = elim (run_from_row row) [ ok run ↦ ok run | err e ↦ err run_persistence ]

unfoldable pub get_run : Actor → String → Database → Result AccessError Run
get_run actor run_id db = do
  owner ← owner_user_id actor
  read_found (select_owned run_id owner db.runs)

select_owned_absent :
    (id : String) (owner : Option String) (xs : List RunEntry)
    → contains id (map entry_id xs) ≡ false
    → select_owned id owner xs ≡ none
unfolding select_owned contains
select_owned_absent id owner [] h = refl
select_owned_absent id owner (x ∷ xs) h = ground (arith, select_owned_absent id owner xs)

select_owned_one :
    (e : RunEntry) (owner : Option String) (xs : List RunEntry)
    → Distinct (map entry_id xs)
    → In e xs
    → select_owned e.run.id owner xs ≡ (if owned_by_user owner e then some e else none)
unfolding select_owned
select_owned_one e owner [] d i = elim i [ ]
select_owned_one e owner (x ∷ xs) d (inl f) =
    subst
      (λ y. select_owned y.run.id owner (x ∷ xs) ≡ (if owned_by_user owner y then some y else none))
      (sym f) (rw (eq_refl x.run.id, select_owned_absent x.run.id owner xs d.0) refl)
select_owned_one e owner (x ∷ xs) d (inr i) = ground (
  arith,
  select_owned_one e owner xs d.1 i,
  contains-keys entry_id e xs i,
  d.0,
  eq_iff e.run.id x.run.id,
)

-- Who may see a Run: an active admin, and the active user it belongs to
abbrev pub may_see : Actor → Run → Bool
may_see a r = a.active && (same_role a.role admin || str_eq a.user_id r.request.principal.user_id)

-- In well-formed tables, `get_run` returns a stored Run to an active admin and to its active owner;
-- to anybody else it raises that the Run is not found.
pub get_run_exact :
    (actor : Actor) (e : RunEntry) (db : Database)
    → IsQueue db
    → In e db.runs
    → get_run actor e.run.id db ≡ (if may_see actor e.run then ok e.run else err run_not_found)
unfolding get_run owner_user_id
get_run_exact actor e db q i = ground (
  arith,
  select_owned_one e none db.runs q.distinct i,
  select_owned_one e (some actor.user_id) db.runs q.distinct i,
  IsEntry-run_from_row (q.entries e i),
)
