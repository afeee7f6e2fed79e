-- ===== src/Requests/Replay.antt =====
-- A request that is repeated under its idempotency key is answered with the Run of the first one.
use pangi.Prelude.{
  String, true, false, ◌&&◌, ◌||◌, not, List, [], ◌∷◌, none, some, ◌≡◌, refl, ap, ◌∙◌, arith,
  str_eq, eq_refl, any, leb, ◌==◌, if◌then◌else◌, Bool-cases, Option-cases, inl, inr,
}
use pangi.Prelude.Results.{Result, ok, err, raise_if, >>=-eq-ok, raise_if-eq-ok}
use pangi.Runs.Contracts.{Run, Principal, run_init}
use pangi.Queue.Database.{RunEntry, select_run, run_from_row, stored_request}
use pangi.Requests.Store.{
  IdempotencyRecord, Tables, RunCreateRecord, RunCreation, CreationError, idempotency_conflict,
  is_available, has_key, find_record, delete_expired, replay_existing, new_entry, completed_record,
  created, insert_new, replayed_run, find_or_insert, create_or_replay,
}

-- A second request under the same key
pub record IsRetry (r s : RunCreateRecord) : Type 0 where
  pub principal : s.run.request.principal ≡ r.run.request.principal
  pub route : s.route_key ≡ r.route_key
  pub key : s.run.request.idempotency_key ≡ r.run.request.idempotency_key
  pub event : s.first_event.run_id ≡ s.run.id
  pub first : s.first_event.index ≡ 1
  pub in_time : leb r.expires_at s.recorded_at ≡ false

delete_none :
    (r : RunCreateRecord) (xs : List IdempotencyRecord)
    → find_record r xs ≡ none
    → delete_expired r xs ≡ xs
unfolding delete_expired find_record
delete_none r [] h = refl
delete_none r (x ∷ xs) h = ground (arith, delete_none r xs)

retry_key :
    (r s : RunCreateRecord) (i : IdempotencyRecord) → IsRetry r s → has_key s i ≡ has_key r i
unfolding has_key
retry_key r s i h = rw (h.principal, h.route, h.key) refl

retry_find :
    (r s : RunCreateRecord) (xs : List IdempotencyRecord)
    → IsRetry r s
    → find_record s xs ≡ find_record r xs
unfolding find_record
retry_find r s [] h = refl
retry_find r s (x ∷ xs) h = rw (retry_key r s x h, retry_find r s xs h) refl

has_key_self : (r : RunCreateRecord) → has_key r (completed_record r) ≡ true
unfolding has_key
has_key_self r = rw (eq_refl, eq_refl, eq_refl) refl

pub ok_pair :
    (a b : RunCreation) (t u : Tables)
    → (λ (x : Result CreationError (RunCreation × Tables)). x) (ok (a, t)) ≡ ok (b, u)
    → (b.run ≡ a.run) × (t ≡ u)
ok_pair a b t u h = ground (arith, h)

insert_new-inv :
    (r : RunCreateRecord) (records : List IdempotencyRecord) (t t' : Tables) (run : Run)
    → insert_new r records t ≡ ok (record { run = run; replayed = false }, t')
    → (run ≡ r.run) × (created r records t ≡ t')
unfolding insert_new
insert_new-inv r records t t' run h0 =
    let (_, _, h1) = >>=-eq-ok (raise_if (leb r.expires_at r.recorded_at) _) _ h0 in
    let (_, _, h2) =
      >>=-eq-ok (raise_if (any (λ e. str_eq r.run.id e.run.id) t.database.runs) _) _ h1 in
    let (_, _, h3) =
      >>=-eq-ok
        (raise_if
          (any (λ e. str_eq r.run.request.request_id e.run.request.request_id) t.database.runs) _)
        _ h2 in
    let (_, _, h4) =
      >>=-eq-ok
        (raise_if
          (any (λ e. str_eq r.first_event.run_id e.run_id && e.index == r.first_event.index)
            t.database.events)
          _)
        _ h3 in
    ok_pair _ _ _ _ h4

not_replayed :
    (t t' : Tables) (x : Result CreationError Run) (run : Run)
    → replayed_run t x ≡ ok (record { run = run; replayed = false }, t')
    → ⊥
not_replayed t t' (ok r) run h = absurd (ground (arith, h))
not_replayed t t' (err e) run h = absurd (cc h)

find_or_insert-inv :
    (r : RunCreateRecord) (records : List IdempotencyRecord) (t t' : Tables) (run : Run)
    → find_or_insert r records t ≡ ok (record { run = run; replayed = false }, t')
    → (find_record r records ≡ none) × (run ≡ r.run) × (created r records t ≡ t')
unfolding find_or_insert
find_or_insert-inv r records t t' run h = elim (Option-cases (find_record r records)) [
  | inl absent ↦
      let (a, b) = insert_new-inv r records t t' run (rw (find_or_insert, absent) at h) in
      (absent, a, b)
  | inr (i, found) ↦ elim (not_replayed _ t' _ run (rw (find_or_insert, found) at h)) [ ]
]

select_new :
    (r : Run) (rest : List RunEntry) → select_run r.id (new_entry r ∷ rest) ≡ some (new_entry r)
unfolding select_run
select_new r rest = rw (eq_refl r.id) refl

new_entry-run_from_row :
    (r : Run)
    → stored_request r.request ≡ ok r.request
    → run_init r ≡ ok r
    → run_from_row (new_entry r) ≡ ok r
unfolding run_from_row
new_entry-run_from_row r q h = ground (arith, q, h)

replay_new :
    (r : RunCreateRecord) (records : List IdempotencyRecord) (t : Tables) (fingerprint : String)
    → stored_request r.run.request ≡ ok r.run.request
    → run_init r.run ≡ ok r.run
    → replay_existing (completed_record r) fingerprint (created r records t).database
      ≡ (if str_eq r.request_fingerprint fingerprint then ok r.run else err idempotency_conflict)
unfolding replay_existing
replay_new r records t fingerprint q h =
    ground
      (arith, eq_refl r.run.id, select_new r.run t.database.runs, new_entry-run_from_row r.run q h)

retry_delete :
    (r s : RunCreateRecord) (records : List IdempotencyRecord)
    → IsRetry r s
    → find_record r records ≡ none
    → delete_expired s (completed_record r ∷ records) ≡ completed_record r ∷ records
unfolding delete_expired
retry_delete r s records h absent =
    rw (retry_key r s (completed_record r) h ∙ has_key_self r, h.in_time)
      (ap (λ l. completed_record r ∷ l) (delete_none s records (retry_find r s records h ∙ absent)))

retry_found :
    (r s : RunCreateRecord) (records : List IdempotencyRecord)
    → IsRetry r s
    → find_record s (completed_record r ∷ records) ≡ some (completed_record r)
unfolding find_record
retry_found r s records h = rw (retry_key r s (completed_record r) h ∙ has_key_self r) refl

retry_inserts_nothing :
    (r s : RunCreateRecord) (records : List IdempotencyRecord) (t : Tables)
    → IsRetry r s
    → stored_request r.run.request ≡ ok r.run.request
    → run_init r.run ≡ ok r.run
    → find_or_insert s (completed_record r ∷ records) (created r records t) ≡ (
        if str_eq r.request_fingerprint s.request_fingerprint
        then ok (record { run = r.run; replayed = true }, created r records t)
        else err idempotency_conflict)
unfolding find_or_insert
retry_inserts_nothing r s records t h q good =
    rw
      (
        find_or_insert,
        retry_found r s records h,
        replay_new r records t s.request_fingerprint q good,
      )
      (elim (Bool-cases (str_eq r.request_fingerprint s.request_fingerprint)) [
        | inl same ↦ rw same refl
        | inr other ↦ rw other refl
      ])

retry_guards :
    (r s : RunCreateRecord) (records : List IdempotencyRecord) (t : Tables)
    → IsRetry r s
    → find_record r records ≡ none
    → is_available r.run.request.principal.user_id r.run.request.principal.role t.users ≡ true
    → create_or_replay s (created r records t)
      ≡ find_or_insert s (completed_record r ∷ records) (created r records t)
unfolding create_or_replay
retry_guards r s records t h absent free =
    let named : str_eq s.first_event.run_id s.run.id ≡ true =
      ap (λ x. str_eq x s.run.id) h.event ∙ eq_refl s.run.id in
    let numbered : (s.first_event.index == 1) ≡ true = ap (λ n. n == 1) h.first in
    let available =
      ap (λ (p : Principal). is_available p.user_id p.role t.users) h.principal ∙ free in
    rw (named, numbered, available, retry_delete r s records h absent) refl

pub retry_outcome :
    (r s : RunCreateRecord) (records : List IdempotencyRecord) (t : Tables)
    → IsRetry r s
    → find_record r records ≡ none
    → is_available r.run.request.principal.user_id r.run.request.principal.role t.users ≡ true
    → stored_request r.run.request ≡ ok r.run.request
    → run_init r.run ≡ ok r.run
    → create_or_replay s (created r records t) ≡ (
        if str_eq r.request_fingerprint s.request_fingerprint
        then ok (record { run = r.run; replayed = true }, created r records t)
        else err idempotency_conflict)
retry_outcome r s records t h absent free q good =
    retry_guards r s records t h absent free ∙ retry_inserts_nothing r s records t h q good

-- What a creation that is no replay found and wrote.
pub create_or_replay-inv :
    (r : RunCreateRecord) (t t' : Tables) (run : Run)
    → create_or_replay r t ≡ ok (record { run = run; replayed = false }, t')
    → (is_available r.run.request.principal.user_id r.run.request.principal.role t.users ≡ true)
      × (find_record r (delete_expired r t.records) ≡ none)
      × (run ≡ r.run)
      × (created r (delete_expired r t.records) t ≡ t')
unfolding create_or_replay
create_or_replay-inv r t t' run h0 =
    let (_, _, h1) =
      >>=-eq-ok
        (raise_if (not (str_eq r.first_event.run_id r.run.id) || not (r.first_event.index == 1)) _)
        _ h0 in
    let (u, guard, h2) =
      >>=-eq-ok
        (raise_if
          (not (is_available r.run.request.principal.user_id r.run.request.principal.role t.users))
          _)
        _ h1 in
    let (absent, same, tables) = find_or_insert-inv r (delete_expired r t.records) t t' run h2 in
    (ground (arith, raise_if-eq-ok _ _ u guard), absent, same, tables)
