-- ===== src/Requests/Reception.antt =====
-- A created Run joins a well-formed queue.
use pangi.Prelude.{
  ℕ, suc, String, true, false, not, ◌&&◌, ◌||◌, none, ◌≡◌, refl, ap, ◌∙◌, sym, subst, arith, List,
  [], ◌∷◌, map, any, str_eq, eq_iff, leb, ◌==◌, Bool-cases, Option-cases, ◌⊎◌, inl, inr,
}
use pangi.Prelude.Results.{Result, ok, err, >>=-eq-ok, raise_if, raise_if-eq-ok}
use pangi.Prelude.Sets.{contains}
use pangi.Runs.States.{received}
use pangi.Runs.Contracts.{Run, RunRequest, identifier_ok}
use pangi.Runs.Validity.{IsRun, IsAware}
use pangi.Queue.Events.{RunEvent}
use pangi.Queue.Database.{RunEntry, entry_id, stored_request}
use pangi.Queue.Invariant.{IsEntry, IsQueue, IsNumbered, count}
use pangi.Requests.Store.{
  IdempotencyRecord, Tables, RunCreateRecord, RunCreation, CreationError, new_entry, created,
  insert_new, replayed_run, find_record, delete_expired, find_or_insert, create_or_replay,
  is_available,
}
use pangi.Requests.Service.{SemanticRequest, route_key_ok, received_run, received_event, create_run}
use pangi.Requests.Replay.{ok_pair}
use pangi.Requests.Idempotency.{received_run-IsRun, create_record, create_run_store}

-- No first event of a Run: no event of it at all.
count_new :
    (id : String) (es : List RunEvent)
    → IsNumbered es
    → any (λ e. str_eq id e.run_id && e.index == 1) es ≡ false
    → count id es ≡ 0
count_new id [] n h = refl
count_new id (e ∷ es) n h = elim (Bool-cases (str_eq id e.run_id)) [
  | inl same ↦
      absurd (ground (arith, n.0, count_new id es n.1 (ground arith), (eq_iff id e.run_id).0 same))
  | inr other ↦ rw other (count_new id es n.1 (ground arith))
]

any_id :
    (id : String) (xs : List RunEntry)
    → any (λ e. str_eq id e.run.id) xs ≡ contains id (map entry_id xs)
unfolding contains
any_id id [] = refl
any_id id (x ∷ xs) = ground (arith, any_id id xs)

new_entry-IsEntry :
    (r : Run)
    → r.state ≡ received
    → r.worker_id ≡ none
    → r.lease_expires_at ≡ none
    → r.heartbeat_at ≡ none
    → stored_request r.request ≡ ok r.request
    → IsRun r
    → IsEntry (new_entry r)
new_entry-IsEntry r s w l b q h = record {
  request = q;
  run = h;
  worker = ground arith;
  lease = ground arith;
  heartbeat = ground arith;
  queue_time = ground arith;
}

-- The conditions under which the inserts succeed, as far as the queue needs them
record IsNew (r : RunCreateRecord) (t : Tables) : Type 0 where
  fresh_id : any (λ e. str_eq r.run.id e.run.id) t.database.runs ≡ false
  fresh_event :
      any
        (λ e. str_eq r.first_event.run_id e.run_id && e.index == r.first_event.index)
        t.database.events
      ≡ false

creation_pair :
    (a b : RunCreation) (t u : Tables)
    → (λ (x : Result CreationError (RunCreation × Tables)). x) (ok (a, t)) ≡ ok (b, u)
    → b ≡ a
creation_pair a b t u h = ground (arith, h)

insert_new-IsNew :
    (r : RunCreateRecord) (records : List IdempotencyRecord) (t t' : Tables) (c : RunCreation)
    → insert_new r records t ≡ ok (c, t')
    → IsNew r t × (created r records t ≡ t') × (c ≡ record { run = r.run; replayed = false })
unfolding insert_new
insert_new-IsNew r records t t' c h0 =
    let (_, _, h1) = >>=-eq-ok (raise_if (leb r.expires_at r.recorded_at) _) _ h0 in
    let (u, g, h2) =
      >>=-eq-ok (raise_if (any (λ e. str_eq r.run.id e.run.id) t.database.runs) _) _ h1 in
    let (_, _, h3) =
      >>=-eq-ok
        (raise_if
          (any (λ e. str_eq r.run.request.request_id e.run.request.request_id) t.database.runs) _)
        _ h2 in
    let (v, k, h4) =
      >>=-eq-ok
        (raise_if
          (any (λ e. str_eq r.first_event.run_id e.run_id && e.index == r.first_event.index)
            t.database.events)
          _)
        _ h3 in
    (
      record { fresh_id = raise_if-eq-ok _ _ u g; fresh_event = raise_if-eq-ok _ _ v k },
      (ok_pair _ _ _ _ h4).1,
      (creation_pair _ _ _ _ h4),
    )

replayed_run-tables :
    (t t' : Tables) (x : Result CreationError Run) (c : RunCreation)
    → replayed_run t x ≡ ok (c, t')
    → (t.database ≡ t'.database) × (c.replayed ≡ true)
replayed_run-tables t t' (ok r) c h = (
  ap (λ (u : Tables). u.database) (ok_pair _ _ _ _ h).1,
  ap (λ (d : RunCreation). d.replayed) (creation_pair _ _ _ _ h),
)
replayed_run-tables t t' (err e) c h = absurd (cc h)

create_or_replay-cases :
    (r : RunCreateRecord) (t t' : Tables) (c : RunCreation)
    → create_or_replay r t ≡ ok (c, t')
    → ((t.database ≡ t'.database) × (c.replayed ≡ true))
      ⊎ (IsNew r t
          × ((records : List IdempotencyRecord) × (created r records t ≡ t'))
          × (c ≡ record { run = r.run; replayed = false }))
unfolding create_or_replay find_or_insert
create_or_replay-cases r t t' c h0 =
    let (_, _, h1) =
      >>=-eq-ok
        (raise_if (not (str_eq r.first_event.run_id r.run.id) || not (r.first_event.index == 1)) _)
        _ h0 in
    let (_, _, h2) =
      >>=-eq-ok
        (raise_if
          (not (is_available r.run.request.principal.user_id r.run.request.principal.role t.users))
          _)
        _ h1 in
    let records = delete_expired r t.records in
    elim (Option-cases (find_record r records)) [
      | inl absent ↦
          let (new, tables, same) =
            insert_new-IsNew r records t t' c (rw (find_or_insert, absent) at h2) in
          inr (new, (records, tables), same)
      | inr (i, found) ↦ inl (
          replayed_run-tables (record t { records = records }) t' _ c
            (rw (find_or_insert, found) at h2))
    ]

created-IsQueue :
    (digest : SemanticRequest → String) (ttl : ℕ) (id : String) (at : ℕ) (q : RunRequest)
    (route : String) (t : Tables) (records : List IdempotencyRecord)
    → stored_request q ≡ ok q
    → IsRun (received_run id q)
    → IsNew (create_record digest ttl id at q route) t
    → IsQueue t.database
    → IsQueue (created (create_record digest ttl id at q route) records t).database
created-IsQueue digest ttl id at q route t records s h new queue = record {
  distinct = (sym (any_id id t.database.runs) ∙ new.fresh_id, queue.distinct);
  entries = λ e i. elim i [
    | inl same ↦ rw same (new_entry-IsEntry (received_run id q) refl refl refl refl s h)
    | inr old ↦ queue.entries e old
  ];
  numbered = (
    sym (ap suc (count_new id t.database.events queue.numbered new.fresh_event)),
    queue.numbered,
  );
}

-- What a call of `create_run` has done that returned: it has added the Run with its first event, and
-- written no other row of the queue's tables, or it has changed none of them.
pub record Joined (id : String) (q : RunRequest) (t : Tables) (c : RunCreation) (t' : Tables)
    : Type 0 where
  pub new : c.replayed ≡ false
  pub run : c.run ≡ received_run id q
  pub runs :
      t'.database.runs ≡ record { run = received_run id q; queued_at = none } ∷ t.database.runs
  pub steps : t'.database.steps ≡ t.database.steps
  pub events : t'.database.events ≡ received_event id q ∷ t.database.events

created-Joined :
    (digest : SemanticRequest → String) (ttl : ℕ) (id : String) (at : ℕ) (q : RunRequest)
    (route : String) (t : Tables) (records : List IdempotencyRecord)
    → Joined id q t
        (record { run = received_run id q; replayed = false })
        (created (create_record digest ttl id at q route) records t)
created-Joined digest ttl id at q route t records = record {
  new = refl;
  run = refl;
  runs = refl;
  steps = refl;
  events = refl;
}

-- A call of `create_run` that returns leaves the queue's tables well formed. It has either replayed
-- an earlier Run, and the tables of Runs, steps and events are as before; or it has added the new Run
-- in the state RECEIVED with its first event, and returns it. The route key and the id have the
-- checked forms, the request's time is aware and its parts are as their constructors make them.
pub create_run-IsQueue :
    (digest : SemanticRequest → String) (ttl : ℕ) (id : String) (at : ℕ) (q : RunRequest)
    (route : String) (t t' : Tables) (c : RunCreation)
    → route_key_ok route ≡ true
    → identifier_ok id ≡ true
    → IsAware q.created_at
    → stored_request q ≡ ok q
    → IsQueue t.database
    → create_run digest ttl id at q route t ≡ ok (c, t')
    → IsQueue t'.database
      × (((c.replayed ≡ true) × (t.database ≡ t'.database)) ⊎ Joined id q t c t')
create_run-IsQueue digest ttl id at q route t t' c r i a s queue h =
    elim (create_or_replay-cases (create_record digest ttl id at q route) t t' c
      (sym (create_run_store digest ttl id at q route t r i a) ∙ h)) [
        | inl (same, replayed) ↦ (subst IsQueue same queue, inl (replayed, same))
        | inr (new, (records, tables), creation) ↦ (
          subst (λ (u : Tables). IsQueue u.database) tables
              (created-IsQueue digest ttl id at q route t records s (received_run-IsRun id q i a)
                new queue),
          inr (
              subst (λ (u : Tables). Joined id q t c u) tables
                (subst
                  (λ d.
                    Joined id q t d (created (create_record digest ttl id at q route) records t))
                  (sym creation) (created-Joined digest ttl id at q route t records))),
        )
      ]
