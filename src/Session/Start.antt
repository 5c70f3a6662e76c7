-- ===== src/Session/Start.antt =====
-- What `start` does (dev-agent/exec_worker.go): it refuses, replays a record, or launches a command.
use mathlib.Core.Path.{subst}
use provider_infrastructure.Prelude.{
  ◌<◌, ◌≡◌, refl, ◌∙◌, inl, inr, true, Bool-cases, Option-cases, [], ◌∷◌, Option, none, some, leb,
  arith,
}
use provider_infrastructure.Text.{Text, text_eq}
use provider_infrastructure.Text.Laws.{text_eq_iff, text_eq_refl}
use provider_infrastructure.Command.{validate_request}
use provider_infrastructure.Session.{ExecResult, SessionRecord, WorkerRequest, Dir, session_file}
use provider_infrastructure.Session.Disk.{
  Error, http, internal, Result, ok, err, Env, read_record, write_record, count_files, count_scan,
  find_by_request, first_match, is_request, capacity, gc, ◌>>=◌,
}
use provider_infrastructure.Session.Disk.Laws.{
  Result-cases, read_record-write_record, write_record-done,
}
use provider_infrastructure.Session.Coordinator.{Coordinator}
use provider_infrastructure.Session.Requests.{
  queued_record, launch, admit, find, same_session, same_request, by_session, by_request, is_valid,
  start_session,
}

-- A record that answers a request: it is of the same caller, request and command.
pub record Answers (req : WorkerRequest) (r : SessionRecord) : Type 0 where
  pub caller_key : r.caller_key ≡ req.caller_key
  pub request_id : r.request_id ≡ req.request_id
  pub fingerprint : r.fingerprint ≡ req.fingerprint

-- The directory that a refusal leaves: the swept one, or one to which the record of a new session
-- was written by a write that failed late.
pub data Leftover (env : Env) (req : WorkerRequest) (swept dir : Dir) : Type 0 where
  as_swept : dir ≡ swept → Leftover env req swept dir
  as_written :
      read_record req.session_id swept ≡ ok none
      → dir ≡ (write_record env (queued_record env req) swept).0
      → Leftover env req swept dir

-- The ends of `start` over the coordinator `w`, where `swept` is the directory after the
-- sweep of old records.
pub data StartOutcome (env : Env) (req : WorkerRequest) (swept : Dir) (w : Coordinator)
    (out : Result ExecResult × Coordinator) : Type 0 where
  -- The command is not valid: nothing happens.
  invalid : out ≡ (err (http 400), w) → StartOutcome env req swept w out
  -- Another error: nothing is launched.
  refused :
      (e : Error) (dir : Dir)
      → Leftover env req swept dir
      → out ≡ (err e, record w { dir = dir })
      → StartOutcome env req swept w out
  -- A record on disk answers the request: nothing is launched.
  replayed :
      (session_id : Text) (r : SessionRecord)
      → read_record session_id swept ≡ ok (some r)
      → Answers req r
      → out ≡ (ok r.result, record w { dir = swept })
      → StartOutcome env req swept w out
  -- The session is new, there is room for it, and its record is on disk when its goroutine starts.
  launched :
      (dir : Dir)
      → find env req swept ≡ ok none
      → read_record req.session_id swept ≡ ok none
      → count_files swept < capacity
      → dir ≡ (write_record env (queued_record env req) swept).0
      → read_record req.session_id dir ≡ ok (some (queued_record env req))
      → out ≡ (ok (queued_record env req).result, (launch req (record w { dir = dir })).1)
      → StartOutcome env req swept w out

read_record-written :
    (env : Env) (req : WorkerRequest) (dir : Dir)
    → (write_record env (queued_record env req) dir).1 ≡ true
    → read_record req.session_id (write_record env (queued_record env req) dir).0
      ≡ ok (some (queued_record env req))
read_record-written env req dir done = ground (
  arith,
  read_record-write_record env (queued_record env req) req.session_id dir,
  write_record-done env (queued_record env req) dir,
  text_eq_refl req.session_id,
)

admit-outcome :
    (env : Env) (req : WorkerRequest) (w : Coordinator)
    → find env req w.dir ≡ ok none
    → read_record req.session_id w.dir ≡ ok none
    → StartOutcome env req w.dir w (admit env req w)
unfolding admit
admit-outcome env req w new_request new_session = elim (Bool-cases (env.listing_fails count_scan)) [
  | inl failed ↦ refused internal w.dir (as_swept refl) (rw failed)
  | inr listed ↦ elim (Bool-cases (leb capacity (count_files w.dir))) [
    | inl full ↦ refused (http 503) w.dir (as_swept refl) (rw listed (rw full))
    | inr room ↦ elim (Bool-cases (write_record env (queued_record env req) w.dir).1) [
      | inl done ↦
          launched (write_record env (queued_record env req) w.dir).0 new_request new_session
            (ground arith) refl (read_record-written env req w.dir done) (ground arith)
      | inr failed ↦
          refused internal (write_record env (queued_record env req) w.dir).0
            (as_written new_session refl) (ground arith)
    ]
  ]
]

find_by_request-matches :
    (caller_key request_id : Text) (dir es : Dir) (r : SessionRecord)
    → find_by_request caller_key request_id dir es ≡ ok (some r)
    → (r.caller_key ≡ caller_key) × (r.request_id ≡ request_id)
unfolding find_by_request
find_by_request-matches caller_key request_id dir [] r h = cc
find_by_request-matches caller_key request_id dir (e ∷ es) r h = ground (
  arith,
  find_by_request-matches caller_key request_id dir es r,
  text_eq_iff r.caller_key caller_key,
  text_eq_iff r.request_id request_id,
)

abbrev IsStored : Dir → SessionRecord → Type 0
IsStored dir r = (session_id : Text) × (read_record session_id dir ≡ ok (some r))

first_match-IsStored :
    (caller_key request_id session_id : Text) (dir : Dir) (read : Result (Option SessionRecord))
    (rest : Result (Option SessionRecord)) (r : SessionRecord)
    → read_record session_id dir ≡ read
    → (rest ≡ ok (some r) → IsStored dir r)
    → (read >>= λ found. first_match caller_key request_id found rest) ≡ ok (some r)
    → IsStored dir r
first_match-IsStored caller_key request_id session_id dir (err x) rest r e later h = cc
first_match-IsStored caller_key request_id session_id dir (ok none) rest r e later h = later h
first_match-IsStored caller_key request_id session_id dir (ok (some s)) rest r e later h =
    elim (Bool-cases (is_request caller_key request_id s)) [
      | inl same ↦ (session_id, e ∙ (rw same at h))
      | inr other ↦ later (rw other at h)
    ]

-- A record that a scan finds is on disk.
find_by_request-IsStored :
    (caller_key request_id : Text) (dir es : Dir) (r : SessionRecord)
    → find_by_request caller_key request_id dir es ≡ ok (some r)
    → IsStored dir r
unfolding find_by_request
find_by_request-IsStored caller_key request_id dir [] r h = cc
find_by_request-IsStored caller_key request_id dir (e ∷ es) r h =
    elim (Option-cases (session_file e)) [
      | inl other ↦
          find_by_request-IsStored caller_key request_id dir es r (rw (other, find_by_request) at h)
      | inr (session_id, file) ↦
          first_match-IsStored caller_key request_id session_id dir (read_record session_id dir)
            (find_by_request caller_key request_id dir es) r refl
            (find_by_request-IsStored caller_key request_id dir es r)
            (rw (file, find_by_request) at h)
    ]

same_request-outcome :
    (env : Env) (req : WorkerRequest) (session_id : Text) (r : SessionRecord) (w : Coordinator)
    (dir : Dir)
    → read_record session_id dir ≡ ok (some r)
    → r.caller_key ≡ req.caller_key
    → r.request_id ≡ req.request_id
    → StartOutcome env req dir w (same_request req r (record w { dir = dir }))
same_request-outcome env req session_id r w dir stored caller request =
    elim (Bool-cases (text_eq r.fingerprint req.fingerprint)) [
      | inl same ↦
          replayed session_id r stored
            (record {
              caller_key = caller;
              request_id = request;
              fingerprint = (text_eq_iff r.fingerprint req.fingerprint).0 same;
            })
            (rw same)
      | inr other ↦ refused (http 409) dir (as_swept refl) (rw other)
    ]

same_session-outcome :
    (env : Env) (req : WorkerRequest) (r : SessionRecord) (w : Coordinator) (dir : Dir)
    → read_record req.session_id dir ≡ ok (some r)
    → StartOutcome env req dir w (same_session req r (record w { dir = dir }))
same_session-outcome env req r w dir stored =
    elim (Bool-cases (text_eq r.caller_key req.caller_key)) [
      | inr other ↦ refused (http 403) dir (as_swept refl) (rw other)
      | inl caller ↦ elim (Bool-cases (text_eq r.request_id req.request_id)) [
        | inr other ↦ refused (http 409) dir (as_swept refl) (ground arith)
        | inl request ↦ elim (Bool-cases (text_eq r.fingerprint req.fingerprint)) [
          | inr other ↦ refused (http 409) dir (as_swept refl) (ground arith)
          | inl same ↦
              replayed req.session_id r stored
                (record {
                  caller_key = (text_eq_iff r.caller_key req.caller_key).0 caller;
                  request_id = (text_eq_iff r.request_id req.request_id).0 request;
                  fingerprint = (text_eq_iff r.fingerprint req.fingerprint).0 same;
                })
                (ground arith)
        ]
      ]
    ]

find-matches :
    (env : Env) (req : WorkerRequest) (dir : Dir) (r : SessionRecord)
    → find env req dir ≡ ok (some r)
    → (r.caller_key ≡ req.caller_key) × (r.request_id ≡ req.request_id)
find-matches env req dir r h =
    ground (arith, find_by_request-matches req.caller_key req.request_id dir dir r)

find-IsStored :
    (env : Env) (req : WorkerRequest) (dir : Dir) (r : SessionRecord)
    → find env req dir ≡ ok (some r)
    → IsStored dir r
find-IsStored env req dir r h =
    find_by_request-IsStored req.caller_key req.request_id dir dir r (ground arith)

by_session-outcome :
    (env : Env) (req : WorkerRequest) (w : Coordinator) (dir : Dir) (found : Option SessionRecord)
    → find env req dir ≡ ok none
    → read_record req.session_id dir ≡ ok found
    → StartOutcome env req dir w (by_session env req found (record w { dir = dir }))
by_session-outcome env req w dir none new e =
    transfer (admit-outcome env req (record w { dir = dir }) new e)
  where
    transfer :
        {out : Result ExecResult × Coordinator}
        → StartOutcome env req dir (record w { dir = dir }) out
        → StartOutcome env req dir w out
    transfer (invalid p) = refused (http 400) dir (as_swept refl) p
    transfer (refused e dir l p) = refused e dir l p
    transfer (replayed session_id r h a p) = replayed session_id r h a p
    transfer (launched d a b c f g p) = launched d a b c f g p
by_session-outcome env req w dir (some r) new e = same_session-outcome env req r w dir e

by_request-outcome :
    (env : Env) (req : WorkerRequest) (w : Coordinator) (dir : Dir) (found : Option SessionRecord)
    → find env req dir ≡ ok found
    → StartOutcome env req dir w (by_request env req found (record w { dir = dir }))
by_request-outcome env req w dir (some r) h =
    let (caller, request) = find-matches env req dir r h in
    let (session_id, stored) = find-IsStored env req dir r h in
    same_request-outcome env req session_id r w dir stored caller request
by_request-outcome env req w dir none h = elim (Result-cases (read_record req.session_id dir)) [
  | inl (found, e) ↦
      subst (StartOutcome env req dir w) (ground arith) (by_session-outcome env req w dir found h e)
  | inr (x, e) ↦ refused x dir (as_swept refl) (ground arith)
]

-- A start refuses without launching anything, replays a record of the same caller, request and
-- fingerprint, or launches a session that the directory does not know, below the capacity and with
-- its queued record on disk.
pub start_session-outcome :
    (env : Env) (req : WorkerRequest) (w : Coordinator)
    → StartOutcome env req (gc env w.dir).0 w (start_session env req w)
unfolding start_session
start_session-outcome env req w = elim (Bool-cases (is_valid (validate_request req.exec))) [
  | inr bad ↦ invalid (rw bad)
  | inl valid ↦ elim (Bool-cases (gc env w.dir).1) [
    | inr failed ↦ refused internal (gc env w.dir).0 (as_swept refl) (ground arith)
    | inl swept ↦ elim (Result-cases (find env req (gc env w.dir).0)) [
      | inr (x, e) ↦ refused x (gc env w.dir).0 (as_swept refl) (ground arith)
      | inl (found, e) ↦
          subst (StartOutcome env req (gc env w.dir).0 w) (ground arith)
            (by_request-outcome env req w (gc env w.dir).0 found e)
    ]
  ]
]
