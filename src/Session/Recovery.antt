-- ===== src/Session/Recovery.antt =====
-- A restart (`recoverSessions` of dev-agent/exec_worker.go) leaves no session queued or running.
use mathlib.Core.Path.{subst}
use provider_infrastructure.Prelude.{
  ◌≡◌, ◌≢◌, refl, sym, ◌∙◌, ◌⊎◌, inl, inr, true, false, Bool-cases, Option-cases, [], ◌∷◌, Option,
  none, some, arith,
}
use provider_infrastructure.Text.{Text, text_eq}
use provider_infrastructure.Text.Laws.{text_eq_iff, cut_suffix-append}
use provider_infrastructure.Session.{
  worker_terminal, SessionRecord, session, Content, Entry, Dir, lookup, record_name, session_file,
  json_suffix,
}
use provider_infrastructure.Session.Disk.{
  Result, ok, err, Env, decode, read_record, write_record, gc, recovery_scan,
}
use provider_infrastructure.Session.Disk.Laws.{
  read_record-write_record, write_record-done, name-session_file, record_name_injective,
}
use provider_infrastructure.Session.Disk.WellFormed.{IsWellFormed}
use provider_infrastructure.Session.Disk.Sweep.{gc-IsSwept}
use provider_infrastructure.Session.Coordinator.{Coordinator}
use provider_infrastructure.Session.Run.{
  interrupted_record, recover_at, recover_entry, recover_entries, recover_sessions, restart,
}
use provider_infrastructure.Session.Changes.{Changes-IsWellFormed}
use provider_infrastructure.Session.Changes.Runs.{recover_entry-Changes, recover_entries-Changes}

-- A record that is there is of a finished session.
abbrev pub IsClosed : Text → Dir → Type 0
IsClosed session_id dir =
    (r : SessionRecord)
    → read_record session_id dir ≡ ok (some r)
    → worker_terminal r.result.state ≡ true

-- Each record of the directory is of a finished session, or stands among the entries.
abbrev Covers : Dir → Dir → Type 0
Covers es dir =
    (session_id : Text) (r : SessionRecord)
    → read_record session_id dir ≡ ok (some r)
    → (worker_terminal r.result.state ≡ true)
      ⊎ (lookup (record_name session_id) es ≡ some (session r))

decode-some :
    (c : Option Content) (r : SessionRecord) → decode c ≡ ok (some r) → c ≡ some (session r)
decode-some c r h = ground arith

Covers-self : (dir : Dir) → Covers dir dir
unfolding read_record
Covers-self dir session_id r h = inr (decode-some (lookup (record_name session_id) dir) r h)

session_file-record_name :
    (e : Entry) (session_id : Text) (r : SessionRecord)
    → e.name ≡ record_name session_id
    → e.content ≡ session r
    → session_file e ≡ some session_id
unfolding session_file record_name
session_file-record_name e session_id r named holds =
    rw (holds, named) (cut_suffix-append session_id json_suffix)

interrupted-IsClosed :
    (env : Env) (session_id : Text) (s : SessionRecord) (dir : Dir)
    → s.session_id ≡ session_id
    → (write_record env (interrupted_record env s) dir).1 ≡ true
    → IsClosed session_id (write_record env (interrupted_record env s) dir).0
interrupted-IsClosed env session_id s dir named done r h = ground (
  arith,
  read_record-write_record env (interrupted_record env s) session_id dir,
  write_record-done env (interrupted_record env s) dir,
  text_eq_iff s.session_id session_id,
)

-- A round closes its session.
recover_at-IsClosed :
    (env : Env) (session_id : Text) (found : Result (Option SessionRecord)) (dir : Dir)
    → IsWellFormed dir
    → read_record session_id dir ≡ found
    → (recover_at env found dir).1 ≡ true
    → IsClosed session_id (recover_at env found dir).0
recover_at-IsClosed env session_id (err x) dir h e done r now = cc
recover_at-IsClosed env session_id (ok none) dir h e done r now = cc
recover_at-IsClosed env session_id (ok (some s)) dir h e done r now =
    elim (Bool-cases (worker_terminal s.result.state)) [
      | inl over ↦ ground arith
      | inr open_ ↦
          interrupted-IsClosed env session_id s dir (h.filed session_id s e) (rw open_ at done) r
            (rw open_ at now)
    ]

-- It leaves the record of every other session.
recover_at-other :
    (env : Env) (session_id other : Text) (found : Result (Option SessionRecord)) (dir : Dir)
    → IsWellFormed dir
    → read_record session_id dir ≡ found
    → other ≢ session_id
    → read_record other (recover_at env found dir).0 ≡ read_record other dir
recover_at-other env session_id other (err x) dir h e ne = refl
recover_at-other env session_id other (ok none) dir h e ne = refl
recover_at-other env session_id other (ok (some s)) dir h e ne = ground (
  arith,
  h.filed session_id s e,
  read_record-write_record env (interrupted_record env s) other dir,
  text_eq_iff s.session_id other,
)

Covers-cons :
    (e : Entry) (es dir : Dir) (session_id : Text) (r : SessionRecord)
    → e.name ≢ record_name session_id
    → lookup (record_name session_id) (e ∷ es) ≡ some (session r)
    → lookup (record_name session_id) es ≡ some (session r)
unfolding lookup
Covers-cons e es dir session_id r ne h = ground (arith, text_eq_iff e.name (record_name session_id))

-- After a round at a session's file the later entries cover the directory.
recover_at-Covers :
    (env : Env) (e : Entry) (es dir : Dir) (session_id : Text)
    → IsWellFormed dir
    → session_file e ≡ some session_id
    → (recover_at env (read_record session_id dir) dir).1 ≡ true
    → Covers (e ∷ es) dir
    → Covers es (recover_at env (read_record session_id dir) dir).0
recover_at-Covers env e es dir session_id h file done covers other r now =
    elim (Bool-cases (text_eq other session_id)) [
      | inl same ↦
          let one = (text_eq_iff other session_id).0 same in
          inl (
            recover_at-IsClosed env session_id (read_record session_id dir) dir h refl done r (
              subst
                (λ s.
                  read_record s (recover_at env (read_record session_id dir) dir).0 ≡ ok (some r))
                one now))
      | inr differs ↦
          let ne : other ≢ session_id = λ p. ground (arith, text_eq_iff other session_id) in
          let before =
            sym (recover_at-other env session_id other (read_record session_id dir) dir h refl ne)
            ∙ now in
          elim (covers other r before) [
            | inl over ↦ inl over
            | inr listed ↦ inr (
                Covers-cons e es dir other r
                  (λ p.
                    ne (record_name_injective other session_id (sym p ∙ name-session_file e file)))
                  listed)
          ]
    ]

head-content :
    (e : Entry) (es : Dir) (session_id : Text) (r : SessionRecord)
    → e.name ≡ record_name session_id
    → lookup (record_name session_id) (e ∷ es) ≡ some (session r)
    → e.content ≡ session r
unfolding lookup
head-content e es session_id r named h = ground (arith, text_eq_iff e.name (record_name session_id))

-- An entry that is no session's file may be left out.
other_entry-Covers :
    (e : Entry) (es dir : Dir) → session_file e ≡ none → Covers (e ∷ es) dir → Covers es dir
other_entry-Covers e es dir no_file covers other r now = elim (covers other r now) [
  | inl over ↦ inl over
  | inr listed ↦ inr (
      Covers-cons e es dir other r
        (λ p.
          cc (no_file, session_file-record_name e other r p (head-content e es other r p listed)))
        listed)
]

recover_entry-Covers :
    (env : Env) (e : Entry) (es dir : Dir)
    → IsWellFormed dir
    → (recover_entry env e dir).1 ≡ true
    → Covers (e ∷ es) dir
    → Covers es (recover_entry env e dir).0
unfolding recover_entry
recover_entry-Covers env e es dir h done covers = elim (Option-cases (session_file e)) [
  | inl no_file ↦ rw (no_file, recover_entry) (other_entry-Covers e es dir no_file covers)
  | inr (session_id, file) ↦
      rw (file, recover_entry)
        (recover_at-Covers env e es dir session_id h file (rw (file, recover_entry) at done) covers)
]

recover_entries-IsClosed :
    (env : Env) (es dir : Dir)
    → IsWellFormed dir
    → (recover_entries env es dir).1 ≡ true
    → Covers es dir
    → (session_id : Text) → IsClosed session_id (recover_entries env es dir).0
unfolding recover_entries lookup
recover_entries-IsClosed env [] dir h done covers session_id =
    λ r now. elim (covers session_id r now) [ inl over ↦ over | inr listed ↦ cc listed ]
recover_entries-IsClosed env (e ∷ es) dir h done covers session_id =
    elim (Bool-cases (recover_entry env e dir).1) [
      | inl ok_ ↦ rw ok_ (
          recover_entries-IsClosed env es (recover_entry env e dir).0
            (Changes-IsWellFormed (recover_entry-Changes env e dir h) h) (rw ok_ at done)
            (recover_entry-Covers env e es dir h ok_ covers) session_id)
      | inr failed ↦ cc (rw failed at done)
    ]

gc-IsClosed :
    (env : Env) (session_id : Text) (dir : Dir)
    → IsWellFormed dir
    → IsClosed session_id dir
    → IsClosed session_id (gc env dir).0
gc-IsClosed env session_id dir h closed r now = elim (gc-IsSwept env session_id dir h) [
  | inl same ↦ closed r (sym same ∙ now)
  | inr swept ↦ cc (swept.0, now)
]

recover_sessions-IsClosed :
    (env : Env) (dir : Dir) (session_id : Text)
    → IsWellFormed dir
    → (recover_sessions env dir).1 ≡ true
    → IsClosed session_id (recover_sessions env dir).0
unfolding recover_sessions
recover_sessions-IsClosed env dir session_id h done =
    elim (Bool-cases (env.listing_fails recovery_scan)) [
      | inl failed ↦ cc (rw failed at done)
      | inr listed ↦ elim (Bool-cases (recover_entries env dir dir).1) [
        | inr failed ↦ cc (rw (listed, failed) at done)
        | inl recovered ↦ rw listed (
            rw recovered (
              gc-IsClosed env session_id (recover_entries env dir dir).0
                (Changes-IsWellFormed (recover_entries-Changes env dir dir h) h)
                (recover_entries-IsClosed env dir dir h recovered (Covers-self dir) session_id)))
      ]
    ]

-- When a restarted coordinator comes up from a well-formed directory, every record that it can read
-- is of a finished session, it has no goroutine, and it has handed no further command over.
pub restart-finished :
    (env : Env) (w : Coordinator) (session_id : Text) (r : SessionRecord)
    → IsWellFormed w.dir
    → (restart env w).exited ≡ false
    → read_record session_id (restart env w).dir ≡ ok (some r)
    → (worker_terminal r.result.state ≡ true)
      × ((restart env w).threads ≡ [])
      × ((restart env w).dispatched ≡ w.dispatched)
unfolding restart
restart-finished env w session_id r h up stored =
    (recover_sessions-IsClosed env w.dir session_id h (ground arith) r stored, refl, refl)
