-- ===== src/Session/Changes/Runs.antt =====
-- The changes that a goroutine of `run` and a restart make to the record directory.
use mathlib.Core.Path.{subst}
use provider_infrastructure.Prelude.{
  ◌≡◌, refl, sym, inl, inr, Bool, true, false, Bool-cases, Option-cases, [], ◌∷◌, Option, none,
  some,
}
use provider_infrastructure.Text.{Text}
use provider_infrastructure.Command.{ExecResponse}
use provider_infrastructure.Session.{
  worker_terminal, ExecResult, SessionRecord, Entry, Dir, session_file,
}
use provider_infrastructure.Session.Disk.{
  Result, ok, err, Env, read_record, write_record, recovery_scan,
}
use provider_infrastructure.Session.Disk.WellFormed.{IsWellFormed}
use provider_infrastructure.Session.Coordinator.{Coordinator, Thread}
use provider_infrastructure.Session.Run.{
  RunError, clear_active, leave, dispatch, stored, Marked, marked, settled, broken, mark_at,
  begin_at, finish_at, finish, finished_record, running_record, interrupted_record, canceled_result,
  context_canceled, worker_result_from_exec, set_running, begin_run, end_run, recover_entry,
  recover_at, recover_entries, recover_sessions, restart,
}
use provider_infrastructure.Session.Changes.{
  wrote, swept, Changes, unchanged, after, Changes-IsWellFormed,
}
use provider_infrastructure.Session.Changes.Operations.{read-IsOpen, once}

dir-stored : (p : Dir × Bool) (w : Coordinator) → (stored p w).dir ≡ p.0
dir-stored (dir, true) w = refl
dir-stored (dir, false) w = refl

finish_at-Changes :
    (env : Env) (session_id : Text) (result : ExecResult) (error : Option RunError)
    (found : Result (Option SessionRecord)) (w : Coordinator)
    → IsWellFormed w.dir
    → read_record session_id w.dir ≡ found
    → Changes env w.dir (finish_at env session_id result error found w).dir
unfolding clear_active
finish_at-Changes env session_id result error (err x) w h e = unchanged
finish_at-Changes env session_id result error (ok none) w h e = unchanged
finish_at-Changes env session_id result error (ok (some r)) w h e =
    elim (Bool-cases (worker_terminal r.result.state)) [
      | inl done ↦ rw done unchanged
      | inr open_ ↦ once (
          wrote (finished_record env result error r)
            (read-IsOpen w.dir session_id r h.filed e open_)
            (rw open_ (
              dir-stored (write_record env (finished_record env result error r) w.dir)
                (clear_active session_id w))))
    ]

finish-Changes :
    (env : Env) (session_id : Text) (result : ExecResult) (error : Option RunError)
    (w : Coordinator)
    → IsWellFormed w.dir
    → Changes env w.dir (finish env session_id result error w).dir
unfolding finish
finish-Changes env session_id result error w h =
    finish_at-Changes env session_id result error (read_record session_id w.dir) w h refl

mark_at-Changes :
    (env : Env) (session_id : Text) (found : Result (Option SessionRecord)) (dir : Dir)
    → IsWellFormed dir
    → read_record session_id dir ≡ found
    → Changes env dir (mark_at env found dir).0
mark_at-Changes env session_id (err x) dir h e = unchanged
mark_at-Changes env session_id (ok none) dir h e = unchanged
mark_at-Changes env session_id (ok (some r)) dir h e =
    elim (Bool-cases (worker_terminal r.result.state)) [
      | inl done ↦ rw done unchanged
      | inr open_ ↦
          once
            (wrote (running_record env r) (read-IsOpen dir session_id r h.filed e open_) (rw open_))
    ]

dir-begin_at : (t : Thread) (p : Dir × Marked) (w : Coordinator) → (begin_at t p w).dir ≡ p.0
unfolding clear_active leave dispatch
dir-begin_at t (dir, marked) w = refl
dir-begin_at t (dir, settled) w = refl
dir-begin_at t (dir, broken) w = refl

-- The start of a goroutine changes the directory by a write over a session that is not finished.
pub begin_run-Changes :
    (env : Env) (t : Thread) (w : Coordinator)
    → IsWellFormed w.dir
    → Changes env w.dir (begin_run env t w).dir
unfolding begin_run
begin_run-Changes env t w h = elim (Bool-cases t.canceled) [
  | inl gone ↦
      simp gone
        (finish-Changes env t.request.session_id canceled_result (some context_canceled) w h)
  | inr live ↦ simp live (
      subst (Changes env w.dir)
        (sym (dir-begin_at t (set_running env t.request.session_id w.dir) w))
        (mark_at-Changes env t.request.session_id (read_record t.request.session_id w.dir) w.dir h
          refl))
]

-- So does its end.
pub end_run-Changes :
    (env : Env) (t : Thread) (response : ExecResponse) (error : Option RunError) (w : Coordinator)
    → IsWellFormed w.dir
    → Changes env w.dir (end_run env t response error w).dir
unfolding end_run
end_run-Changes env t response error w h =
    finish-Changes env t.request.session_id (worker_result_from_exec response error) error w h

recover_at-Changes :
    (env : Env) (session_id : Text) (found : Result (Option SessionRecord)) (dir : Dir)
    → IsWellFormed dir
    → read_record session_id dir ≡ found
    → Changes env dir (recover_at env found dir).0
recover_at-Changes env session_id (err x) dir h e = unchanged
recover_at-Changes env session_id (ok none) dir h e = unchanged
recover_at-Changes env session_id (ok (some r)) dir h e =
    elim (Bool-cases (worker_terminal r.result.state)) [
      | inl done ↦ rw done unchanged
      | inr open_ ↦ once (
          wrote (interrupted_record env r) (read-IsOpen dir session_id r h.filed e open_)
            (rw open_))
    ]

pub recover_entry-Changes :
    (env : Env) (e : Entry) (dir : Dir)
    → IsWellFormed dir
    → Changes env dir (recover_entry env e dir).0
unfolding recover_entry
recover_entry-Changes env e dir h = elim (Option-cases (session_file e)) [
  | inl other ↦ rw (other, recover_entry) unchanged
  | inr (session_id, file) ↦
      rw (file, recover_entry)
        (recover_at-Changes env session_id (read_record session_id dir) dir h refl)
]

-- Changes in a row.
append :
    {env : Env} {dir mid dir' : Dir}
    → Changes env dir mid
    → Changes env mid dir'
    → Changes env dir dir'
append cs unchanged = cs
append cs (after ds c) = after (append cs ds) c

pub recover_entries-Changes :
    (env : Env) (es dir : Dir) → IsWellFormed dir → Changes env dir (recover_entries env es dir).0
unfolding recover_entries
recover_entries-Changes env [] dir h = unchanged
recover_entries-Changes env (e ∷ es) dir h =
    let first = recover_entry-Changes env e dir h in
    elim (Bool-cases (recover_entry env e dir).1) [
      | inl done ↦ rw done (
          append first (
            recover_entries-Changes env es (recover_entry env e dir).0
              (Changes-IsWellFormed first h)))
      | inr failed ↦ rw failed first
    ]

recover_sessions-Changes :
    (env : Env) (dir : Dir) → IsWellFormed dir → Changes env dir (recover_sessions env dir).0
unfolding recover_sessions
recover_sessions-Changes env dir h =
    let entries = recover_entries-Changes env dir dir h in
    elim (Bool-cases (env.listing_fails recovery_scan)) [
      | inl failed ↦ rw failed unchanged
      | inr listed ↦ elim (Bool-cases (recover_entries env dir dir).1) [
        | inl done ↦ rw listed (rw done (after entries (swept refl)))
        | inr failed ↦ rw listed (rw failed entries)
      ]
    ]

-- A restart changes the directory by a sweep, and by writes over sessions that are not finished.
pub restart-Changes :
    (env : Env) (w : Coordinator) → IsWellFormed w.dir → Changes env w.dir (restart env w).dir
unfolding restart
restart-Changes env w h = recover_sessions-Changes env w.dir h
