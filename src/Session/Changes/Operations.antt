-- ===== src/Session/Changes/Operations.antt =====
-- The changes that each operation of the coordinator makes to the record directory.
use mathlib.Core.Path.{subst}
use provider_infrastructure.Prelude.{◌≡◌, refl, sym, ap, false, none, some, arith}
use provider_infrastructure.Text.{Text}
use provider_infrastructure.Session.{
  worker_terminal, ExecResult, SessionRecord, Action, start, poll, cancel, unknown, WorkerRequest,
  Dir,
}
use provider_infrastructure.Session.Disk.{Result, ok, Env, read_record, write_record, gc}
use provider_infrastructure.Session.Disk.WellFormed.{IsFiled, IsWellFormed}
use provider_infrastructure.Session.Coordinator.{Coordinator, ◌>>◌, give, persist}
use provider_infrastructure.Session.Requests.{
  queued_record, start_session, cancel_session, call_cancel, canceled_record, launch, HttpRequest,
  perform, serve,
}
use provider_infrastructure.Session.Start.{
  invalid, refused, replayed, launched, as_swept, as_written, start_session-outcome,
}
use provider_infrastructure.Session.Owner.{
  denied, finished, canceled, poll_session-unchanged, cancel_session-outcome,
}
use provider_infrastructure.Session.Gate.{rejected, performed, serve-outcome}
use provider_infrastructure.Session.Changes.{
  IsOpen, Change, wrote, swept, Changes, unchanged, after,
}

-- A session whose record was read and is not finished is open.
pub read-IsOpen :
    (dir : Dir) (session_id : Text) (r : SessionRecord)
    → IsFiled dir
    → read_record session_id dir ≡ ok (some r)
    → worker_terminal r.result.state ≡ false
    → IsOpen r.session_id dir
read-IsOpen dir session_id r filed stored open_ s e =
    let same = filed session_id r stored in
    let one : s ≡ r = cc (ap (λ t. read_record t dir) same, e, stored) in rw one open_

missing-IsOpen :
    (dir : Dir) (session_id : Text) → read_record session_id dir ≡ ok none → IsOpen session_id dir
missing-IsOpen dir session_id missing s e = cc

pub once : {env : Env} {dir dir' : Dir} → Change env dir dir' → Changes env dir dir'
once c = after unchanged c

at_end :
    {env : Env} {dir : Dir} {out out' : Result ExecResult × Coordinator}
    → out ≡ out'
    → Changes env dir out'.1.dir
    → Changes env dir out.1.dir
at_end {env} {dir} e c =
    subst (λ (o : Result ExecResult × Coordinator). Changes env dir o.1.dir) (sym e) c

write_queued :
    (env : Env) (req : WorkerRequest) (dir dir' : Dir)
    → read_record req.session_id dir ≡ ok none
    → dir' ≡ (write_record env (queued_record env req) dir).0
    → Change env dir dir'
write_queued env req dir dir' missing e =
    wrote (queued_record env req) (missing-IsOpen dir req.session_id missing) e

start_session-Changes :
    (env : Env) (req : WorkerRequest) (w : Coordinator)
    → Changes env w.dir (start_session env req w).1.dir
unfolding launch
start_session-Changes env req w = elim (start_session-outcome env req w) [
  | invalid p ↦ at_end p unchanged
  | refused e dir (as_swept same) p ↦ at_end p (once (swept same))
  | refused e dir (as_written missing same) p ↦
      at_end p (after (once (swept refl)) (write_queued env req (gc env w.dir).0 dir missing same))
  | replayed session_id r stored a p ↦ at_end p (once (swept refl))
  | launched dir new_request new_session room e stored p ↦
      at_end p (after (once (swept refl)) (write_queued env req (gc env w.dir).0 dir new_session e))
]

dir-cancel :
    (env : Env) (req : WorkerRequest) (r : SessionRecord) (w : Coordinator)
    → (◌>>◌ (call_cancel req.session_id) (persist env r >> give r.result) w).1.dir
      ≡ (write_record env r w.dir).0
unfolding call_cancel persist
dir-cancel env req r w = ground arith

cancel_session-Changes :
    (env : Env) (req : WorkerRequest) (w : Coordinator)
    → IsWellFormed w.dir
    → Changes env w.dir (cancel_session env req w).1.dir
cancel_session-Changes env req w h = elim (cancel_session-outcome env req w) [
  | denied e p ↦ at_end p unchanged
  | finished r stored owns done p ↦ at_end p unchanged
  | canceled r stored owns open_ p ↦ at_end p (
      once (
        wrote (canceled_record env r) (read-IsOpen w.dir req.session_id r h.filed stored open_)
          (dir-cancel env req (canceled_record env r) w)))
]

perform-Changes :
    (env : Env) (action : Action) (req : WorkerRequest) (w : Coordinator)
    → IsWellFormed w.dir
    → Changes env w.dir (perform env action req w).1.dir
unfolding perform
perform-Changes env start req w h = start_session-Changes env req w
perform-Changes env poll req w h =
    subst (λ (v : Coordinator). Changes env w.dir v.dir) (sym (poll_session-unchanged req w))
      unchanged
perform-Changes env cancel req w h = cancel_session-Changes env req w h
perform-Changes env (unknown _) req w h = unchanged

-- A request changes the directory by sweeps and by writes over sessions that are not finished.
pub serve-Changes :
    (token : Text) (env : Env) (r : HttpRequest) (w : Coordinator)
    → IsWellFormed w.dir
    → Changes env w.dir (serve token env r w).1.dir
serve-Changes token env r w h = elim (serve-outcome token env r w) [
  | rejected status p ↦ at_end p unchanged
  | performed req admitted p ↦ at_end p (perform-Changes env req.action req w h)
]
