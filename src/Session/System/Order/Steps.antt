-- ===== src/Session/System/Order/Steps.antt =====
-- Each step keeps the goroutines orderly, so every run does.
use mathlib.Core.Path.{subst}
use provider_infrastructure.Prelude.{
  ℕ, ◌<◌, ◌≤◌, ◌≡◌, ◌≢◌, refl, sym, ap, Bool, true, false, Bool-cases, ◌⊎◌, inl, inr, List, [], ◌∷◌,
  Option, none, some, All, All-map, ◌==◌, arith,
}
use provider_infrastructure.Text.{Text}
use provider_infrastructure.Command.{ExecResponse}
use provider_infrastructure.Session.{
  ExecResult, SessionRecord, Action, start, poll, cancel, unknown, WorkerRequest, Dir,
}
use provider_infrastructure.Session.Disk.{Result, Env}
use provider_infrastructure.Session.Coordinator.{
  Coordinator, Thread, waiting, executing, Lock, free, held_by, held_by_sync, persist, ◌>>◌, give,
}
use provider_infrastructure.Session.Requests.{
  cancel_context, canceled_record, active_thread, call_cancel, launch, start_session, perform,
  HttpRequest, serve,
}
use provider_infrastructure.Session.Run.{
  without, start_executing, RunError, finish, clear_active, stored, leave, dispatch, Marked, marked,
  settled, broken, begin_at, begin_run, end_run, restart, set_running, canceled_result,
  context_canceled, worker_result_from_exec,
}
use provider_infrastructure.Session.Start.{
  invalid, refused, replayed, launched, start_session-outcome,
}
use provider_infrastructure.Session.Owner.{
  denied, finished, canceled, poll_session-unchanged, cancel_session-outcome,
}
use provider_infrastructure.Session.Gate.{rejected, performed, serve-outcome}
use provider_infrastructure.Session.System.{
  IsThread, Step, request, begin, end, sync_begin, sync_end, restarted, Reach, here, next,
  IsInitial,
}
use provider_infrastructure.Session.System.Order.{
  IsDistinct, IsFresh, Holds, IsOrderly, AreOrderly, executing_count, executing_count-le-one,
  idle_count, thread-All,
}
use provider_infrastructure.Session.System.Order.Control.{
  ids, launch-IsOrderly, cancel-IsOrderly, AreIdle, idle_of_free, leave-IsOrderly, without-AreIdle,
  holder_left,
}

executing-All {κ} :
    (P Q : Thread → Type κ) (id : ℕ)
    → ((t : Thread) → P t → t.id ≡ id → Q (record t { stage = executing }))
    → ((t : Thread) → P t → t.id ≢ id → Q t)
    → (ts : List Thread) → All P ts
    → All Q (start_executing id ts)
unfolding start_executing
executing-All P Q id f g [] h = tt
executing-All P Q id f g (t ∷ ts) (p, h) = elim (Bool-cases (t.id == id)) [
  | inl same ↦ simp same (f t p (ground arith), executing-All P Q id f g ts h)
  | inr other ↦ simp other (g t p (λ e. ground arith), executing-All P Q id f g ts h)
]

ids-start_executing : (id : ℕ) (ts : List Thread) → ids (start_executing id ts) ≡ ids ts
unfolding start_executing
ids-start_executing id [] = refl
ids-start_executing id (t ∷ ts) = ground (arith, ids-start_executing id ts)

-- A waiting goroutine takes the free lock and hands its command over.
dispatch-IsOrderly :
    (t : Thread) (ts : List Thread) (n : ℕ) (log : List ℕ)
    → IsThread t ts
    → t.stage ≡ waiting
    → IsOrderly ts free n log
    → IsOrderly (start_executing t.id ts) (held_by t.id) n (t.id ∷ log)
dispatch-IsOrderly t ts n log m wait h = record {
  bounded =
      executing-All (λ u. u.id < n) (λ u. u.id < n) t.id (λ u p e. p) (λ u p e. p) ts h.bounded;
  logged = (thread-All (λ u. u.id < n) m h.bounded, h.logged);
  fresh =
      executing-All (IsFresh log) (IsFresh (t.id ∷ log)) t.id (λ u f e w. cc w)
        (λ u f ne w. ((λ e. ne (sym e)), f w)) ts h.fresh;
  once = (thread-All (IsFresh log) m h.fresh wait, h.once);
  distinct = subst IsDistinct (sym (ids-start_executing t.id ts)) h.distinct;
  holder =
      executing-All (Holds free) (Holds (held_by t.id)) t.id (λ u k e _. ap held_by (sym e))
        (λ u k ne e. cc (k e)) ts h.holder;
}

-- The goroutines, the lock, the next number and the log are those of another state.
record SameControl (v w : Coordinator) : Type 0 where
  threads : v.threads ≡ w.threads
  lock : v.lock ≡ w.lock
  next_id : v.next_id ≡ w.next_id
  dispatched : v.dispatched ≡ w.dispatched

same-AreOrderly : {v w : Coordinator} → SameControl v w → AreOrderly w → AreOrderly v
same-AreOrderly {v} {w} s h = rw (s.threads, s.lock, s.next_id, s.dispatched) h

stored-SameControl : (p : Dir × Bool) (w : Coordinator) → SameControl (stored p w) w
stored-SameControl (dir, true) w = record {
  threads = refl;
  lock = refl;
  next_id = refl;
  dispatched = refl;
}
stored-SameControl (dir, false) w = record {
  threads = refl;
  lock = refl;
  next_id = refl;
  dispatched = refl;
}

finish-SameControl :
    (env : Env) (session_id : Text) (result : ExecResult) (error : Option RunError)
    (w : Coordinator)
    → SameControl (finish env session_id result error w) w
unfolding finish
finish-SameControl env session_id result error w = record {
  threads = ground arith;
  lock = ground arith;
  next_id = ground arith;
  dispatched = ground arith;
}

begin_at-AreOrderly :
    (t : Thread) (p : Dir × Marked) (w : Coordinator)
    → IsThread t w.threads
    → t.stage ≡ waiting
    → IsOrderly w.threads free w.next_id w.dispatched
    → w.lock ≡ free
    → AreOrderly (begin_at t p w)
unfolding clear_active leave dispatch
begin_at-AreOrderly t (dir, marked) w m wait h e =
    dispatch-IsOrderly t w.threads w.next_id w.dispatched m wait h
begin_at-AreOrderly t (dir, settled) w m wait h e =
    leave-IsOrderly t.id w.threads free w.next_id w.dispatched h
      (without-AreIdle t.id w.threads (idle_of_free w.threads h.holder))
begin_at-AreOrderly t (dir, broken) w m wait h e = rw e h

-- A goroutine records its outcome and leaves, and no other executes.
leave_finished :
    (env : Env) (id : ℕ) (session_id : Text) (result : ExecResult) (error : Option RunError)
    (w : Coordinator)
    → AreOrderly w
    → AreIdle (without id w.threads)
    → AreOrderly (leave id (finish env session_id result error w))
unfolding leave
leave_finished env id session_id result error w h idle =
    let s = finish-SameControl env session_id result error w in
    let v = finish env session_id result error w in
    leave-IsOrderly id v.threads v.lock v.next_id v.dispatched (same-AreOrderly s h)
      (subst (λ ts. AreIdle (without id ts)) (sym s.threads) idle)

begin_run-AreOrderly :
    (env : Env) (t : Thread) (w : Coordinator)
    → IsThread t w.threads
    → t.stage ≡ waiting
    → w.lock ≡ free
    → AreOrderly w
    → AreOrderly (begin_run env t w)
unfolding begin_run
begin_run-AreOrderly env t w m wait e h =
    let idle = subst (λ l. IsOrderly w.threads l w.next_id w.dispatched) e h in
    elim (Bool-cases t.canceled) [
      | inl gone ↦ simp gone (
          leave_finished env t.id t.request.session_id canceled_result (some context_canceled) w h
            (without-AreIdle t.id w.threads (idle_of_free w.threads idle.holder)))
      | inr live ↦
          simp live
            (begin_at-AreOrderly t (set_running env t.request.session_id w.dir) w m wait idle e)
    ]

end_run-AreOrderly :
    (env : Env) (t : Thread) (response : ExecResponse) (error : Option RunError) (w : Coordinator)
    → IsThread t w.threads
    → t.stage ≡ executing
    → AreOrderly w
    → AreOrderly (end_run env t response error w)
unfolding end_run
end_run-AreOrderly env t response error w m busy h =
    let held = thread-All (Holds w.lock) m h.holder busy in
    leave_finished env t.id t.request.session_id (worker_result_from_exec response error) error w h
      (holder_left t.id w.threads (subst (λ l. All (Holds l) w.threads) held h.holder))

at_end :
    {out out' : Result ExecResult × Coordinator} → out ≡ out' → AreOrderly out'.1 → AreOrderly out.1
at_end e h = subst (λ (o : Result ExecResult × Coordinator). AreOrderly o.1) (sym e) h

start_session-AreOrderly :
    (env : Env) (req : WorkerRequest) (w : Coordinator)
    → AreOrderly w
    → AreOrderly (start_session env req w).1
unfolding launch
start_session-AreOrderly env req w h = elim (start_session-outcome env req w) [
  | invalid p ↦ at_end p h
  | refused e dir l p ↦ at_end p h
  | replayed session_id r stored a p ↦ at_end p h
  | launched dir new_request new_session room e stored p ↦
      at_end p (launch-IsOrderly req w.threads w.lock w.next_id w.dispatched h)
]

cancel_context-AreOrderly :
    (id : Option ℕ) (w : Coordinator) → AreOrderly w → AreOrderly (cancel_context id w)
cancel_context-AreOrderly none w h = h
cancel_context-AreOrderly (some id) w h =
    cancel-IsOrderly id w.threads w.lock w.next_id w.dispatched h

persist-SameControl :
    (env : Env) (r : SessionRecord) (w : Coordinator)
    → SameControl (◌>>◌ (persist env r) (give r.result) w).1 w
unfolding persist
persist-SameControl env r w = record {
  threads = ground arith;
  lock = ground arith;
  next_id = ground arith;
  dispatched = ground arith;
}

persist-AreOrderly :
    (env : Env) (req : WorkerRequest) (r : SessionRecord) (w : Coordinator)
    → AreOrderly w
    → AreOrderly (◌>>◌ (call_cancel req.session_id) (persist env r >> give r.result) w).1
unfolding call_cancel
persist-AreOrderly env req r w h =
    let id = active_thread req.session_id w.active in
    same-AreOrderly (persist-SameControl env r (cancel_context id w))
      (cancel_context-AreOrderly id w h)

perform-AreOrderly :
    (env : Env) (action : Action) (req : WorkerRequest) (w : Coordinator)
    → AreOrderly w
    → AreOrderly (perform env action req w).1
unfolding perform
perform-AreOrderly env start req w h = start_session-AreOrderly env req w h
perform-AreOrderly env poll req w h = subst AreOrderly (sym (poll_session-unchanged req w)) h
perform-AreOrderly env cancel req w h = elim (cancel_session-outcome env req w) [
  | denied e p ↦ at_end p h
  | finished r stored owns done p ↦ at_end p h
  | canceled r stored owns open_ p ↦
      at_end p (persist-AreOrderly env req (canceled_record env r) w h)
]
perform-AreOrderly env (unknown _) req w h = h

serve-AreOrderly :
    (token : Text) (env : Env) (r : HttpRequest) (w : Coordinator)
    → AreOrderly w
    → AreOrderly (serve token env r w).1
serve-AreOrderly token env r w h = elim (serve-outcome token env r w) [
  | rejected status p ↦ at_end p h
  | performed req admitted p ↦ at_end p (perform-AreOrderly env req.action req w h)
]

restart-AreOrderly : (env : Env) (w : Coordinator) → AreOrderly w → AreOrderly (restart env w)
unfolding restart
restart-AreOrderly env w h = record {
  bounded = tt;
  logged = h.logged;
  fresh = tt;
  once = h.once;
  distinct = tt;
  holder = tt;
}

-- Where the lock is not a goroutine's, any other lock that is none's may take its place.
relock :
    (w : Coordinator) (lock : Lock)
    → AreIdle w.threads
    → AreOrderly w
    → AreOrderly (record w { lock = lock })
relock w lock idle h = record {
  bounded = h.bounded;
  logged = h.logged;
  fresh = h.fresh;
  once = h.once;
  distinct = h.distinct;
  holder = All-map w.threads (λ t i e. absurd (i e)) idle;
}

idle_of_sync : (ts : List Thread) → All (Holds held_by_sync) ts → AreIdle ts
idle_of_sync ts h = All-map ts (λ t k e. cc (k e)) h

unlocked_idle :
    (lock : Lock) (ts : List Thread)
    → (lock ≡ free) ⊎ (lock ≡ held_by_sync)
    → All (Holds lock) ts
    → AreIdle ts
unlocked_idle lock ts (inl e) k = idle_of_free ts (subst (λ l. All (Holds l) ts) e k)
unlocked_idle lock ts (inr e) k = idle_of_sync ts (subst (λ l. All (Holds l) ts) e k)

initial-AreOrderly : (w : Coordinator) → IsInitial w → AreOrderly w
initial-AreOrderly w (a, threads, lock, next_id, log) =
    rw (threads, lock, next_id, log)
      (record { bounded = tt; logged = tt; fresh = tt; once = tt; distinct = tt; holder = tt })

module _ (token : Text) where
  Step-AreOrderly : {w v : Coordinator} → Step token w v → AreOrderly w → AreOrderly v
  Step-AreOrderly {w} (request env r live e) h =
      subst AreOrderly (sym e) (serve-AreOrderly token env r w h)
  Step-AreOrderly {w} (begin env t live m wait lock e) h =
      subst AreOrderly (sym e) (begin_run-AreOrderly env t w m wait lock h)
  Step-AreOrderly {w} (end env t response error live m busy e) h =
      subst AreOrderly (sym e) (end_run-AreOrderly env t response error w m busy h)
  Step-AreOrderly {w} (sync_begin live lock e) h = subst AreOrderly (sym e) (
      relock w held_by_sync
        (idle_of_free w.threads (subst (λ l. All (Holds l) w.threads) lock h.holder)) h)
  Step-AreOrderly {w} (sync_end live lock e) h = subst AreOrderly (sym e) (
      relock w free (idle_of_sync w.threads (subst (λ l. All (Holds l) w.threads) lock h.holder)) h)
  Step-AreOrderly {w} (restarted env e) h = subst AreOrderly (sym e) (restart-AreOrderly env w h)

  Reach-AreOrderly : {w v : Coordinator} → Reach token w v → AreOrderly w → AreOrderly v
  Reach-AreOrderly here h = h
  Reach-AreOrderly (next rs st) h = Step-AreOrderly st (Reach-AreOrderly rs h)

  -- Along every run from the start at most one goroutine executes a command.
  pub executing_exclusive :
      {w v : Coordinator} → IsInitial w → Reach token w v → executing_count v.threads ≤ 1
  executing_exclusive {w} {v} init rs =
      let h = Reach-AreOrderly rs (initial-AreOrderly w init) in
      executing_count-le-one v.lock v.threads h.distinct h.holder

  -- Along every run from the start no goroutine executes a command while the mutation lock is free
  -- or held by a synchronisation of the workspace.
  pub idle_unlocked :
      {w v : Coordinator}
      → IsInitial w
      → Reach token w v
      → (v.lock ≡ free) ⊎ (v.lock ≡ held_by_sync)
      → executing_count v.threads ≡ 0
  idle_unlocked {w} {v} init rs locked =
      let h = Reach-AreOrderly rs (initial-AreOrderly w init) in
      idle_count v.threads (unlocked_idle v.lock v.threads locked h.holder)
