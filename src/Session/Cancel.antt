-- ===== src/Session/Cancel.antt =====
-- What a cancel leaves (`cancel` of dev-agent/exec_worker.go).
use provider_infrastructure.Prelude.{
  ℕ, ◌≡◌, refl, sym, ap, ◌∙◌, Bool, true, false, List, [], ◌∷◌, map, Option, none, some, ◌==◌,
  if◌then◌else◌,
}
use mathlib.Core.Path.{subst}
use provider_infrastructure.Text.{Text, text_eq}
use provider_infrastructure.Text.Laws.{text_eq_refl}
use provider_infrastructure.Session.{
  State, worker_terminal, ExecResult, SessionRecord, WorkerRequest, Dir,
}
use provider_infrastructure.Session.Disk.{
  Result, Write, written, unwritten, unsynced, ok, Env, read_record, write_record,
}
use provider_infrastructure.Session.Disk.Laws.{
  is_written, is_renamed, read_record-write_record, write_record-done,
}
use provider_infrastructure.Session.Disk.WellFormed.{IsWellFormed}
use provider_infrastructure.Session.Coordinator.{Coordinator, Thread, ◌>>◌, give, persist, with_dir}
use provider_infrastructure.Session.Requests.{
  cancel_session, call_cancel, canceled_record, active_thread, cancel_context,
}
use provider_infrastructure.Session.Owner.{Owns, denied, finished, canceled, cancel_session-outcome}

-- The goroutine is the one that is looked for.
abbrev pub is_chosen : Option ℕ → ℕ → Bool
is_chosen none id = false
is_chosen (some chosen) id = id == chosen

-- The goroutines, with the context of the chosen one cancelled.
abbrev pub stop_chosen : Option ℕ → List Thread → List Thread
stop_chosen chosen threads =
    map (λ t. if is_chosen chosen t.id then record t { canceled = true } else t) threads

map_self : (threads : List Thread) → map (λ t. t) threads ≡ threads
map_self [] = refl
map_self (t ∷ ts) = ap (λ rest. t ∷ rest) (map_self ts)

cancel_context_lem :
    (chosen : Option ℕ) (w : Coordinator)
    → cancel_context chosen w ≡ record w { threads = stop_chosen chosen w.threads }
cancel_context_lem none w =
    ap (λ (ts : List Thread). record w { threads = ts }) (sym (map_self w.threads))
cancel_context_lem (some id) w = refl

-- A write that returns no error is read back.
written-read :
    (env : Env) (r : SessionRecord) (session_id : Text) (dir : Dir)
    → r.session_id ≡ session_id
    → (write_record env r dir).1 ≡ true
    → read_record session_id (write_record env r dir).0 ≡ ok (some r)
written-read env r session_id dir same done =
    subst (λ s. read_record s (write_record env r dir).0 ≡ ok (some r)) same
      (read_record-write_record env r r.session_id dir
        ∙ at_write (env.write r.session_id) (sym (write_record-done env r dir) ∙ done))
  where
    at_write :
        (outcome : Write)
        → is_written outcome ≡ true
        → (if text_eq r.session_id r.session_id
            then if is_renamed outcome then ok (some r) else read_record r.session_id dir
            else read_record r.session_id dir)
          ≡ ok (some r)
    at_write written h = rw (text_eq_refl r.session_id) refl
    at_write unwritten h = cc
    at_write unsynced h = cc

-- The write of the canceled record, once the context is cancelled.
abbrev IsSaved : Env → SessionRecord → ExecResult → Coordinator → Coordinator → Type 0
IsSaved env c result w v =
    ((persist env c >> give c.result) v).0 ≡ ok result
    → ((write_record env c w.dir).1 ≡ true)
      × (result ≡ c.result)
      × (((persist env c >> give c.result) v).1 ≡ record v { dir = (write_record env c w.dir).0 })

save_lem :
    (env : Env) (c : SessionRecord) (result : ExecResult) (v : Coordinator)
    → IsSaved env c result v v
unfolding persist
save_lem env c result v gives = at (write_record env c v.dir) gives
  where
    at :
        (out : Dir × Bool)
        → ((with_dir out >> give c.result) v).0 ≡ ok result
        → (out.1 ≡ true)
          × (result ≡ c.result)
          × (((with_dir out >> give c.result) v).1 ≡ record v { dir = out.0 })
    at (dir, true) h = (refl, cc, refl)
    at (dir, false) h = cc

-- The goroutine of the session, if any, is cancelled, and nothing else is changed but the directory.
abbrev pub canceled_state : Text → Dir → Coordinator → Coordinator
canceled_state session_id dir w = record w {
  dir = dir;
  threads = stop_chosen (active_thread session_id w.active) w.threads;
}

block_lem :
    (env : Env) (session_id : Text) (c : SessionRecord) (w : Coordinator) (result : ExecResult)
    → (◌>>◌ (call_cancel session_id) (persist env c >> give c.result) w).0 ≡ ok result
    → ((write_record env c w.dir).1 ≡ true)
      × (result ≡ c.result)
      × ((◌>>◌ (call_cancel session_id) (persist env c >> give c.result) w).1
          ≡ canceled_state session_id (write_record env c w.dir).0 w)
unfolding call_cancel
block_lem env session_id c w result =
    subst
      (λ (v : Coordinator).
        ((persist env c >> give c.result) v).0 ≡ ok result
        → ((write_record env c w.dir).1 ≡ true)
          × (result ≡ c.result)
          × (((persist env c >> give c.result) v).1
              ≡ canceled_state session_id (write_record env c w.dir).0 w))
      (sym (cancel_context_lem (active_thread session_id w.active) w))
      (save_lem env c result
        (record w { threads = stop_chosen (active_thread session_id w.active) w.threads }))

-- A cancel that succeeds on a session that is not finished, in a well-formed directory, is of its
-- caller. It gives the result on record with the state canceled, which is then on record, and it
-- cancels the context of the goroutine that `active` names for the session, and changes nothing
-- else but the directory.
pub cancel_session-cancels :
    (env : Env) (req : WorkerRequest) (w : Coordinator) (r : SessionRecord) (result : ExecResult)
    → IsWellFormed w.dir
    → read_record req.session_id w.dir ≡ ok (some r)
    → worker_terminal r.result.state ≡ false
    → (cancel_session env req w).0 ≡ ok result
    → Owns req r
      × (result ≡ record r.result { state = State.canceled })
      × (read_record req.session_id (cancel_session env req w).1.dir
          ≡ ok (some (record r { result = result; updated_at = env.now })))
      × ((cancel_session env req w).1
          ≡ canceled_state req.session_id (cancel_session env req w).1.dir w)
cancel_session-cancels env req w r result h stored open_ gives =
    elim (cancel_session-outcome env req w) [
      | denied e p ↦ absurd (cc (rw (p) at gives))
      | finished r' stored' owns done p ↦ cc (same r' stored', done, open_)
      | canceled r' stored' owns other p ↦
          at_end (subst (Owns req) (same r' stored') owns)
            (subst (λ q. cancel_session env req w ≡ block q) (same r' stored') p)
    ]
  where
    block : SessionRecord → Result ExecResult × Coordinator
    block q =
        (call_cancel req.session_id
            >> (persist env (canceled_record env q) >> give (canceled_record env q).result))
          w

    same : (q : SessionRecord) → read_record req.session_id w.dir ≡ ok (some q) → q ≡ r
    same q found = cc (found, stored)

    at_end :
        Owns req r
        → cancel_session env req w ≡ block r
        → Owns req r
          × (result ≡ record r.result { state = State.canceled })
          × (read_record req.session_id (cancel_session env req w).1.dir
              ≡ ok (some (record r { result = result; updated_at = env.now })))
          × ((cancel_session env req w).1
              ≡ canceled_state req.session_id (cancel_session env req w).1.dir w)
    at_end owns p =
        let b =
          block_lem env req.session_id (canceled_record env r) w result
            (sym (ap (λ (o : Result ExecResult × Coordinator). o.0) p) ∙ gives) in
        let after : (cancel_session env req w).1
            ≡ canceled_state req.session_id (write_record env (canceled_record env r) w.dir).0 w =
          ap (λ (o : Result ExecResult × Coordinator). o.1) p ∙ b.2 in
        rw (after) (
          owns,
          b.1,
          written-read env (canceled_record env r) req.session_id w.dir
                (h.filed req.session_id r stored) b.0
              ∙ ap (λ q. ok (some (record r { result = q; updated_at = env.now }))) (sym b.1),
          refl,
        )
