-- ===== src/Session/Coordinator.antt =====
-- The state of the execution coordinator (dev-agent/exec_worker.go), and the monad of its
-- operations. A started command runs on a goroutine, a `Thread` here, which waits for the mutation
-- lock, marks its session as running, hands the command to the executor, and records the outcome.
use provider_infrastructure.Prelude.{ℕ, Bool, true, false, List, if◌then◌else◌}
use provider_infrastructure.Text.{Text}
use provider_infrastructure.Session.{SessionRecord, WorkerRequest, Dir}
use provider_infrastructure.Session.Disk.{Error, internal, Result, ok, err, Env, write_record, gc}

pub data Stage : Type 0 where
  waiting executing : Stage

-- A goroutine of `run`, with whether its context is cancelled.
pub record Thread : Type 0 where
  pub id : ℕ
  pub request : WorkerRequest
  pub canceled : Bool
  pub stage : Stage

-- Who holds the mutation lock: a goroutine of `run`, or a synchronisation of the workspace.
pub data Lock : Type 0 where
  free : Lock
  held_by : ℕ → Lock
  held_by_sync : Lock

-- `execCoordinator`. `active` keeps for a session the goroutine that its cancel function stops;
-- `next_id` numbers the goroutines, and `dispatched` logs those that handed a command over.
pub record Coordinator : Type 0 where
  pub dir : Dir
  pub active : List (Text × ℕ)
  pub threads : List Thread
  pub lock : Lock
  pub next_id : ℕ
  pub dispatched : List ℕ
  pub exited : Bool

-- An operation under `w.mu`: an error leaves what was done before it.
abbrev pub M : Type 0 → Type 0
M A = Coordinator → Result A × Coordinator

infixl 5 ◌>>=◌ ◌>>◌
abbrev pub ◌>>=◌ : {A B : Type 0} → M A → (A → M B) → M B
◌>>=◌ m f w = let (r, w') = m w in elim r [ ok a ↦ f a w' | err e ↦ (err e, w') ]

abbrev pub ◌>>◌ : {B : Type 0} → M (Unit {0}) → M B → M B
m >> k = m >>= λ _. k

abbrev pub give : {A : Type 0} → A → M A
give a w = (ok a, w)

abbrev pub fail : {A : Type 0} → Error → M A
fail e w = (err e, w)

abbrev pub guard : Bool → Error → M (Unit {0})
guard true e w = (ok tt, w)
guard false e w = (err e, w)

abbrev pub on_dir : {A : Type 0} → (Dir → Result A) → M A
on_dir f w = (f w.dir, w)

abbrev pub with_dir : Dir × Bool → M (Unit {0})
with_dir (dir, done) w = (if done then ok tt else err internal, record w { dir = dir })

-- `persistRecord`
unfoldable pub persist : Env → SessionRecord → M (Unit {0})
persist env r w = with_dir (write_record env r w.dir) w

-- `gcLocked`
unfoldable pub collect_garbage : Env → M (Unit {0})
collect_garbage env w = with_dir (gc env w.dir) w
