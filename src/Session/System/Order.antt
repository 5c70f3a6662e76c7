-- ===== src/Session/System/Order.antt =====
-- The goroutines of the coordinator along every run: one command at a time, and each accepted start
-- is handed to the executor once at most.
pub mod Control
pub mod Steps
use mathlib.Core.Path.{subst}
use native.Mathlib.Nat.{le_of_eq}
use provider_infrastructure.Prelude.{
  ℕ, zero, suc, ◌<◌, ◌≤◌, ◌≡◌, ◌≢◌, refl, sym, ap, ◌∙◌, Bool, true, false, Bool-cases, ◌⊎◌, inl,
  inr, List, [], ◌∷◌, Option, none, some, All, All-map, map, ◌==◌, if◌then◌else◌, arith,
}
use provider_infrastructure.Session.Coordinator.{
  Coordinator, Thread, Stage, waiting, executing, Lock, free, held_by, held_by_sync,
}
use provider_infrastructure.Session.Requests.{cancel_thread}
use provider_infrastructure.Session.Run.{without, start_executing}
use provider_infrastructure.Session.System.{IsThread, first, later}

-- No number twice.
abbrev pub IsDistinct : List ℕ → Type 0
IsDistinct [] = Unit
IsDistinct (i ∷ is) = All (λ j. j ≢ i) is × IsDistinct is

-- A goroutine that waits has not been handed over.
abbrev pub IsFresh : List ℕ → Thread → Type 0
IsFresh log t = t.stage ≡ waiting → All (λ i. i ≢ t.id) log

-- A goroutine that executes holds the mutation lock.
abbrev pub Holds : Lock → Thread → Type 0
Holds lock t = t.stage ≡ executing → lock ≡ held_by t.id

-- What holds of the goroutines, the lock, the next number and the log of hand-overs.
pub record IsOrderly (threads : List Thread) (lock : Lock) (next_id : ℕ) (log : List ℕ)
    : Type 0 where
  pub bounded : All (λ t. t.id < next_id) threads
  pub logged : All (λ i. i < next_id) log
  pub fresh : All (IsFresh log) threads
  pub once : IsDistinct log
  pub distinct : IsDistinct (map (λ (t : Thread). t.id) threads)
  pub holder : All (Holds lock) threads

abbrev pub AreOrderly : Coordinator → Type 0
AreOrderly w = IsOrderly w.threads w.lock w.next_id w.dispatched

pub thread-All {κ} :
    (P : Thread → Type κ) {t : Thread} {ts : List Thread} → IsThread t ts → All P ts → P t
thread-All P first (p, h) = p
thread-All P (later m) (q, h) = thread-All P m h

-- The goroutines that execute a command.
abbrev is_executing : Stage → Bool
is_executing executing = true
is_executing waiting = false

pub executing_count : List Thread → ℕ
executing_count [] = 0
executing_count (t ∷ ts) = let n = executing_count ts in if is_executing t.stage then suc n else n

pub idle_count : (ts : List Thread) → All (λ t. t.stage ≢ executing) ts → executing_count ts ≡ 0
unfolding executing_count
idle_count [] h = refl
idle_count (t ∷ ts) (i, h) = ground (arith, idle_count ts h)

pub held_by_injective : {i j : ℕ} → held_by i ≡ held_by j → i ≡ j
held_by_injective e = ground arith

others_idle :
    (i : ℕ) (ts : List Thread)
    → All (λ j. j ≢ i) (map (λ (t : Thread). t.id) ts)
    → All (Holds (held_by i)) ts
    → All (λ t. t.stage ≢ executing) ts
others_idle i [] d h = tt
others_idle i (t ∷ ts) (ne, d) (k, h) =
    ((λ e. ne (held_by_injective (sym (k e)))), others_idle i ts d h)

Stage-cases : (s : Stage) → (s ≡ waiting) ⊎ (s ≡ executing)
Stage-cases waiting = inl refl
Stage-cases executing = inr refl

-- At most one goroutine executes.
pub executing_count-le-one :
    (lock : Lock) (ts : List Thread)
    → IsDistinct (map (λ (t : Thread). t.id) ts)
    → All (Holds lock) ts
    → executing_count ts ≤ 1
unfolding executing_count
executing_count-le-one lock [] d h = omega arith
executing_count-le-one lock (t ∷ ts) (ne, d) (k, h) = elim (Stage-cases t.stage) [
  | inl wait ↦ rw wait (executing_count-le-one lock ts d h)
  | inr busy ↦
      let held = k busy in
      rw busy (
        le_of_eq
          (ap suc (idle_count ts (others_idle t.id ts ne (subst (λ l. All (Holds l) ts) held h)))))
]
