-- ===== src/Executor/FailStop.antt =====
-- The executor stops for good, and exits once.
use provider_infrastructure.Prelude.{
  ℕ, suc, any, ◌+◌, ◌≡◌, inl, inr, refl, Bool, true, false, Bool-cases, List, [], ◌∷◌, map,
  if◌then◌else◌, arith,
}
use provider_infrastructure.Executor.{Server, Answer, completed, broken, run_locked, run_all}

run_locked_failed :
    (answer : Answer) (w : Server) → w.failed ≡ true → run_locked answer w ≡ (503, w)
unfolding run_locked
run_locked_failed answer w h = ground arith

-- Once the executor failed, every request that waited for the lock is refused with 503, nothing is
-- executed and no further exit is started.
pub run_all-failed :
    (answers : List Answer) (w : Server)
    → w.failed ≡ true
    → run_all answers w ≡ (map (λ _. 503) answers, w)
unfolding run_all
run_all-failed [] w h = refl
run_all-failed (answer ∷ answers) w h =
    rw (run_locked_failed answer w h, run_all-failed answers w h) refl

-- Whether an answer is an error of a cleanup that is not proven.
abbrev pub is_unproven : Answer → Bool
is_unproven (completed response) = false
is_unproven (broken e) = e.is_cleanup

-- The commands that are executed: those up to the first whose cleanup is not proven.
abbrev pub executed : List Answer → ℕ
executed [] = 0
executed (answer ∷ answers) =
    let rest = executed answers in suc (if is_unproven answer then 0 else rest)

run_locked_unproven :
    (answer : Answer) (w : Server)
    → w.failed ≡ false
    → is_unproven answer ≡ true
    → ((run_locked answer w).1.failed ≡ true)
      × ((run_locked answer w).1.commands ≡ suc w.commands)
      × ((run_locked answer w).1.exits ≡ suc w.exits)
unfolding run_locked
run_locked_unproven (completed r) w h k = cc k
run_locked_unproven (broken e) w h k = (ground arith, ground arith, ground arith)

run_locked_proven :
    (answer : Answer) (w : Server)
    → w.failed ≡ false
    → is_unproven answer ≡ false
    → ((run_locked answer w).1.failed ≡ false)
      × ((run_locked answer w).1.commands ≡ suc w.commands)
      × ((run_locked answer w).1.exits ≡ w.exits)
unfolding run_locked
run_locked_proven (completed r) w h k = (ground arith, ground arith, ground arith)
run_locked_proven (broken e) w h k = (ground arith, ground arith, ground arith)

-- An executor that has not failed executes the commands up to the first whose cleanup is not proven
-- and no other; it has failed afterwards, and started one exit, exactly if there is such a command.
pub run_all-executed :
    (answers : List Answer) (w : Server)
    → w.failed ≡ false
    → ((run_all answers w).1.commands ≡ w.commands + executed answers)
      × ((run_all answers w).1.failed ≡ any is_unproven answers)
      × ((run_all answers w).1.exits ≡ w.exits + (if any is_unproven answers then 1 else 0))
unfolding run_all
run_all-executed [] w h = (omega arith, h, omega arith)
run_all-executed (answer ∷ answers) w h = elim (Bool-cases (is_unproven answer)) [
  | inl unproven ↦
      let (failed, count, exits) = run_locked_unproven answer w h unproven in
      let stopped = run_all-failed answers (run_locked answer w).1 failed in
      rw (stopped, unproven) (ground (arith, count), failed, ground (arith, exits))
  | inr proven ↦
      let (live, count, exits) = run_locked_proven answer w h proven in
      let (c, f, x) = run_all-executed answers (run_locked answer w).1 live in
      rw proven (ground (arith, count, c), f, omega (arith, exits, x))
]
