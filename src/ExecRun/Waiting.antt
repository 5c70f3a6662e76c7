-- ===== src/ExecRun/Waiting.antt =====
-- A synchronous command always ends, and with a finished session or after the time to wait.
use mathlib.Core.Path.{subst}
use provider_infrastructure.Prelude.{
  ℕ, zero, suc, ◌+◌, ◌-◌, ◌*◌, ◌≤◌, ◌<◌, ◌≡◌, ◌⊎◌, inl, inr, refl, sym, ap, ◌∙◌, true, false, ◌||◌,
  Bool-cases, Option, none, some, leb, min, ℤ, arith,
}
use provider_infrastructure.Text.{Text, is_empty}
use provider_infrastructure.ExecRun.{
  RunResult, Capability, World, RunEnd, exec_terminal_state, poll_initial, poll_max, wait_budget,
  name_session, run_loop, run_exec, Round, stop, go_on, after_poll, run_round, next_look,
  exec_timeout_seconds, max_rounds,
}

Round-cases : (r : Round) → ((e : RunEnd) × (r ≡ stop e)) ⊎ ((x : RunResult) × (r ≡ go_on x))
Round-cases (stop e) = inl (e, refl)
Round-cases (go_on x) = inr (x, refl)

stop_injective : {d e : RunEnd} → stop d ≡ stop e → d ≡ e
stop_injective {d} h = ap (λ r. elim r [ stop x ↦ x | go_on _ ↦ d ]) h

-- How a run with a result may end: the session is finished, or the time to wait is over.
abbrev pub IsDue : ℕ → RunEnd → Type 0
IsDue deadline e =
    (r : RunResult) → e.result ≡ some r → (exec_terminal_state r.state ≡ true) ⊎ (deadline ≤ e.at)

end_injective : {a b : RunEnd} → some a ≡ some b → a ≡ b
end_injective {a} h = ap (λ o. elim o [ some x ↦ x | none ↦ a ]) h

some_injective : {a b : RunResult} → some a ≡ some b → a ≡ b
some_injective {a} h = ap (λ o. elim o [ some x ↦ x | none ↦ a ]) h

name_session_state :
    (session_id : Text) (r : RunResult) → (name_session session_id r).state ≡ r.state
name_session_state session_id r = ground arith

after_poll-IsDue :
    (session_id : Text) (deadline later : ℕ) (polled : Option RunResult) (e : RunEnd)
    → after_poll session_id later polled ≡ stop e
    → IsDue deadline e
after_poll-IsDue session_id deadline later none e h =
    subst (IsDue deadline) (stop_injective h) (λ r k. cc k)
after_poll-IsDue session_id deadline later (some polled) e h =
    elim (Bool-cases (exec_terminal_state polled.state)) [
      | inr open_ ↦ cc (rw open_ at h)
      | inl done ↦ subst (IsDue deadline) (stop_injective (rw done at h)) (λ r k. inl (
          ap (λ (x : RunResult). exec_terminal_state x.state) (sym (some_injective k))
          ∙ ap exec_terminal_state (name_session_state session_id polled)
          ∙ done))
    ]

run_round-IsDue :
    (world : World) (session_id : Text) (deadline round now later : ℕ) (result : RunResult)
    (e : RunEnd)
    → run_round world session_id deadline round now later result ≡ stop e
    → IsDue deadline e
unfolding run_round
run_round-IsDue world session_id deadline round now later result e h =
    elim (Bool-cases (leb deadline now)) [
      | inl over ↦
          subst (IsDue deadline) (stop_injective (rw over at h)) (λ r k. inr (ground (arith, over)))
      | inr open_ ↦ elim (Bool-cases (world.gone round)) [
        | inl gone ↦ subst (IsDue deadline) (stop_injective (rw (open_, gone) at h)) (λ r k. cc k)
        | inr waits ↦
            after_poll-IsDue session_id deadline later (world.poll round) e (rw (open_, waits) at h)
      ]
    ]

run_loop-IsDue :
    (world : World) (session_id : Text) (deadline fuel round now delay : ℕ) (result : RunResult)
    (e : RunEnd)
    → run_loop world session_id deadline fuel round now delay result ≡ some e
    → IsDue deadline e
unfolding run_loop
run_loop-IsDue world session_id deadline zero round now delay result e h = λ r k. cc h
run_loop-IsDue world session_id deadline (suc fuel) round now delay result e h =
    let later = next_look world deadline round now delay in
    elim (Round-cases (run_round world session_id deadline round now later result)) [
      | inl (d, stopped) ↦
          subst (IsDue deadline) (end_injective (rw (stopped, run_loop) at h))
            (run_round-IsDue world session_id deadline round now later result d stopped)
      | inr (x, going) ↦
          run_loop-IsDue world session_id deadline fuel (suc round) later (min (2 * delay) poll_max)
            x e (rw (going, run_loop) at h)
    ]

round_open :
    (world : World) (session_id : Text) (deadline round now later : ℕ) (result x : RunResult)
    → run_round world session_id deadline round now later result ≡ go_on x
    → now < deadline
unfolding run_round
round_open world session_id deadline round now later result x h = ground arith

-- The rounds are enough where their shortest waits cover the time to the deadline and one more.
run_loop-ends :
    (world : World) (session_id : Text) (deadline fuel round now delay : ℕ) (result : RunResult)
    → poll_initial ≤ delay
    → (deadline - now) + poll_initial ≤ fuel * poll_initial
    → (e : RunEnd) × (run_loop world session_id deadline fuel round now delay result ≡ some e)
unfolding run_loop
run_loop-ends world session_id deadline zero round now delay result d h = absurd (omega (arith, h))
run_loop-ends world session_id deadline (suc fuel) round now delay result d h =
    let later = next_look world deadline round now delay in
    elim (Round-cases (run_round world session_id deadline round now later result)) [
      | inl (e, stopped) ↦ (e, rw (stopped, run_loop) refl)
      | inr (x, going) ↦
          let before = round_open world session_id deadline round now later result x going in
          let (e, ended) =
            run_loop-ends world session_id deadline fuel (suc round) later
              (min (2 * delay) poll_max) x (omega arith) (omega (arith, h, before, d)) in
          (e, rw (going, run_loop) ended)
    ]

wait_budget_max : (seconds : ℕ) → wait_budget seconds ≤ 90_000_000_000
unfolding wait_budget
wait_budget_max seconds = omega arith

-- A synchronous command ends within its rounds, whatever the clock, the caller and the polls do.
pub run_exec-ends :
    (world : World) (requested : ℤ) (capability : Option Capability) (now : ℕ)
    (started : Option RunResult)
    → (e : RunEnd) × (run_exec world requested capability now started ≡ some e)
unfolding run_exec
run_exec-ends world requested capability now none = (_, refl)
run_exec-ends world requested capability now (some started) =
    elim (Bool-cases (exec_terminal_state started.state || is_empty started.session_id)) [
      | inl over ↦ (record { at = now; result = some started }, rw over refl)
      | inr open_ ↦
          let (e, ended) =
            run_loop-ends world started.session_id
              (now + wait_budget (exec_timeout_seconds requested capability)) max_rounds 0 now
              poll_initial started (omega arith)
              (omega (arith, wait_budget_max (exec_timeout_seconds requested capability))) in
          (e, rw open_ ended)
    ]

-- Where the start gives a session's name, a result of a synchronous command is of a finished
-- session, or the time to wait is over at its end.
pub run_exec-due :
    (world : World) (requested : ℤ) (capability : Option Capability) (now : ℕ)
    (started r : RunResult) (e : RunEnd)
    → is_empty started.session_id ≡ false
    → run_exec world requested capability now (some started) ≡ some e
    → e.result ≡ some r
    → (exec_terminal_state r.state ≡ true)
      ⊎ (now + wait_budget (exec_timeout_seconds requested capability) ≤ e.at)
unfolding run_exec
run_exec-due world requested capability now started r e named h k =
    elim (Bool-cases (exec_terminal_state started.state)) [
      | inl done ↦ inl (
          ap (λ (x : RunResult). exec_terminal_state x.state)
            (sym
              (some_injective (ap (λ (x : RunEnd). x.result) (end_injective (rw done at h)) ∙ k)))
          ∙ done)
      | inr open_ ↦
          run_loop-IsDue world started.session_id
            (now + wait_budget (exec_timeout_seconds requested capability)) max_rounds 0 now
            poll_initial started e (rw (open_, named) at h) r k
    ]
