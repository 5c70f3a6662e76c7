-- ===== src/Session/System/Order/Control.antt =====
-- Each operation keeps the goroutines orderly.
use mathlib.Core.Path.{subst}
use provider_infrastructure.Prelude.{
  ℕ, suc, ◌<◌, ◌≡◌, ◌≢◌, refl, sym, ap, ◌∙◌, false, Bool-cases, inl, inr, List, [], ◌∷◌, All,
  All-map, map, ◌==◌, arith,
}
use provider_infrastructure.Session.{WorkerRequest}
use provider_infrastructure.Session.Coordinator.{Thread, waiting, executing, Lock, free, held_by}
use provider_infrastructure.Session.Requests.{cancel_thread}
use provider_infrastructure.Session.Run.{without}
use provider_infrastructure.Session.System.Order.{
  IsDistinct, IsFresh, Holds, IsOrderly, held_by_injective,
}

abbrev pub ids : List Thread → List ℕ
ids ts = map (λ (t : Thread). t.id) ts

below-ne : (n : ℕ) (is : List ℕ) → All (λ i. i < n) is → All (λ i. i ≢ n) is
below-ne n is h = All-map is (λ i lt e. omega arith) h

below_ids-ne : (n : ℕ) (ts : List Thread) → All (λ t. t.id < n) ts → All (λ i. i ≢ n) (ids ts)
below_ids-ne n [] h = tt
below_ids-ne n (t ∷ ts) (lt, h) = ((λ e. omega arith), below_ids-ne n ts h)

-- A new goroutine under the next number.
pub launch-IsOrderly :
    (req : WorkerRequest) (ts : List Thread) (lock : Lock) (n : ℕ) (log : List ℕ)
    → IsOrderly ts lock n log
    → IsOrderly
        (record { id = n; request = req; canceled = false; stage = waiting } ∷ ts)
        lock
        (suc n)
        log
launch-IsOrderly req ts lock n log h = record {
  bounded = (omega arith, All-map ts (λ t lt. omega arith) h.bounded);
  logged = All-map log (λ i lt. omega arith) h.logged;
  fresh = ((λ _. below-ne n log h.logged), h.fresh);
  once = h.once;
  distinct = (below_ids-ne n ts h.bounded, h.distinct);
  holder = ((λ e. cc e), h.holder);
}

-- A cancelled context changes neither the numbers nor the stages.
cancel-All {κ} :
    (P : Thread → Type κ) (id : ℕ)
    → ((t : Thread) → P t → P (cancel_thread id t))
    → (ts : List Thread) → All P ts
    → All P (map (cancel_thread id) ts)
cancel-All P id f [] h = tt
cancel-All P id f (t ∷ ts) (p, h) = (f t p, cancel-All P id f ts h)

ids-cancel : (id : ℕ) (ts : List Thread) → ids (map (cancel_thread id) ts) ≡ ids ts
ids-cancel id [] = refl
ids-cancel id (t ∷ ts) = ground (arith, ids-cancel id ts)

stage-cancel : (id : ℕ) (t : Thread) → (cancel_thread id t).stage ≡ t.stage
stage-cancel id t = ground arith

id-cancel : (id : ℕ) (t : Thread) → (cancel_thread id t).id ≡ t.id
id-cancel id t = ground arith

pub cancel-IsOrderly :
    (id : ℕ) (ts : List Thread) (lock : Lock) (n : ℕ) (log : List ℕ)
    → IsOrderly ts lock n log
    → IsOrderly (map (cancel_thread id) ts) lock n log
cancel-IsOrderly id ts lock n log h = record {
  bounded = cancel-All (λ t. t.id < n) id (λ t p. ground arith) ts h.bounded;
  logged = h.logged;
  fresh =
      cancel-All (IsFresh log) id (λ t f e. rw (id-cancel id t) (f (sym (stage-cancel id t) ∙ e)))
        ts h.fresh;
  once = h.once;
  distinct = subst IsDistinct (sym (ids-cancel id ts)) h.distinct;
  holder =
      cancel-All (Holds lock) id
        (λ t k e. k (sym (stage-cancel id t) ∙ e) ∙ ap held_by (sym (id-cancel id t))) ts h.holder;
}

-- A goroutine that left is gone.
without-All {κ} :
    (P : Thread → Type κ) (id : ℕ) (ts : List Thread) → All P ts → All P (without id ts)
unfolding without
without-All P id [] h = tt
without-All P id (t ∷ ts) (p, h) = elim (Bool-cases (t.id == id)) [
  | inl same ↦ rw same (without-All P id ts h)
  | inr other ↦ rw other (p, without-All P id ts h)
]

without-ids :
    (P : ℕ → Type 0) (id : ℕ) (ts : List Thread) → All P (ids ts) → All P (ids (without id ts))
unfolding without
without-ids P id [] h = tt
without-ids P id (t ∷ ts) (p, h) = elim (Bool-cases (t.id == id)) [
  | inl same ↦ rw same (without-ids P id ts h)
  | inr other ↦ rw other (p, without-ids P id ts h)
]

without-IsDistinct :
    (id : ℕ) (ts : List Thread) → IsDistinct (ids ts) → IsDistinct (ids (without id ts))
unfolding without
without-IsDistinct id [] h = tt
without-IsDistinct id (t ∷ ts) (ne, h) = elim (Bool-cases (t.id == id)) [
  | inl same ↦ rw same (without-IsDistinct id ts h)
  | inr other ↦ rw other (without-ids (λ j. j ≢ t.id) id ts ne, without-IsDistinct id ts h)
]

without-ne : (id : ℕ) (ts : List Thread) → All (λ t. t.id ≢ id) (without id ts)
unfolding without
without-ne id [] = tt
without-ne id (t ∷ ts) = elim (Bool-cases (t.id == id)) [
  | inl same ↦ rw same (without-ne id ts)
  | inr other ↦ rw other ((λ e. ground arith), without-ne id ts)
]

-- No goroutine executes.
abbrev pub AreIdle : List Thread → Type 0
AreIdle ts = All (λ t. t.stage ≢ executing) ts

pub idle_of_free : (ts : List Thread) → All (Holds free) ts → AreIdle ts
idle_of_free ts h = All-map ts (λ t k e. cc (k e)) h

-- A goroutine leaves, and no other executes.
pub leave-IsOrderly :
    (id : ℕ) (ts : List Thread) (lock : Lock) (n : ℕ) (log : List ℕ)
    → IsOrderly ts lock n log
    → AreIdle (without id ts)
    → IsOrderly (without id ts) free n log
leave-IsOrderly id ts lock n log h idle = record {
  bounded = without-All (λ t. t.id < n) id ts h.bounded;
  logged = h.logged;
  fresh = without-All (IsFresh log) id ts h.fresh;
  once = h.once;
  distinct = without-IsDistinct id ts h.distinct;
  holder = All-map (without id ts) (λ t i e. absurd (i e)) idle;
}

pub without-AreIdle : (id : ℕ) (ts : List Thread) → AreIdle ts → AreIdle (without id ts)
without-AreIdle id ts h = without-All (λ t. t.stage ≢ executing) id ts h

both {κ} :
    (P Q : Thread → Type κ) (ts : List Thread) → All P ts → All Q ts → All (λ t. P t × Q t) ts
both P Q [] h k = tt
both P Q (t ∷ ts) (p, h) (q, k) = ((p, q), both P Q ts h k)

-- When the holder of the lock leaves, no other executes.
pub holder_left :
    (id : ℕ) (ts : List Thread) → All (Holds (held_by id)) ts → AreIdle (without id ts)
holder_left id ts h =
    All-map (without id ts) (λ t p e. p.0 (held_by_injective (sym (p.1 e))))
      (both (λ t. t.id ≢ id) (Holds (held_by id)) (without id ts) (without-ne id ts)
        (without-All (Holds (held_by id)) id ts h))
