-- ===== src/Session/Changes.antt =====
-- Every operation of the coordinator changes the record directory by durable writes and sweeps, and
-- writes over no finished session.
pub mod Operations
pub mod Runs
use native.Mathlib.Decide.{dec_lt}
use mathlib.Core.Path.{subst}
use provider_infrastructure.Prelude.{
  ◌≡◌, ◌<◌, ◌+◌, length, refl, sym, ap, ◌∙◌, ◌⊎◌, inl, inr, Bool, true, false, Bool-cases,
  Option-cases, List, [], ◌∷◌, Option, none, some, if◌then◌else◌, arith,
}
use provider_infrastructure.Text.{Text, text_eq}
use provider_infrastructure.Text.Laws.{text_eq_iff}
use provider_infrastructure.Session.{worker_terminal, SessionRecord, WorkerRequest, Dir}
use provider_infrastructure.Session.Disk.{
  Result, ok, err, Env, read_record, write_record, gc, capacity, retention,
}
use provider_infrastructure.Session.Disk.Laws.{read_record-write_record}
use provider_infrastructure.Session.Disk.WellFormed.{IsWellFormed, write_record-IsWellFormed}
use provider_infrastructure.Session.Disk.Sweep.{gc-IsSwept, gc-IsWellFormed, gc-fresh}

-- The session has no record that is finished.
abbrev pub IsOpen : Text → Dir → Type 0
IsOpen session_id dir =
    (r : SessionRecord)
    → read_record session_id dir ≡ ok (some r)
    → worker_terminal r.result.state ≡ false

-- The changes at one time, `env`.
pub data Change (env : Env) (dir dir' : Dir) : Type 0 where
  wrote :
      (r : SessionRecord)
      → IsOpen r.session_id dir
      → dir' ≡ (write_record env r dir).0
      → Change env dir dir'
  swept : dir' ≡ (gc env dir).0 → Change env dir dir'

pub data Changes (env : Env) (dir : Dir) : Dir → Type 0 where
  unchanged : Changes env dir dir
  after : {mid dir' : Dir} → Changes env dir mid → Change env mid dir' → Changes env dir dir'

pub Change-IsWellFormed :
    {env : Env} {dir dir' : Dir} → Change env dir dir' → IsWellFormed dir → IsWellFormed dir'
Change-IsWellFormed {env} {dir} (wrote r o e) h =
    subst IsWellFormed (sym e) (write_record-IsWellFormed env r dir h)
Change-IsWellFormed {env} {dir} (swept e) h = subst IsWellFormed (sym e) (gc-IsWellFormed env dir h)

-- The directory stays well formed.
pub Changes-IsWellFormed :
    {env : Env} {dir dir' : Dir} → Changes env dir dir' → IsWellFormed dir → IsWellFormed dir'
Changes-IsWellFormed unchanged h = h
Changes-IsWellFormed (after cs c) h = Change-IsWellFormed c (Changes-IsWellFormed cs h)

-- The record is past the retention, or the directory is over its capacity.
abbrev pub IsExpired : Env → Dir → SessionRecord → Type 0
IsExpired env dir r = (capacity < length dir) ⊎ (r.updated_at + retention < env.now)

-- Among the changes a sweep takes the record away, when it is expired.
pub record Swept (env : Env) (dir dir' : Dir) (session_id : Text) (r : SessionRecord) : Type 0 where
  pub middle : Dir
  pub earlier : Changes env dir middle
  pub stored : read_record session_id middle ≡ ok (some r)
  pub expired : IsExpired env middle r
  pub gone : read_record session_id (gc env middle).0 ≡ ok none
  pub rest : Changes env (gc env middle).0 dir'

gc-settled :
    (env : Env) (session_id : Text) (dir : Dir) (r : SessionRecord)
    → IsWellFormed dir
    → read_record session_id dir ≡ ok (some r)
    → (read_record session_id (gc env dir).0 ≡ ok (some r))
      ⊎ (IsExpired env dir r × (read_record session_id (gc env dir).0 ≡ ok none))
gc-settled env session_id dir r h stored = elim (gc-IsSwept env session_id dir h) [
  | inl same ↦ inl (same ∙ stored)
  | inr gone ↦ elim (dec_lt capacity (length dir)) [
    | yes over ↦ inr (inl over, gone.0)
    | no within ↦ elim (dec_lt (r.updated_at + retention) env.now) [
      | yes late ↦ inr (inr late, gone.0)
      | no fresh ↦ inl (gc-fresh env session_id dir r h (omega arith) stored (omega arith))
    ]
  ]
]

Change-settled :
    {env : Env} {dir mid dir' : Dir} (session_id : Text) (r : SessionRecord)
    → Changes env dir mid
    → Change env mid dir'
    → IsWellFormed mid
    → read_record session_id mid ≡ ok (some r)
    → worker_terminal r.result.state ≡ true
    → (read_record session_id dir' ≡ ok (some r)) ⊎ Swept env dir dir' session_id r
Change-settled {env} {mid = mid} session_id r cs (wrote s o e) h stored done =
    elim (Bool-cases (text_eq s.session_id session_id)) [
      | inl same ↦
          let one = (text_eq_iff s.session_id session_id).0 same in
          cc (o r (ap (λ t. read_record t mid) one ∙ stored), done)
      | inr other ↦ inl (
          ap (read_record session_id) e
          ∙ (ground (arith, read_record-write_record env s session_id mid)))
    ]
Change-settled {env} {mid = mid} session_id r cs (swept e) h stored done =
    elim (gc-settled env session_id mid r h stored) [
      | inl still ↦ inl (ap (read_record session_id) e ∙ still)
      | inr (expired, gone) ↦ inr (record {
        middle = mid;
        earlier = cs;
        stored = stored;
        expired = expired;
        gone = gone;
        rest = subst (Changes env (gc env mid).0) (sym e) unchanged;
      })
    ]

-- A finished session's record stays as it is until a sweep removes it.
pub Changes-settled :
    {env : Env} {dir dir' : Dir} (session_id : Text) (r : SessionRecord)
    → Changes env dir dir'
    → IsWellFormed dir
    → read_record session_id dir ≡ ok (some r)
    → worker_terminal r.result.state ≡ true
    → (read_record session_id dir' ≡ ok (some r)) ⊎ Swept env dir dir' session_id r
Changes-settled session_id r unchanged h stored done = inl stored
Changes-settled session_id r (after cs c) h stored done =
    elim (Changes-settled session_id r cs h stored done) [
      | inl still ↦ Change-settled session_id r cs c (Changes-IsWellFormed cs h) still done
      | inr gone ↦ inr (record {
        middle = gone.middle;
        earlier = gone.earlier;
        stored = gone.stored;
        expired = gone.expired;
        gone = gone.gone;
        rest = after gone.rest c;
      })
    ]
