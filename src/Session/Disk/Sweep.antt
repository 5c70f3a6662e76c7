-- ===== src/Session/Disk/Sweep.antt =====
-- What the sweep of old records (`gcLocked`) does to each session's record.
use provider_infrastructure.Prelude.{
  ℕ, ◌+◌, ◌≤◌, ◌≡◌, refl, sym, ap, ◌∙◌, ◌≢◌, ◌⊎◌, inl, inr, true, Bool-cases, Option-cases, List,
  [], ◌∷◌, Option, none, some, All, All-map, length, ltb, arith,
}
use provider_infrastructure.Text.{Text, text_eq}
use provider_infrastructure.Text.Laws.{text_eq_iff}
use provider_infrastructure.Session.{
  worker_terminal, SessionRecord, Dir, lookup, remove, record_name, session_file,
}
use provider_infrastructure.Session.Disk.{
  Result, ok, err, ◌>>=◌, Env, read_record, decode, Terminal, terminal_of, add_terminal, collect,
  insert, sort, remove_collected, sweep, gc, gc_scan, retention, capacity,
}
use provider_infrastructure.Session.Disk.Laws.{lookup-remove_ne, record_name_injective}
use provider_infrastructure.Session.Disk.WellFormed.{
  HasDistinctNames, IsFiled, IsWellFormed, remove_collected-HasDistinctNames,
  lookup-remove_collected, lookup-remove_collected_ne,
}

-- A collected record is a finished session's, and its path is that session's file.
pub record IsSettled (dir : Dir) (t : Terminal) : Type 0 where
  pub session_id : Text
  pub kept : SessionRecord
  pub path : t.path ≡ record_name session_id
  pub at : t.at ≡ kept.updated_at
  pub read : read_record session_id dir ≡ ok (some kept)
  pub terminal : worker_terminal kept.result.state ≡ true

terminal_of-IsSettled :
    (dir : Dir) (session_id : Text) (r : SessionRecord)
    → IsFiled dir
    → read_record session_id dir ≡ ok (some r)
    → worker_terminal r.result.state ≡ true
    → IsSettled dir (terminal_of r)
terminal_of-IsSettled dir session_id r filed e h = record {
  session_id = session_id;
  kept = r;
  path = ap record_name (filed session_id r e);
  at = refl;
  read = e;
  terminal = h;
}

abbrev OnOk {ℓ κ} : {A : Type ℓ} → (A → Type κ) → Result A → Type κ
OnOk P (ok a) = P a
OnOk P (err e) = Unit

-- A step of the scan, after the list of the later steps.
add_terminal-IsSettled :
    (dir : Dir) (session_id : Text) (found : Option SessionRecord) (rest : Result (List Terminal))
    → IsFiled dir
    → read_record session_id dir ≡ ok found
    → OnOk (All (IsSettled dir)) rest
    → OnOk (All (IsSettled dir)) (add_terminal found rest)
add_terminal-IsSettled dir session_id none rest filed e later = later
add_terminal-IsSettled dir session_id (some r) rest filed e later =
    elim (Bool-cases (worker_terminal r.result.state)) [
      | inl done ↦ rw done (add rest (terminal_of-IsSettled dir session_id r filed e done) later)
      | inr other ↦ rw other later
    ]
  where
    add :
        (rest : Result (List Terminal))
        → IsSettled dir (terminal_of r)
        → OnOk (All (IsSettled dir)) rest
        → OnOk (All (IsSettled dir)) (rest >>= λ ts. ok (terminal_of r ∷ ts))
    add (ok ts) h later = (h, later)
    add (err x) h later = tt

scan-IsSettled :
    (dir : Dir) (session_id : Text) (read : Result (Option SessionRecord))
    (rest : Result (List Terminal))
    → IsFiled dir
    → read_record session_id dir ≡ read
    → OnOk (All (IsSettled dir)) rest
    → OnOk (All (IsSettled dir)) (read >>= λ found. add_terminal found rest)
scan-IsSettled dir session_id (ok found) rest filed e later =
    add_terminal-IsSettled dir session_id found rest filed e later
scan-IsSettled dir session_id (err x) rest filed e later = tt

-- Every collected record is settled.
collect-IsSettled : (dir es : Dir) → IsFiled dir → OnOk (All (IsSettled dir)) (collect dir es)
unfolding collect
collect-IsSettled dir [] filed = tt
collect-IsSettled dir (e ∷ es) filed = elim (Option-cases (session_file e)) [
  | inl other ↦ rw (other, collect) (collect-IsSettled dir es filed)
  | inr (session_id, file) ↦
      rw (file, collect)
        (scan-IsSettled dir session_id (read_record session_id dir) (collect dir es) filed refl
          (collect-IsSettled dir es filed))
]

module _ {κ} (P : Terminal → Type κ) where
  insert-All : (t : Terminal) (ts : List Terminal) → P t → All P ts → All P (insert t ts)
  unfolding insert
  insert-All t [] h hs = (h, tt)
  insert-All t (u ∷ us) h (k, hs) = elim (Bool-cases (ltb u.at t.at)) [
    | inl later ↦ rw later (k, insert-All t us h hs)
    | inr earlier ↦ rw earlier (h, (k, hs))
  ]

  sort-All : (ts : List Terminal) → All P ts → All P (sort ts)
  unfolding sort
  sort-All [] h = tt
  sort-All (t ∷ ts) (h, hs) = insert-All t (sort ts) h (sort-All ts hs)

  -- A path is among the collected ones, or it is not.
  find_path :
      (name : Text) (ts : List Terminal)
      → All P ts
      → All (λ t. t.path ≢ name) ts ⊎ ((t : Terminal) × P t × (t.path ≡ name))
  find_path name [] h = inl tt
  find_path name (t ∷ ts) (h, hs) = elim (Bool-cases (text_eq t.path name)) [
    | inl same ↦ inr (t, h, (text_eq_iff t.path name).0 same)
    | inr other ↦ elim (find_path name ts hs) [
      | inl none_of ↦ inl ((λ e. ground (arith, text_eq_iff t.path name)), none_of)
      | inr found ↦ inr found
    ]
  ]

-- A finished session's record that a sweep removes.
abbrev pub IsSwept : Text → Dir → Dir → Type 0
IsSwept session_id dir dir' =
    (read_record session_id dir' ≡ ok none)
    × ((r : SessionRecord) × (read_record session_id dir ≡ ok (some r))
        × (worker_terminal r.result.state ≡ true))

-- The record of a settled path is the one that the path's session has.
kept_read :
    (dir : Dir) (session_id : Text) (t : Terminal) (h : IsSettled dir t)
    → t.path ≡ record_name session_id
    → read_record session_id dir ≡ ok (some h.kept)
kept_read dir session_id t h same =
    ap (λ s. read_record s dir)
      (sym (record_name_injective h.session_id session_id (sym h.path ∙ same)))
    ∙ h.read

remove_collected-IsSwept :
    (env : Env) (total i : ℕ) (session_id : Text) (ts : List Terminal) (dir : Dir)
    → HasDistinctNames dir
    → All (IsSettled dir) ts
    → (read_record session_id (remove_collected env total i ts dir).0 ≡ read_record session_id dir)
      ⊎ IsSwept session_id dir (remove_collected env total i ts dir).0
unfolding read_record
remove_collected-IsSwept env total i session_id ts dir names settled =
    elim (find_path (IsSettled dir) (record_name session_id) ts settled) [
      | inl none_of ↦ inl (
          ap decode
            (lookup-remove_collected_ne env total i ts (record_name session_id) dir none_of))
      | inr (t, h, same) ↦
          elim (lookup-remove_collected env total i ts (record_name session_id) dir names) [
            | inl gone ↦
                inr (ap decode gone, (h.kept, kept_read dir session_id t h same, h.terminal))
            | inr kept ↦ inl (ap decode kept)
          ]
    ]

sweep-IsSwept :
    (env : Env) (total : ℕ) (session_id : Text) (found : Result (List Terminal)) (dir : Dir)
    → HasDistinctNames dir
    → OnOk (All (IsSettled dir)) found
    → (read_record session_id (sweep env total found dir).0 ≡ read_record session_id dir)
      ⊎ IsSwept session_id dir (sweep env total found dir).0
sweep-IsSwept env total session_id (ok ts) dir names h =
    remove_collected-IsSwept env total 0 session_id (sort ts) dir names
      (sort-All (IsSettled dir) ts h)
sweep-IsSwept env total session_id (err e) dir names h = inl refl

-- A sweep leaves each session's record as it is, or removes the record of a finished session.
pub gc-IsSwept :
    (env : Env) (session_id : Text) (dir : Dir)
    → IsWellFormed dir
    → (read_record session_id (gc env dir).0 ≡ read_record session_id dir)
      ⊎ IsSwept session_id dir (gc env dir).0
unfolding gc
gc-IsSwept env session_id dir h = elim (Bool-cases (env.listing_fails gc_scan)) [
  | inl failed ↦ rw failed (inl refl)
  | inr listed ↦ rw listed (
      sweep-IsSwept env (length dir) session_id (collect dir dir) dir h.distinct
        (collect-IsSettled dir dir h.filed))
]

sweep-HasDistinctNames :
    (env : Env) (total : ℕ) (found : Result (List Terminal)) (dir : Dir)
    → HasDistinctNames dir
    → HasDistinctNames (sweep env total found dir).0
sweep-HasDistinctNames env total (ok ts) dir h =
    remove_collected-HasDistinctNames env total 0 (sort ts) dir h
sweep-HasDistinctNames env total (err e) dir h = h

gc-HasDistinctNames :
    (env : Env) (dir : Dir) → HasDistinctNames dir → HasDistinctNames (gc env dir).0
unfolding gc
gc-HasDistinctNames env dir h =
    ground (arith, sweep-HasDistinctNames env (length dir) (collect dir dir) dir h)

gc-IsFiled : (env : Env) (dir : Dir) → IsWellFormed dir → IsFiled (gc env dir).0
gc-IsFiled env dir h session_id r e = elim (gc-IsSwept env session_id dir h) [
  | inl same ↦ h.filed session_id r (sym same ∙ e)
  | inr swept ↦ cc (swept.0, e)
]

pub gc-IsWellFormed : (env : Env) (dir : Dir) → IsWellFormed dir → IsWellFormed (gc env dir).0
gc-IsWellFormed env dir h = record {
  distinct = gc-HasDistinctNames env dir h.distinct;
  filed = gc-IsFiled env dir h;
}

-- A record within the retention is due only where the directory is over its capacity.
lookup-remove_collected_fresh :
    (env : Env) (total i : ℕ) (name : Text) (ts : List Terminal) (dir : Dir)
    → total ≤ capacity
    → All (λ t. t.path ≡ name → env.now ≤ t.at + retention) ts
    → lookup name (remove_collected env total i ts dir).0 ≡ lookup name dir
unfolding remove_collected
lookup-remove_collected_fresh env total i name [] dir small h = refl
lookup-remove_collected_fresh env total i name (t ∷ ts) dir small (fresh, h) =
    elim (Bool-cases (text_eq t.path name)) [
      | inl same ↦ ground (
        arith,
        fresh ((text_eq_iff t.path name).0 same),
        lookup-remove_collected_fresh env total (i + 1) name ts dir small h,
      )
      | inr other ↦ ground (
        arith,
        lookup-remove_collected_fresh env total (i + 1) name ts dir small h,
        lookup-remove_collected_fresh env total (i + 1) name ts (remove t.path dir) small h,
        lookup-remove_ne t.path name dir (λ e. ground (arith, text_eq_iff t.path name)),
      )
    ]

fresh_path :
    (env : Env) (dir : Dir) (session_id : Text) (r : SessionRecord)
    → read_record session_id dir ≡ ok (some r)
    → env.now ≤ r.updated_at + retention
    → (t : Terminal) → IsSettled dir t
    → t.path ≡ record_name session_id
    → env.now ≤ t.at + retention
fresh_path env dir session_id r read fresh t h same =
    let one : h.kept ≡ r = cc (kept_read dir session_id t h same, read) in
    rw (h.at ∙ ap (λ (s : SessionRecord). s.updated_at) one) fresh

sweep-fresh :
    (env : Env) (session_id : Text) (found : Result (List Terminal)) (dir : Dir) (r : SessionRecord)
    → length dir ≤ capacity
    → OnOk (All (IsSettled dir)) found
    → read_record session_id dir ≡ ok (some r)
    → env.now ≤ r.updated_at + retention
    → read_record session_id (sweep env (length dir) found dir).0 ≡ read_record session_id dir
unfolding read_record
sweep-fresh env session_id (err e) dir r small h read fresh = refl
sweep-fresh env session_id (ok ts) dir r small h read fresh = ap decode (
    lookup-remove_collected_fresh env (length dir) 0 (record_name session_id) (sort ts) dir small (
      All-map (sort ts) (fresh_path env dir session_id r read fresh)
        (sort-All (IsSettled dir) ts h)))

-- In a well-formed directory within the capacity a sweep keeps every record that was updated within
-- the retention.
pub gc-fresh :
    (env : Env) (session_id : Text) (dir : Dir) (r : SessionRecord)
    → IsWellFormed dir
    → length dir ≤ capacity
    → read_record session_id dir ≡ ok (some r)
    → env.now ≤ r.updated_at + retention
    → read_record session_id (gc env dir).0 ≡ ok (some r)
unfolding gc
gc-fresh env session_id dir r h small read fresh = elim (Bool-cases (env.listing_fails gc_scan)) [
  | inl failed ↦ rw failed read
  | inr listed ↦ rw listed (
      sweep-fresh env session_id (collect dir dir) dir r small (collect-IsSettled dir dir h.filed)
        read fresh
      ∙ read)
]
