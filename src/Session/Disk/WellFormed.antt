-- ===== src/Session/Disk/WellFormed.antt =====
-- The record directory stays well formed under writes and the sweep of old records, and the sweep
-- touches finished sessions only.
use provider_infrastructure.Prelude.{
  ℕ, ◌+◌, ◌≡◌, refl, ◌≢◌, ◌⊎◌, inl, inr, false, Bool-cases, Option-cases, List, [], ◌∷◌, none, some,
  All, arith,
}
use provider_infrastructure.Text.{Text, text_eq}
use provider_infrastructure.Text.Laws.{text_eq_iff}
use provider_infrastructure.Session.{
  SessionRecord, Entry, Dir, lookup, insert_entry, replace, put, remove,
}
use provider_infrastructure.Session.Disk.{
  ok, Env, read_record, write_record, entry_of, Terminal, remove_collected,
}
use provider_infrastructure.Session.Disk.Laws.{lookup-remove_ne, read_record-write_record}

-- No two entries have one name.
abbrev pub HasDistinctNames : Dir → Type 0
HasDistinctNames [] = Unit
HasDistinctNames (e ∷ dir) = (lookup e.name dir ≡ none) × HasDistinctNames dir

-- A session's file holds a record of that session.
abbrev pub IsFiled : Dir → Type 0
IsFiled dir =
    (session_id : Text) (r : SessionRecord)
    → read_record session_id dir ≡ ok (some r)
    → r.session_id ≡ session_id

pub record IsWellFormed (dir : Dir) : Type 0 where
  pub distinct : HasDistinctNames dir
  pub filed : IsFiled dir

lookup-insert_entry-none :
    (e : Entry) (name : Text) (dir : Dir)
    → text_eq e.name name ≡ false
    → lookup name dir ≡ none
    → lookup name (insert_entry e dir) ≡ none
unfolding lookup insert_entry
lookup-insert_entry-none e name [] h k = ground arith
lookup-insert_entry-none e name (d ∷ dir) h k =
    ground (arith, lookup-insert_entry-none e name dir h)

lookup-replace-none :
    (e : Entry) (name : Text) (dir : Dir)
    → lookup name dir ≡ none
    → lookup name (replace e dir) ≡ none
unfolding lookup replace
lookup-replace-none e name [] k = refl
lookup-replace-none e name (d ∷ dir) k = ground (
  arith,
  lookup-replace-none e name dir,
  text_eq_iff d.name e.name,
  text_eq_iff d.name name,
  text_eq_iff e.name name,
)

insert_entry-HasDistinctNames :
    (e : Entry) (dir : Dir)
    → lookup e.name dir ≡ none
    → HasDistinctNames dir
    → HasDistinctNames (insert_entry e dir)
unfolding lookup insert_entry
insert_entry-HasDistinctNames e [] h k = (refl, tt)
insert_entry-HasDistinctNames e (d ∷ dir) h (new, k) = ground (
  arith,
  insert_entry-HasDistinctNames e dir,
  lookup-insert_entry-none e d.name dir,
  text_eq_iff d.name e.name,
  text_eq_iff e.name d.name,
)

replace-HasDistinctNames :
    (e : Entry) (dir : Dir) → HasDistinctNames dir → HasDistinctNames (replace e dir)
unfolding lookup replace
replace-HasDistinctNames e [] k = tt
replace-HasDistinctNames e (d ∷ dir) (new, k) = ground (
  arith,
  replace-HasDistinctNames e dir k,
  lookup-replace-none e d.name dir new,
  text_eq_iff d.name e.name,
)

put-HasDistinctNames : (e : Entry) (dir : Dir) → HasDistinctNames dir → HasDistinctNames (put e dir)
unfolding put
put-HasDistinctNames e dir k = elim (Option-cases (lookup e.name dir)) [
  | inl new ↦ rw (new, put) (insert_entry-HasDistinctNames e dir new k)
  | inr (old, found) ↦ rw (found, put) (replace-HasDistinctNames e dir k)
]

write_record-HasDistinctNames :
    (env : Env) (r : SessionRecord) (dir : Dir)
    → HasDistinctNames dir
    → HasDistinctNames (write_record env r dir).0
unfolding write_record
write_record-HasDistinctNames env r dir h = ground (arith, put-HasDistinctNames (entry_of r) dir h)

write_record-IsFiled :
    (env : Env) (r : SessionRecord) (dir : Dir) → IsFiled dir → IsFiled (write_record env r dir).0
write_record-IsFiled env r dir h session_id s e = ground (
  arith,
  read_record-write_record env r session_id dir,
  text_eq_iff r.session_id session_id,
  h session_id s,
)

-- A write keeps a directory well formed.
pub write_record-IsWellFormed :
    (env : Env) (r : SessionRecord) (dir : Dir)
    → IsWellFormed dir
    → IsWellFormed (write_record env r dir).0
write_record-IsWellFormed env r dir h = record {
  distinct = write_record-HasDistinctNames env r dir h.distinct;
  filed = write_record-IsFiled env r dir h.filed;
}

lookup-remove-none :
    (path name : Text) (dir : Dir) → lookup name dir ≡ none → lookup name (remove path dir) ≡ none
unfolding lookup remove
lookup-remove-none path name [] h = refl
lookup-remove-none path name (d ∷ dir) h = ground (arith, lookup-remove-none path name dir)

remove-HasDistinctNames :
    (path : Text) (dir : Dir) → HasDistinctNames dir → HasDistinctNames (remove path dir)
unfolding remove
remove-HasDistinctNames path [] h = tt
remove-HasDistinctNames path (d ∷ dir) (new, h) =
    ground (arith, remove-HasDistinctNames path dir h, lookup-remove-none path d.name dir new)

lookup-remove_self :
    (name : Text) (dir : Dir) → HasDistinctNames dir → lookup name (remove name dir) ≡ none
unfolding lookup remove
lookup-remove_self name [] h = refl
lookup-remove_self name (d ∷ dir) (new, h) = ground (
  arith,
  lookup-remove_self name dir h,
  text_eq_iff d.name name,
  λ (e : d.name ≡ name). rw e at new,
)

-- A removal takes a file away or leaves it.
lookup-remove :
    (path name : Text) (dir : Dir)
    → HasDistinctNames dir
    → (lookup name (remove path dir) ≡ none) ⊎ (lookup name (remove path dir) ≡ lookup name dir)
lookup-remove path name dir h = elim (Bool-cases (text_eq path name)) [
  | inl same ↦ inl (rw ((text_eq_iff path name).0 same) (lookup-remove_self name dir h))
  | inr other ↦ inr (lookup-remove_ne path name dir (λ e. ground (arith, text_eq_iff path name)))
]

pub remove_collected-HasDistinctNames :
    (env : Env) (total i : ℕ) (ts : List Terminal) (dir : Dir)
    → HasDistinctNames dir
    → HasDistinctNames (remove_collected env total i ts dir).0
unfolding remove_collected
remove_collected-HasDistinctNames env total i [] dir h = h
remove_collected-HasDistinctNames env total i (t ∷ ts) dir h = ground (
  arith,
  remove_collected-HasDistinctNames env total (i + 1) ts dir h,
  remove_collected-HasDistinctNames env total (i + 1) ts (remove t.path dir)
      (remove-HasDistinctNames t.path dir h),
)

-- The sweep takes a file away or leaves it.
pub lookup-remove_collected :
    (env : Env) (total i : ℕ) (ts : List Terminal) (name : Text) (dir : Dir)
    → HasDistinctNames dir
    → (lookup name (remove_collected env total i ts dir).0 ≡ none)
      ⊎ (lookup name (remove_collected env total i ts dir).0 ≡ lookup name dir)
unfolding remove_collected
lookup-remove_collected env total i [] name dir h = inr refl
lookup-remove_collected env total i (t ∷ ts) name dir h = ground (
  arith,
  lookup-remove_collected env total (i + 1) ts name dir h,
  lookup-remove_collected env total (i + 1) ts name (remove t.path dir)
      (remove-HasDistinctNames t.path dir h),
  lookup-remove t.path name dir h,
)

-- The sweep leaves a file that it did not collect.
pub lookup-remove_collected_ne :
    (env : Env) (total i : ℕ) (ts : List Terminal) (name : Text) (dir : Dir)
    → All (λ t. t.path ≢ name) ts
    → lookup name (remove_collected env total i ts dir).0 ≡ lookup name dir
unfolding remove_collected
lookup-remove_collected_ne env total i [] name dir h = refl
lookup-remove_collected_ne env total i (t ∷ ts) name dir (ne, h) = ground (
  arith,
  lookup-remove_collected_ne env total (i + 1) ts name dir h,
  lookup-remove_collected_ne env total (i + 1) ts name (remove t.path dir) h,
  lookup-remove_ne t.path name dir ne,
)
