-- ===== src/Session/Disk/Laws.antt =====
-- Laws of the record directory: what a write or a removal does to a later read.
use mathlib.Core.List.{append_cancel_right}
use provider_infrastructure.Prelude.{
  ◌⊎◌, ◌≡◌, refl, ap, ◌≢◌, Bool, true, false, Option-cases, inl, inr, [], ◌∷◌, none, some,
  if◌then◌else◌, arith,
}
use provider_infrastructure.Text.{Text, text_eq, cut_suffix}
use provider_infrastructure.Text.Laws.{text_eq_iff, append-cut_suffix}
use provider_infrastructure.Session.{
  SessionRecord, Content, Entry, Dir, is_directory, lookup, insert_entry, replace, put, remove,
  json_suffix, record_name, session_file,
}
use provider_infrastructure.Session.Disk.{
  Error, Result, err, ok, Env, Write, written, unwritten, read_record, write_record, entry_of,
}

lookup-insert_entry :
    (e : Entry) (name : Text) (dir : Dir)
    → lookup e.name dir ≡ none
    → lookup name (insert_entry e dir)
      ≡ (if text_eq e.name name then some e.content else lookup name dir)
unfolding lookup insert_entry
lookup-insert_entry e name [] h = refl
lookup-insert_entry e name (d ∷ dir) h = ground (
  arith,
  lookup-insert_entry e name dir,
  text_eq_iff d.name e.name,
  text_eq_iff e.name name,
  text_eq_iff d.name name,
)

lookup-replace :
    (e : Entry) (name : Text) (dir : Dir) {old : Content}
    → lookup e.name dir ≡ some old
    → lookup name (replace e dir)
      ≡ (if text_eq e.name name then some e.content else lookup name dir)
unfolding lookup replace
lookup-replace e name [] h = cc
lookup-replace e name (d ∷ dir) {old} h = ground (
  arith,
  lookup-replace e name dir {old = old},
  text_eq_iff d.name e.name,
  text_eq_iff e.name name,
  text_eq_iff d.name name,
)

pub lookup-put :
    (e : Entry) (name : Text) (dir : Dir)
    → lookup name (put e dir) ≡ (if text_eq e.name name then some e.content else lookup name dir)
unfolding put
lookup-put e name dir = elim (Option-cases (lookup e.name dir)) [
  | inl new ↦ rw (new, put) (lookup-insert_entry e name dir new)
  | inr (old, found) ↦ rw (found, put) (lookup-replace e name dir found)
]

-- A removal leaves the files of other names.
pub lookup-remove_ne :
    (path name : Text) (dir : Dir) → path ≢ name → lookup name (remove path dir) ≡ lookup name dir
unfolding lookup remove
lookup-remove_ne path name [] h = refl
lookup-remove_ne path name (d ∷ dir) h =
    ground
      (arith, lookup-remove_ne path name dir h, text_eq_iff d.name path, text_eq_iff d.name name)

pub record_name_injective : (s t : Text) → record_name s ≡ record_name t → s ≡ t
unfolding record_name
record_name_injective s t e = append_cancel_right s t json_suffix e

-- The names of two sessions' files are equal as the sessions are.
text_eq-record_name : (s t : Text) → text_eq (record_name s) (record_name t) ≡ text_eq s t
text_eq-record_name s t = ground (
  arith,
  text_eq_iff s t,
  text_eq_iff (record_name s) (record_name t),
  record_name_injective s t,
  λ (e : s ≡ t). ap record_name e,
)

pub name-session_file :
    (e : Entry) {session_id : Text}
    → session_file e ≡ some session_id
    → e.name ≡ record_name session_id
unfolding session_file record_name
name-session_file e {session_id} h =
    append-cut_suffix e.name json_suffix (cut_of (is_directory e.content) h)
  where
    cut_of :
        (b : Bool)
        → (if b then none else cut_suffix e.name json_suffix) ≡ some session_id
        → cut_suffix e.name json_suffix ≡ some session_id
    cut_of true h = cc
    cut_of false h = h

abbrev pub is_written : Write → Bool
is_written written = true
is_written _ = false

abbrev pub is_renamed : Write → Bool
is_renamed unwritten = false
is_renamed _ = true

-- What a write does to a later read of a session's record, and what it returns.
pub read_record-write_record :
    (env : Env) (r : SessionRecord) (session_id : Text) (dir : Dir)
    → read_record session_id (write_record env r dir).0 ≡ (
        if text_eq r.session_id session_id
        then if is_renamed (env.write r.session_id) then ok (some r) else read_record session_id dir
        else read_record session_id dir)
unfolding read_record write_record
read_record-write_record env r session_id dir = ground (
  arith,
  lookup-put (entry_of r) (record_name session_id) dir,
  text_eq-record_name r.session_id session_id,
)

pub write_record-done :
    (env : Env) (r : SessionRecord) (dir : Dir)
    → (write_record env r dir).1 ≡ is_written (env.write r.session_id)
unfolding write_record
write_record-done env r dir = ground arith

-- A sum that keeps the equation of a computed result.
pub Result-cases {ℓ} :
    {A : Type ℓ} (x : Result A) → ((a : A) × (x ≡ ok a)) ⊎ ((e : Error) × (x ≡ err e))
Result-cases (ok a) = inl (a, refl)
Result-cases (err e) = inr (e, refl)
