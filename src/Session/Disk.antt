-- ===== src/Session/Disk.antt =====
-- Reading and writing the record directory: `readRecord`, `writeRecord`, `findByRequest`,
-- `recordCount` and the scan and removals of `gcLocked`. The faults of the file system are an
-- argument.
pub mod Laws
pub mod WellFormed
pub mod Sweep
use provider_infrastructure.Prelude.{
  ℕ, suc, ◌+◌, ◌-◌, Bool, true, false, ◌&&◌, ◌||◌, List, [], ◌∷◌, Option, none, some, ltb, length,
  if◌then◌else◌,
}
use provider_infrastructure.Text.{Text, text_eq}
use provider_infrastructure.Session.{
  worker_terminal, SessionRecord, Content, directory, session, unreadable, Entry, Dir, lookup, put,
  remove, record_name, session_file,
}

-- `workerHTTPError` with its status, or any other error.
pub data Error : Type 0 where
  http : ℕ → Error
  internal : Error

pub data Result {ℓ} (A : Type ℓ) : Type ℓ where
  ok : A → Result A
  err : Error → Result A

infixl 5 ◌>>=◌
abbrev pub ◌>>=◌ {ℓ κ} : {A : Type ℓ} {B : Type κ} → Result A → (A → Result B) → Result B
ok a >>= f = f a
err e >>= f = err e

-- How a durable write ends: done; failed before the rename; failed in the sync after it.
pub data Write : Type 0 where
  written unwritten unsynced : Write

-- The listings of the directory that an operation makes.
pub data Scan : Type 0 where
  gc_scan request_scan count_scan recovery_scan : Scan

-- The clock and the faults that one operation meets.
pub record Env : Type 0 where
  pub now : ℕ
  pub listing_fails : Scan → Bool
  pub write : Text → Write
  pub removal_fails : Text → Bool

abbrev pub retention : ℕ
retention = 600_000_000_000

abbrev pub capacity : ℕ
capacity = 128

abbrev pub decode : Option Content → Result (Option SessionRecord)
decode none = ok none
decode (some (session r)) = ok (some r)
decode (some directory) = err internal
decode (some unreadable) = err internal

-- `readRecord`
unfoldable pub read_record : Text → Dir → Result (Option SessionRecord)
read_record session_id dir = decode (lookup (record_name session_id) dir)

abbrev pub entry_of : SessionRecord → Entry
entry_of r = record { name = record_name r.session_id; content = session r }

abbrev pub after_write : Write → SessionRecord → Dir → Dir × Bool
after_write written r dir = (put (entry_of r) dir, true)
after_write unwritten r dir = (dir, false)
after_write unsynced r dir = (put (entry_of r) dir, false)

-- `writeRecord`: the directory afterwards, and whether it returned no error.
unfoldable pub write_record : Env → SessionRecord → Dir → Dir × Bool
write_record env r dir = after_write (env.write r.session_id) r dir

-- `os.ReadDir` under a fault.
abbrev pub read_dir : Env → Scan → Dir → Result Dir
read_dir env scan dir = if env.listing_fails scan then err internal else ok dir

-- The loop of `recordCount`.
unfoldable pub count_files : Dir → ℕ
count_files [] = 0
count_files (e ∷ es) = let n = count_files es in elim (session_file e) [ none ↦ n | some _ ↦ suc n ]

abbrev pub is_request : Text → Text → SessionRecord → Bool
is_request caller_key request_id r =
    text_eq r.caller_key caller_key && text_eq r.request_id request_id

-- A round of `findByRequest` at a session file: the record that was read, and the later rounds.
abbrev pub first_match :
    Text
    → Text
    → Option SessionRecord
    → Result (Option SessionRecord)
    → Result (Option SessionRecord)
first_match caller_key request_id none rest = rest
first_match caller_key request_id (some r) rest =
    if is_request caller_key request_id r then ok (some r) else rest

-- The loop of `findByRequest` over the entries; records are read from `dir`.
unfoldable pub find_by_request : Text → Text → Dir → Dir → Result (Option SessionRecord)
unfolding read_record
find_by_request caller_key request_id dir [] = ok none
find_by_request caller_key request_id dir (e ∷ es) =
    let rest = find_by_request caller_key request_id dir es in
    elim (session_file e) [
      | none ↦ rest
      | some session_id ↦
          read_record session_id dir >>= λ found. first_match caller_key request_id found rest
    ]

-- `terminalRecord`
pub record Terminal : Type 0 where
  pub path : Text
  pub at : ℕ

abbrev pub terminal_of : SessionRecord → Terminal
terminal_of r = record { path = record_name r.session_id; at = r.updated_at }

-- A round of the first loop of `gcLocked` at a session file.
abbrev pub add_terminal : Option SessionRecord → Result (List Terminal) → Result (List Terminal)
add_terminal none rest = rest
add_terminal (some r) rest =
    if worker_terminal r.result.state then rest >>= (λ ts. ok (terminal_of r ∷ ts)) else rest

-- The first loop of `gcLocked`: the terminal records, in the order of the directory.
unfoldable pub collect : Dir → Dir → Result (List Terminal)
unfolding read_record
collect dir [] = ok []
collect dir (e ∷ es) =
    let rest = collect dir es in
    elim (session_file e) [
      | none ↦ rest
      | some session_id ↦ read_record session_id dir >>= λ found. add_terminal found rest
    ]

unfoldable pub insert : Terminal → List Terminal → List Terminal
insert t [] = t ∷ []
insert t (u ∷ us) = if ltb u.at t.at then u ∷ insert t us else t ∷ u ∷ us

-- `sort.Slice` by the time of the last update, oldest first; equal times keep their order here.
unfoldable pub sort : List Terminal → List Terminal
unfolding insert
sort [] = []
sort (t ∷ ts) = insert t (sort ts)

-- `record.at.Before(now.Add(-execSessionRetention)) || len(entries)-i > execSessionCapacity`
abbrev pub is_collected : Env → ℕ → ℕ → Terminal → Bool
is_collected env total i t = ltb (t.at + retention) env.now || ltb capacity (total - i)

-- The second loop of `gcLocked`, from index `i`: the directory, and whether no removal failed.
unfoldable pub remove_collected : Env → ℕ → ℕ → List Terminal → Dir → Dir × Bool
unfolding remove
remove_collected env total i [] dir = (dir, true)
remove_collected env total i (t ∷ ts) dir =
    let kept = remove_collected env total (i + 1) ts dir in
    let rest = remove_collected env total (i + 1) ts (remove t.path dir) in
    if is_collected env total i t
    then if env.removal_fails t.path then (dir, false) else rest
    else kept

abbrev pub sweep : Env → ℕ → Result (List Terminal) → Dir → Dir × Bool
sweep env total (ok ts) dir = remove_collected env total 0 (sort ts) dir
sweep env total (err e) dir = (dir, false)

-- `gcLocked`: the directory afterwards, and whether it returned no error.
unfoldable pub gc : Env → Dir → Dir × Bool
unfolding collect sort remove_collected
gc env dir =
    if env.listing_fails gc_scan then (dir, false) else sweep env (length dir) (collect dir dir) dir
