-- ===== src/Workspace/Step.antt =====
-- Steps of a handler that read and write the workspace and may end it with a reply
-- (dev-agent/main.go), and the rule that a property of a sequence of steps is proved by.
use provider_infrastructure.Prelude.{ℕ, Bool, true, false, List, Option, none, some, ◌≡◌, refl}
use provider_infrastructure.Text.{Text}
use provider_infrastructure.Workspace.{Disk, Workspace}

-- `syncResponse`
pub record SyncResponse : Type 0 where
  pub changed : List Text
  pub deleted : List Text
  pub reload_runs : List Text
  pub restarted : Bool
  pub reload_error : Option Text
  pub source_revision : ℕ
  pub source_digest : Text

-- `workspaceMutateResponse`; `is_unchanged` tells the phases `Unchanged` and `Mutated` apart.
pub record MutateResponse : Type 0 where
  pub is_unchanged : Bool
  pub changed : List Text
  pub deleted : List Text
  pub restarted : Bool
  pub source_revision : ℕ
  pub source_digest : Text

-- The reply of a handler: an error with its status, or status 200 with a body.
pub data Reply : Type 0 where
  refused : ℕ → Reply
  synced : SyncResponse → Reply
  mutated : MutateResponse → Reply

pub data Outcome {ℓ} (A : Type ℓ) : Type ℓ where
  done : A → Outcome A
  stopped : Reply → Outcome A

abbrev pub Handling {ℓ} : Type ℓ → Type ℓ
Handling A = Workspace → Workspace × Outcome A

abbrev pub continue {ℓ κ} :
    {A : Type ℓ} {B : Type κ} → Workspace × Outcome A → (A → Handling B) → Workspace × Outcome B
continue (w, done a) k = k a w
continue (w, stopped r) k = (w, stopped r)

infixl 5 ◌>>=◌ ◌>>◌
unfoldable pub ◌>>=◌ {ℓ κ} : {A : Type ℓ} {B : Type κ} → Handling A → (A → Handling B) → Handling B
m >>= k = λ w. continue (m w) k

abbrev pub ◌>>◌ {ℓ κ} : {A : Type ℓ} {B : Type κ} → Handling A → Handling B → Handling B
m >> n = m >>= λ _. n

abbrev pub give {ℓ} : {A : Type ℓ} → A → Handling A
give a w = (w, done a)

abbrev pub stop {ℓ} : {A : Type ℓ} → Reply → Handling A
stop r w = (w, stopped r)

abbrev pub refuse {ℓ} : {A : Type ℓ} → ℕ → Handling A
refuse code = stop (refused code)

-- To go on if the test holds, and to refuse with the status if it does not.
abbrev pub require : Bool → ℕ → Handling (Unit {0})
require true code = give tt
require false code = refuse code

abbrev pub expect {ℓ} : {A : Type ℓ} → Option A → ℕ → Handling A
expect none code = refuse code
expect (some a) code = give a

abbrev pub workspace_now : Handling Workspace
workspace_now w = (w, done w)

-- A step on the files of the disk.
abbrev pub on_disk {ℓ} : {A : Type ℓ} → (Disk → Disk × A) → Handling A
on_disk f w = let (d, a) = f w.disk in (record w { disk = d }, done a)

-- What holds at the end of a step: `Q` where it goes on, `R` where it ends the handler.
abbrev pub Ends {ℓ} :
    {A : Type ℓ}
    → (A → Workspace → Type 0)
    → (Reply → Workspace → Type 0)
    → Workspace × Outcome A
    → Type 0
Ends Q R (w, done a) = Q a w
Ends Q R (w, stopped r) = R r w

-- From a workspace with `P`, the step ends as `Ends` says.
abbrev pub Triple {ℓ} :
    (Workspace → Type 0)
    → {A : Type ℓ} → Handling A
    → (A → Workspace → Type 0)
    → (Reply → Workspace → Type 0)
    → Type 0
Triple P m Q R = (w : Workspace) → P w → Ends Q R (m w)

module _ {ℓ κ} {A : Type ℓ} {B : Type κ} (R : Reply → Workspace → Type 0) where
  Ends-continue :
      (Q : A → Workspace → Type 0) (S : B → Workspace → Type 0) (k : A → Handling B)
      → ((a : A) → Triple (Q a) (k a) S R)
      → (o : Workspace × Outcome A) → Ends Q R o
      → Ends S R (continue o k)
  Ends-continue Q S k next (w, done a) e = next a w e
  Ends-continue Q S k next (w, stopped r) e = e

  -- The rule of a sequence.
  pub triple-bind :
      (P : Workspace → Type 0) (Q : A → Workspace → Type 0) (S : B → Workspace → Type 0)
      (m : Handling A) (k : A → Handling B)
      → Triple P m Q R
      → ((a : A) → Triple (Q a) (k a) S R)
      → Triple P (m >>= k) S R
  unfolding ◌>>=◌
  triple-bind P Q S m k first next w p = Ends-continue Q S k next (m w) (first w p)

-- Two properties of one step.
pub triple-and {ℓ} :
    {A : Type ℓ} (P P' : Workspace → Type 0) (Q Q' : A → Workspace → Type 0)
    (R R' : Reply → Workspace → Type 0) (m : Handling A)
    → Triple P m Q R
    → Triple P' m Q' R'
    → Triple (λ w. P w × P' w) m (λ a w. Q a w × Q' a w) (λ r w. R r w × R' r w)
triple-and P P' Q Q' R R' m t t' w (p, p') = both (m w) (t w p) (t' w p')
  where
    both :
        (o : Workspace × Outcome _)
        → Ends Q R o
        → Ends Q' R' o
        → Ends (λ a w. Q a w × Q' a w) (λ r w. R r w × R' r w) o
    both (w, done a) e e' = (e, e')
    both (w, stopped r) e e' = (e, e')

-- What follows from what holds at the end of a step.
pub triple-map {ℓ} :
    {A : Type ℓ} (P P' : Workspace → Type 0) (Q Q' : A → Workspace → Type 0)
    (R R' : Reply → Workspace → Type 0) (m : Handling A)
    → ((w : Workspace) → P' w → P w)
    → ((a : A) (w : Workspace) → Q a w → Q' a w)
    → ((r : Reply) (w : Workspace) → R r w → R' r w)
    → Triple P m Q R
    → Triple P' m Q' R'
triple-map P P' Q Q' R R' m before after final t w p = at (m w) (t w (before w p))
  where
    at : (o : Workspace × Outcome _) → Ends Q R o → Ends Q' R' o
    at (w, done a) e = after a w e
    at (w, stopped r) e = final r w e

module _ (P : Workspace → Type 0) (R : Reply → Workspace → Type 0) where
  -- After a test, it holds.
  pub require-tells :
      (test : Bool) (code : ℕ)
      → ((w : Workspace) → P w → R (refused code) w)
      → Triple P (require test code) (λ _ w. (test ≡ true) × P w) R
  require-tells true code refuses w p = (refl, p)
  require-tells false code refuses w p = refuses w p

  pub expect-tells :
      {A : Type 0} (option : Option A) (code : ℕ)
      → ((w : Workspace) → P w → R (refused code) w)
      → Triple P (expect option code) (λ a w. (option ≡ some a) × P w) R
  expect-tells none code refuses w p = refuses w p
  expect-tells (some a) code refuses w p = (refl, p)
