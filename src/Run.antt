-- ===== src/Run.antt =====
-- How a C function ends: it returns, an `assert` fails, or it crashes on an invalid access.
use znworkload.Prelude.{◌≡◌, refl, Bool, true, false, Option, none, some, List, [], ◌∷◌, arith}

pub data Run {ℓ} (A : Type ℓ) : Type ℓ where
  ok : A → Run A
  abort crash : Run A

infixl 5 ◌>>=◌ ◌>>◌
abbrev pub ◌>>=◌ {ℓ κ} : {A : Type ℓ} {B : Type κ} → Run A → (A → Run B) → Run B
ok a >>= f = f a
abort >>= f = abort
crash >>= f = crash

abbrev pub ◌>>◌ {ℓ} : {B : Type ℓ} → Run (Unit {0}) → Run B → Run B
m >> k = m >>= λ _. k

-- `assert(b)`
abbrev pub assert : Bool → Run (Unit {0})
assert true = ok tt
assert false = abort

-- A read through a pointer that may be NULL or out of bounds.
abbrev pub deref {ℓ} : {A : Type ℓ} → Option A → Run A
deref (some a) = ok a
deref none = crash

-- `g_queue_pop_head`, whose NULL on the empty queue every caller dereferences.
abbrev pub pop_head {ℓ} : {A : Type ℓ} → List A → Run (A × List A)
pop_head [] = crash
pop_head (x ∷ xs) = ok (x, xs)

-- The call returns, and what it returns satisfies `P`.
abbrev pub Returns {ℓ} : {A : Type ℓ} → (A → Type 0) → Run A → Type 0
Returns P (ok a) = P a
Returns P abort = ⊥
Returns P crash = ⊥

-- A call that returns, followed by one that returns whatever the first gave.
pub Returns-bind {ℓ κ} :
    {A : Type ℓ} {B : Type κ} (P : A → Type 0) (Q : B → Type 0) (f : A → Run B) (r : Run A)
    → Returns P r
    → ((a : A) → P a → Returns Q (f a))
    → Returns Q (r >>= f)
Returns-bind P Q f (ok a) h k = k a h
Returns-bind P Q f abort h k = h
Returns-bind P Q f crash h k = h

-- A call that returns, followed by one whose assertion fails whatever the first gave.
pub bind-abort {ℓ κ} :
    {A : Type ℓ} {B : Type κ} (P : A → Type 0) (f : A → Run B) (r : Run A)
    → Returns P r
    → ((a : A) → P a → f a ≡ abort)
    → (r >>= f) ≡ abort
bind-abort P f (ok a) h k = k a h
bind-abort P f abort h k = absurd h
bind-abort P f crash h k = absurd h

-- The value of a call that returns.
pub Returns-ok {ℓ} :
    {A : Type ℓ} (P : A → Type 0) (r : Run A) → Returns P r → (a : A) × (r ≡ ok a) × P a
Returns-ok P (ok a) h = (a, refl, h)
Returns-ok P abort h = absurd h
Returns-ok P crash h = absurd h

pub Returns-map {ℓ} :
    {A : Type ℓ} (P Q : A → Type 0) (r : Run A) → Returns P r → ((a : A) → P a → Q a) → Returns Q r
Returns-map P Q (ok a) h k = k a h
Returns-map P Q abort h k = h
Returns-map P Q crash h k = h

pub Returns-value {ℓ} :
    {A : Type ℓ} (P : A → Type 0) {r : Run A} {a : A} → r ≡ ok a → Returns P r → P a
Returns-value P e h = rw e at h

-- Both calls of a sequence that returns return.
pub bind-ok {ℓ κ} :
    {A : Type ℓ} {B : Type κ} (f : A → Run B) (r : Run A) (b : B)
    → (r >>= f) ≡ ok b
    → (a : A) × (r ≡ ok a) × (f a ≡ ok b)
bind-ok f (ok a) b e = (a, refl, e)
bind-ok f abort b e = absurd (ground arith)
bind-ok f crash b e = absurd (ground arith)
