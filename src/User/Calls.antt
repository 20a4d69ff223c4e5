-- ===== src/User/Calls.antt =====
-- System calls that may also fault or wait for ever, and programs of such calls.
use ece391_kernel.Base.{ℕ, ◌≡◌, refl, List}
use ece391_kernel.Base.Int.{ℤ}
use ece391_kernel.Text.{strlen}
use ece391_kernel.State.{Outcome, done, fault, blocked}

abbrev pub M : Type 0 → Type 0 → Type 0
M S A = S → Outcome (A × S)

abbrev pub bind : {S A B : Type 0} → Outcome (A × S) → (A → M S B) → Outcome (B × S)
bind (done r) f = f r.0 r.1
bind fault f = fault
bind blocked f = blocked

infixl 5 ◌>>=◌ ◌>>◌
abbrev pub ◌>>=◌ : {S A B : Type 0} → M S A → (A → M S B) → M S B
◌>>=◌ m f s = bind (m s) f

abbrev pub ◌>>◌ : {S A B : Type 0} → M S A → M S B → M S B
m >> k = m >>= λ _. k

abbrev pub pure : {S A : Type 0} → A → M S A
pure a s = done (a, s)

-- `read` gives the bytes that it stores; `vidmap` takes an address; `call` is `int 0x80` with a number.
pub record Calls (S : Type 0) : Type 0 where
  pub open_file : List ℕ → M S ℤ
  pub read : (fd : ℤ) (nbytes : ℕ) → M S (ℤ × List ℕ)
  pub write : (fd : ℤ) (buf : List ℕ) (nbytes : ℕ) → M S ℤ
  pub close : (fd : ℤ) → M S ℤ
  pub vidmap : (screen_start : ℕ) → M S ℤ
  pub call : (num : ℤ) → M S ℤ

-- `ece391_fdputs`, which drops the result of `ece391_write`.
unfoldable pub fdputs : {S : Type 0} → Calls S → (fd : ℤ) (string : List ℕ) → M S ℤ
fdputs os fd string = os.write fd string (strlen string)

-- The call returns, and what it returns and the state after it have a property.
abbrev pub Returns : {S A : Type 0} → Outcome (A × S) → (A → S → Type 0) → Type 0
Returns (done r) P = P r.0 r.1
Returns fault P = ⊥
Returns blocked P = ⊥

pub Returns-bind :
    {S A B : Type 0} (o : Outcome (A × S)) (f : A → M S B) (P : A → S → Type 0) (Q : B → S → Type 0)
    → Returns o P
    → ((a : A) (s : S) → P a s → Returns (f a s) Q)
    → Returns (bind o f) Q
Returns-bind (done r) f P Q h next = next r.0 r.1 h
Returns-bind fault f P Q h next = absurd h
Returns-bind blocked f P Q h next = absurd h

pub Returns-done :
    {S A : Type 0} (o : Outcome (A × S)) (P : A → S → Type 0)
    → Returns o P
    → (a : A) × (s : S) × (o ≡ done (a, s)) × P a s
Returns-done (done r) P h = (r.0, r.1, refl, h)
Returns-done fault P h = absurd h
Returns-done blocked P h = absurd h
