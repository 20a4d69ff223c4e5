-- ===== src/Base/Memory.antt =====
-- Memory and tables as total functions, written one place at a time or by a counted loop.
use Prim.Native.Nat.{ℕ, zero, suc}
use mathlib.Core.Path.{subst, ◌≡◌, refl, sym, ap, ◌∙◌, fun_ext}
use native.Mathlib.Decide.{ℕ_discrete}
use mathlib.Core.Logic.{◌≢◌}
use native.Mathlib.Omega.{arith}
use ece391_kernel.Base.Tests.{◌==◌, ltb, if◌then◌else◌}

module _ {ℓ} {A : Type ℓ} where
  -- `m[i] = a`
  unfoldable pub update : (ℕ → A) → ℕ → A → ℕ → A
  update m i a j = if j == i then a else m j

  pub update_self : (m : ℕ → A) (i : ℕ) (a : A) → update m i a i ≡ a
  unfolding update
  update_self m i a = ground arith

  pub update-ne : (m : ℕ → A) {i j : ℕ} (a : A) → j ≢ i → update m i a j ≡ m j
  unfolding update
  update-ne m a h = ground arith

  -- The second of two writes to one place stays.
  pub update-update : (m : ℕ → A) (i : ℕ) (a b : A) → update (update m i a) i b ≡ update m i b
  update-update m i a b = fun_ext (λ j. elim (ℕ_discrete j i) [
    | yes e ↦ rw (e, update_self (update m i a) i b, update_self m i b) refl
    | no ne ↦ update-ne (update m i a) b ne ∙ update-ne m a ne ∙ sym (update-ne m b ne)
  ])

  -- A place that is written, read and changed.
  pub update-change :
      (m : ℕ → A) (i : ℕ) (a : A) (f : A → A)
      → update (update m i a) i (f (update m i a i)) ≡ update m i (f a)
  update-change m i a f = rw (update_self m i a) (update-update m i a (f a))

  -- What does not tell the new value from the old one does not see the write.
  pub update-keeps {ℓ'} :
      {B : Type ℓ'} (m : ℕ → A) (i : ℕ) (a : A) (f : A → B)
      → f a ≡ f (m i)
      → (j : ℕ) → f (update m i a j) ≡ f (m j)
  update-keeps m i a f same j = elim (ℕ_discrete j i) [
    | yes e ↦
        ap (λ x. f (update m i a x)) e ∙ ap f (update_self m i a) ∙ same ∙ sym (ap (λ x. f (m x)) e)
    | no ne ↦ ap f (update-ne m a ne)
  ]

  -- What holds of the new value and of an old one holds after the write.
  pub update-rest {ℓ'} :
      (m : ℕ → A) (i : ℕ) (a : A) (P : A → Type ℓ') → P a → (j : ℕ) → P (m j) → P (update m i a j)
  update-rest m i a P new j old = elim (ℕ_discrete j i) [
    | yes e ↦ subst P (sym (ap (update m i a) e ∙ update_self m i a)) new
    | no ne ↦ subst P (sym (update-ne m a ne)) old
  ]

  -- `for (i = 0; i < n; i++) m[i] = e(i);`
  unfoldable pub fill : ℕ → (ℕ → A) → (ℕ → A) → ℕ → A
  fill zero e m = m
  fill (suc n) e m = update (fill n e m) n (e n)

  pub fill_lem : (n : ℕ) (e m : ℕ → A) (j : ℕ) → fill n e m j ≡ (if ltb j n then e j else m j)
  unfolding fill update
  fill_lem zero e m j = ground arith
  fill_lem (suc n) e m j = ground (arith, fill_lem n e m j, ap e {x = j} {y = n})
