-- ===== src/ModTests/Ends.antt =====
-- What a run of a module's code guarantees of its result and of its error.
use yocto_layers.Common.{ℕ, Bool, true, false, ◌≡◌, refl, ◌∷◌, if◌then◌else◌}
use yocto_layers.ModTests.Kernel.{
  ℤ, pos, negsuc, Call, Env, Run, Out, ok, err, ◌>>=◌, ◌>>◌, settle, call,
}

pub data Ends {ℓ} {S : Type 0} {A : Type ℓ} (P : A → Run S → Type 0) (Q : ℤ → Run S → Type 0)
    : Out S A → Type ℓ where
  returns : {a : A} {t : Run S} → P a t → Ends P Q (ok a t)
  fails : {e : ℤ} {t : Run S} → Q e t → Ends P Q (err e t)

module _ {ℓ} {S : Type 0} {A : Type ℓ} {P : A → Run S → Type 0} {Q : ℤ → Run S → Type 0} where
  pub weaken-Ends :
      {P' : A → Run S → Type 0} {Q' : ℤ → Run S → Type 0} {o : Out S A}
      → Ends P Q o
      → ((a : A) (t : Run S) → P a t → P' a t)
      → ((e : ℤ) (t : Run S) → Q e t → Q' e t)
      → Ends P' Q' o
  weaken-Ends (returns h) f g = returns (f _ _ h)
  weaken-Ends (fails h) f g = fails (g _ _ h)

  pub if-Ends :
      (b : Bool) (m n : Run S → Out S A) (s : Run S)
      → (b ≡ true → Ends P Q (m s))
      → (b ≡ false → Ends P Q (n s))
      → Ends P Q ((if b then m else n) s)
  if-Ends true m n s p q = p refl
  if-Ends false m n s p q = q refl

  cleaned {κ} :
      {B : Type κ} (e : ℤ) {o : Out S B}
      → Ends (λ _ u. Q e u) (λ _ u. Q e u) o
      → Ends P Q (elim o [ ok b u ↦ err e u | err e' u ↦ err e u ])
  cleaned e (returns h) = fails h
  cleaned e (fails h) = fails h

  pub on_error-Ends :
      {Q' : ℤ → Run S → Type 0} {o : Out S A} (cleanup : Run S → Out S (Unit {0}))
      → Ends P Q' o
      → ((e : ℤ) (t : Run S) → Q' e t → Ends (λ _ u. Q e u) (λ _ u. Q e u) (cleanup t))
      → Ends P Q (elim o [
        | ok a t ↦ ok a t
        | err e t ↦ elim (cleanup t) [ ok b u ↦ err e u | err e' u ↦ err e u ]
      ])
  on_error-Ends cleanup (returns h) k = returns h
  on_error-Ends cleanup (fails h) k = cleaned _ (k _ _ h)

-- A call that returns at least 0, and one that returns a negative int.
module _ {κ} {S : Type 0} {B : Type κ} {R : B → Run S → Type 0} {Q : ℤ → Run S → Type 0}
    ⦃env : Env⦄ where
  settled :
      (r : ℤ) (f : ℤ → Run S → Out S B) (t : Run S)
      → ((n : ℕ) → r ≡ pos n → Ends R Q (f (pos n) t))
      → ((n : ℕ) → r ≡ negsuc n → Q (negsuc n) t)
      → Ends R Q (elim (settle r t) [ ok a u ↦ f a u | err e u ↦ err e u ])
  settled (pos n) f t g h = g n refl
  settled (negsuc n) f t g h = fails (h n refl)

  pub called-Ends :
      (c : Call) (f : ℤ → Run S → Out S B) (s : Run S)
      → ((n : ℕ)
          → env.answer (c ∷ s.calls) ≡ pos n
          → Ends R Q (f (pos n) (record s { calls = c ∷ s.calls })))
      → ((n : ℕ)
          → env.answer (c ∷ s.calls) ≡ negsuc n
          → Q (negsuc n) (record s { calls = c ∷ s.calls }))
      → Ends R Q ((call c >>= f) s)
  called-Ends c f s g h =
      settled (env.answer (c ∷ s.calls)) f (record s { calls = c ∷ s.calls }) g h

module _ {ℓ κ} {S : Type 0} {A : Type ℓ} {B : Type κ} {P : A → Run S → Type 0}
    {R : B → Run S → Type 0} {Q : ℤ → Run S → Type 0} where
  after :
      {o : Out S A} (f : A → Run S → Out S B)
      → Ends P Q o
      → ((a : A) (t : Run S) → P a t → Ends R Q (f a t))
      → Ends R Q (elim o [ ok a t ↦ f a t | err e t ↦ err e t ])
  after f (returns h) k = k _ _ h
  after f (fails h) k = fails h

  pub then-Ends :
      (m : Run S → Out S A) (n : Run S → Out S B) (s : Run S)
      → Ends P Q (m s)
      → ((a : A) (t : Run S) → P a t → Ends R Q (n t))
      → Ends R Q ((m >> n) s)
  then-Ends m n s h k = after (λ _. n) h k
