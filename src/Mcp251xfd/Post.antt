-- ===== src/Mcp251xfd/Post.antt =====
-- What a run of the driver's code guarantees. The outcome `stuck`, fuel used up, guarantees nothing,
-- so `Ends` says that the run comes to an end too.
use yocto_layers.Common.{
  Bool, true, false, if◌then◌else◌, Option, none, some, ◌≡◌, refl, subst, ◌∷◌,
}
use yocto_layers.Mcp251xfd.Monad.{
  Env, Drv, Out, ok, err, stuck, M, ◌>>=◌, ◌>>◌, call, attempt, when,
}
use yocto_layers.Mcp251xfd.State.{Errno, Call, Reply}

-- `P` holds of a result and `Q` of an error, and it is one of these.
pub data Ends {ℓ} {A : Type ℓ} (P : A → Drv → Type 0) (Q : Errno → Drv → Type 0)
    : Out A → Type ℓ where
  returns : {a : A} {t : Drv} → P a t → Ends P Q (ok a t)
  fails : {e : Errno} {t : Drv} → Q e t → Ends P Q (err e t)

pub when-Ends :
    {P : Unit {0} → Drv → Type 0} {Q : Errno → Drv → Type 0} (b : Bool) (m : M (Unit {0})) (s : Drv)
    → (b ≡ true → Ends P Q (m s))
    → (b ≡ false → P tt s)
    → Ends P Q (when b m s)
when-Ends true m s p q = p refl
when-Ends false m s p q = returns (q refl)

module _ {ℓ} {A : Type ℓ} {P : A → Drv → Type 0} {Q : Errno → Drv → Type 0} where
  pub weaken-Ends :
      {P' : A → Drv → Type 0} {Q' : Errno → Drv → Type 0} {o : Out A}
      → Ends P Q o
      → ((a : A) (t : Drv) → P a t → P' a t)
      → ((e : Errno) (t : Drv) → Q e t → Q' e t)
      → Ends P' Q' o
  weaken-Ends (returns h) f g = returns (f _ _ h)
  weaken-Ends (fails h) f g = fails (g _ _ h)

  pub if-Ends :
      (b : Bool) {x y : Out A}
      → (b ≡ true → Ends P Q x)
      → (b ≡ false → Ends P Q y)
      → Ends P Q (if b then x else y)
  if-Ends true p q = p refl
  if-Ends false p q = q refl

  pub choose-Ends :
      (b : Bool) (m n : M A) (s : Drv)
      → (b ≡ true → Ends P Q (m s))
      → (b ≡ false → Ends P Q (n s))
      → Ends P Q ((if b then m else n) s)
  choose-Ends true m n s p q = p refl
  choose-Ends false m n s p q = q refl

  after {κ} :
      {B : Type κ} {R : B → Drv → Type 0} {o : Out A} (f : A → M B)
      → Ends P Q o
      → ((a : A) (t : Drv) → P a t → Ends R Q (f a t))
      → Ends R Q (elim o [ ok a t ↦ f a t | err e t ↦ err e t | stuck ↦ stuck ])
  after f (returns h) k = k _ _ h
  after f (fails h) k = fails h

  pub bind-Ends {κ} :
      {B : Type κ} {R : B → Drv → Type 0} (m : M A) (f : A → M B) (s : Drv)
      → Ends P Q (m s)
      → ((a : A) (t : Drv) → P a t → Ends R Q (f a t))
      → Ends R Q ((m >>= f) s)
  bind-Ends m f s h k = after f h k

  pub then-Ends {κ} :
      {B : Type κ} {R : B → Drv → Type 0} (m : M A) (n : M B) (s : Drv)
      → Ends P Q (m s)
      → ((a : A) (t : Drv) → P a t → Ends R Q (n t))
      → Ends R Q ((m >> n) s)
  then-Ends m n s h k = after (λ a. n) h k

-- Code whose error is kept or dropped.
module _ {ℓ} {A : Type ℓ} {I : Drv → Type 0} {Q' : Errno → Drv → Type 0} where
  kept :
      {o : Out A}
      → Ends (λ _ t. I t) (λ _ t. I t) o
      → Ends
          (λ _ t. I t)
          Q'
          (elim o [ ok a t ↦ ok none t | err e t ↦ ok (some e) t | stuck ↦ stuck ])
  kept (returns h) = returns h
  kept (fails h) = returns h

  pub attempt-Ends :
      (m : M A) (s : Drv)
      → Ends (λ _ t. I t) (λ _ t. I t) (m s)
      → Ends (λ _ t. I t) Q' (attempt m s)
  attempt-Ends m s h = kept h

-- A call ends well or with the error of its reply, and is recorded.
module _ ⦃env : Env⦄ {P : Reply → Drv → Type 0} {Q : Errno → Drv → Type 0} where
  settle-Ends :
      (r : Reply) (x : Option Errno) (t : Drv)
      → (x ≡ none → P r t)
      → ((e : Errno) → x ≡ some e → Q e t)
      → Ends P Q (elim x [ none ↦ ok r t | some e ↦ err e t ])
  settle-Ends r none t f g = returns (f refl)
  settle-Ends r (some e) t f g = fails (g e refl)

  pub call-Ends :
      (c : Call) (s : Drv)
      → ((env.answer (c ∷ s.calls)).err ≡ none
          → P (env.answer (c ∷ s.calls)) (record s { calls = c ∷ s.calls }))
      → ((e : Errno)
          → (env.answer (c ∷ s.calls)).err ≡ some e
          → Q e (record s { calls = c ∷ s.calls }))
      → Ends P Q (call c s)
  call-Ends c s f g =
      let r = env.answer (c ∷ s.calls) in settle-Ends r r.err (record s { calls = c ∷ s.calls }) f g

-- The code after a call whose error it looks at.
module _ {κ} {B : Type κ} {R : B → Drv → Type 0} {Q : Errno → Drv → Type 0} ⦃env : Env⦄ where
  attempted :
      (r : Reply) (x : Option Errno) (f : Option Errno → M B) (t : Drv)
      → Ends R Q (f none t)
      → ((e : Errno) → Ends R Q (f (some e) t))
      → Ends R Q
          (((attempt {A = Reply} (λ _. elim x [ none ↦ ok r t | some e ↦ err e t ])) >>= f) t)
  attempted r none f t p q = p
  attempted r (some e) f t p q = q e

  pub attempt-call-Ends :
      (c : Call) (f : Option Errno → M B) (s : Drv)
      → Ends R Q (f none (record s { calls = c ∷ s.calls }))
      → ((e : Errno) → Ends R Q (f (some e) (record s { calls = c ∷ s.calls })))
      → Ends R Q ((attempt (call c) >>= f) s)
  attempt-call-Ends c f s =
      let r = env.answer (c ∷ s.calls) in attempted r r.err f (record s { calls = c ∷ s.calls })

  answered :
      (r : Reply) (x : Option Errno) (f : Reply → M B) (t : Drv)
      → (x ≡ none → Ends R Q (f r t))
      → ((e : Errno) → x ≡ some e → Q e t)
      → Ends R Q (((λ _. elim x [ none ↦ ok r t | some e ↦ err e t ]) >>= f) t)
  answered r none f t p q = p refl
  answered r (some e) f t p q = fails (q e refl)

  pub called-Ends :
      (c : Call) (f : Reply → M B) (s : Drv)
      → ((env.answer (c ∷ s.calls)).err ≡ none
          → Ends R Q (f (env.answer (c ∷ s.calls)) (record s { calls = c ∷ s.calls })))
      → ((e : Errno)
          → (env.answer (c ∷ s.calls)).err ≡ some e
          → Q e (record s { calls = c ∷ s.calls }))
      → Ends R Q ((call c >>= f) s)
  called-Ends c f s =
      let r = env.answer (c ∷ s.calls) in answered r r.err f (record s { calls = c ∷ s.calls })

-- What holds of a run if it succeeds.
module _ {ℓ} {A : Type ℓ} (P : A → Drv → Type 0) where
  abbrev pub OnSuccess : Out A → Type 0
  OnSuccess o = elim o [ ok a t ↦ P a t | err e t ↦ Unit {0} | stuck ↦ Unit {0} ]

  pub if-OnSuccess :
      (b : Bool) (m n : M A) (s : Drv)
      → (b ≡ true → OnSuccess (m s))
      → (b ≡ false → OnSuccess (n s))
      → OnSuccess ((if b then m else n) s)
  if-OnSuccess true m n s p q = p refl
  if-OnSuccess false m n s p q = q refl

  pub either-OnSuccess :
      (b : Bool) (x y : Out A) → OnSuccess x → OnSuccess y → OnSuccess (if b then x else y)
  either-OnSuccess true x y p q = p
  either-OnSuccess false x y p q = q

  pub success-OnSuccess : {Q : Errno → Drv → Type 0} {o : Out A} → Ends P Q o → OnSuccess o
  success-OnSuccess (returns h) = h
  success-OnSuccess (fails h) = tt

  pub at_result : {o : Out A} {a : A} {t : Drv} → OnSuccess o → o ≡ ok a t → P a t
  at_result h e = subst OnSuccess e h

  pub returned :
      {Q : Errno → Drv → Type 0} {o : Out A} {a : A} {t : Drv} → Ends P Q o → o ≡ ok a t → P a t
  returned h e = at_result (success-OnSuccess h) e

  pub after-OnSuccess {κ} :
      {B : Type κ} (o : Out B) (f : B → M A)
      → ((b : B) (t : Drv) → OnSuccess (f b t))
      → OnSuccess (elim o [ ok b t ↦ f b t | err e t ↦ err e t | stuck ↦ stuck ])
  after-OnSuccess (ok b t) f k = k b t
  after-OnSuccess (err e t) f k = tt
  after-OnSuccess stuck f k = tt

module _ {ℓ κ} {A : Type ℓ} {B : Type κ} (P : A → Drv → Type 0) (R : B → Drv → Type 0) where
  pub next-OnSuccess :
      (o : Out B) (f : B → M A)
      → OnSuccess R o
      → ((b : B) (t : Drv) → R b t → OnSuccess P (f b t))
      → OnSuccess P (elim o [ ok b t ↦ f b t | err e t ↦ err e t | stuck ↦ stuck ])
  next-OnSuccess (ok b t) f r k = k b t r
  next-OnSuccess (err e t) f r k = tt
  next-OnSuccess stuck f r k = tt

-- The code after a call, and after a call whose error it looks at.
module _ {ℓ} {A : Type ℓ} (P : A → Drv → Type 0) ⦃env : Env⦄ where
  past_settle :
      (r : Reply) (x : Option Errno) (f : Reply → M A) (t : Drv)
      → OnSuccess P (f r t)
      → OnSuccess P
          (((λ (_ : Drv). elim x as (λ _. Out Reply) [ none ↦ ok r t | some e ↦ err e t ]) >>= f) t)
  past_settle r none f t h = h
  past_settle r (some e) f t h = tt

  pub called-OnSuccess :
      (c : Call) (f : Reply → M A) (s : Drv)
      → OnSuccess P (f (env.answer (c ∷ s.calls)) (record s { calls = c ∷ s.calls }))
      → OnSuccess P ((call c >>= f) s)
  called-OnSuccess c f s h =
      past_settle (env.answer (c ∷ s.calls)) (env.answer (c ∷ s.calls)).err f
        (record s { calls = c ∷ s.calls }) h

  past_good :
      (r : Reply) (x : Option Errno) (f : Reply → M A) (t : Drv)
      → (x ≡ none → OnSuccess P (f r t))
      → OnSuccess P
          (((λ (_ : Drv). elim x as (λ _. Out Reply) [ none ↦ ok r t | some e ↦ err e t ]) >>= f) t)
  past_good r none f t h = h refl
  past_good r (some e) f t h = tt

  -- The same where it counts that the call has succeeded.
  pub granted-OnSuccess :
      (c : Call) (f : Reply → M A) (s : Drv)
      → ((env.answer (c ∷ s.calls)).err ≡ none
          → OnSuccess P (f (env.answer (c ∷ s.calls)) (record s { calls = c ∷ s.calls })))
      → OnSuccess P ((call c >>= f) s)
  granted-OnSuccess c f s h =
      past_good (env.answer (c ∷ s.calls)) (env.answer (c ∷ s.calls)).err f
        (record s { calls = c ∷ s.calls }) h

  past_attempt :
      (r : Reply) (x : Option Errno) (f : Option Errno → M A) (t : Drv)
      → ((y : Option Errno) → x ≡ y → OnSuccess P (f y t))
      → OnSuccess P
          (((attempt {A = Reply} (λ _. elim x [ none ↦ ok r t | some e ↦ err e t ])) >>= f) t)
  past_attempt r none f t h = h none refl
  past_attempt r (some e) f t h = h (some e) refl

  pub attempt-OnSuccess :
      (c : Call) (f : Option Errno → M A) (s : Drv)
      → ((y : Option Errno)
          → (env.answer (c ∷ s.calls)).err ≡ y
          → OnSuccess P (f y (record s { calls = c ∷ s.calls })))
      → OnSuccess P ((attempt (call c) >>= f) s)
  attempt-OnSuccess c f s h =
      past_attempt (env.answer (c ∷ s.calls)) (env.answer (c ∷ s.calls)).err f
        (record s { calls = c ∷ s.calls }) h

-- What an end and a success guarantee together.
pub both-Ends {ℓ} :
    {A : Type ℓ} {P : A → Drv → Type 0} {Q : Errno → Drv → Type 0} (R : A → Drv → Type 0)
    {o : Out A}
    → Ends P Q o
    → OnSuccess R o
    → Ends (λ a t. P a t × R a t) Q o
both-Ends R (returns h) r = returns (h, r)
both-Ends R (fails h) r = fails h

pub when-OnSuccess :
    (P : Drv → Type 0) (b : Bool) (m : M (Unit {0})) (s : Drv)
    → P s
    → OnSuccess (λ _ t. P t) (m s)
    → OnSuccess (λ _ t. P t) (when b m s)
when-OnSuccess P true m s p h = h
when-OnSuccess P false m s p h = p
