-- ===== src/Mcp251xfd/Does.antt =====
-- What code does to the driver's state: from a state in `I` it comes to an end, in `J` when it
-- succeeds and in `K` when it fails. One lemma for each way in which the driver composes its code.
use yocto_layers.Common.{
  Bool, true, false, if◌then◌else◌, Option, none, some, ◌∷◌, ◌≡◌, refl, sym, subst,
}
use yocto_layers.Mcp251xfd.Monad.{
  Env, Drv, Out, ok, err, stuck, M, pure, raise, ◌>>=◌, ◌>>◌, attempt, on_error, on_error_by,
  failing_with, return, get, modify, when, ask, call, call_, tell,
}
use yocto_layers.Mcp251xfd.State.{Errno, Call, Reply, Priv}
use yocto_layers.Mcp251xfd.Post.{Ends, returns, fails, weaken-Ends}

pub record Does {ℓ} {A : Type ℓ} (I J K : Drv → Type 0) (m : M A) : Type ℓ where
  pub runs : (s : Drv) → I s → Ends (λ _ t. J t) (λ _ t. K t) (m s)

abbrev pub Keeps {ℓ} : {A : Type ℓ} → (Drv → Type 0) → M A → Type ℓ
Keeps I m = Does I I I m

module _ {I : Drv → Type 0} where
  pub return-Does : (x : Option Errno) → Does I I I (return x)
  return-Does none = record { runs = λ s h. returns h }
  return-Does (some e) = record { runs = λ s h. fails h }

module _ {I K : Drv → Type 0} where
  pub pure-Does {ℓ} : {A : Type ℓ} (a : A) → Does I I K (pure a)
  pure-Does a = record { runs = λ s h. returns h }

  pub raise-Does {ℓ} : {A : Type ℓ} (e : Errno) → Does K I K (raise {A = A} e)
  raise-Does e = record { runs = λ s h. fails h }

  pub get-Does : Does I I K get
  get-Does = record { runs = λ s h. returns h }

  pub when-Does : (b : Bool) {m : M (Unit {0})} → Does I I K m → Does I I K (when b m)
  when-Does true k = k
  when-Does false k = record { runs = λ s h. returns h }

module _ {I J K : Drv → Type 0} where
  pub modify-Does :
      (f : Priv → Priv)
      → ((s : Drv) → I s → J (record s { priv = f s.priv }))
      → Does I J K (modify f)
  modify-Does f k = record { runs = λ s h. returns (k s h) }

  pub if-Does {ℓ} :
      {A : Type ℓ} (b : Bool) {m n : M A}
      → Does I J K m
      → Does I J K n
      → Does I J K (if b then m else n)
  if-Does true k l = k
  if-Does false k l = l

  pub weaken-Does {ℓ} :
      {A : Type ℓ} {I' J' K' : Drv → Type 0} {m : M A}
      → Does I J K m
      → ((s : Drv) → I' s → I s)
      → ((s : Drv) → J s → J' s)
      → ((s : Drv) → K s → K' s)
      → Does I' J' K' m
  weaken-Does k f g l = record {
    runs = λ s h. weaken-Ends (k.runs s (f s h)) (λ _ t i. g t i) (λ _ t i. l t i);
  }

-- The same on the outcome of the first part.
module _ {J K : Drv → Type 0} where
  kept {ℓ} :
      {A : Type ℓ} {o : Out A}
      → Ends (λ _ t. J t) (λ _ t. J t) o
      → Ends
          (λ _ t. J t)
          (λ _ t. K t)
          (elim o [ ok a t ↦ ok none t | err e t ↦ ok (some e) t | stuck ↦ stuck ])
  kept (returns h) = returns h
  kept (fails h) = returns h

  renamed {ℓ} :
      {A : Type ℓ} (e : Errno) {o : Out A}
      → Ends (λ _ t. J t) (λ _ t. K t) o
      → Ends
          (λ _ t. J t)
          (λ _ t. K t)
          (elim o [ ok a t ↦ ok a t | err e' t ↦ err e t | stuck ↦ stuck ])
  renamed e (returns h) = returns h
  renamed e (fails h) = fails h

module _ {J L : Drv → Type 0} where
  undone {ℓ κ} :
      {A : Type ℓ} {B : Type κ} (e : Errno) {o : Out B}
      → Ends (λ _ t. L t) (λ _ t. L t) o
      → Ends {A = A}
          (λ _ t. J t)
          (λ _ t. L t)
          (elim o [ ok b u ↦ err e u | err e' u ↦ err e u | stuck ↦ stuck ])
  undone e (returns h) = fails h
  undone e (fails h) = fails h

module _ {J K L : Drv → Type 0} where
  after {ℓ κ} :
      {A : Type ℓ} {B : Type κ} {o : Out A} (f : A → M B)
      → Ends (λ _ t. J t) (λ _ t. K t) o
      → ((a : A) → Does J L K (f a))
      → Ends
          (λ _ t. L t)
          (λ _ t. K t)
          (elim o [ ok a t ↦ f a t | err e t ↦ err e t | stuck ↦ stuck ])
  after f (returns h) k = (k _).runs _ h
  after f (fails h) k = fails h

  handled {ℓ κ} :
      {A : Type ℓ} {B : Type κ} {o : Out A} (cleanup : Errno → M B)
      → Ends (λ _ t. J t) (λ _ t. K t) o
      → ((e : Errno) → Does K L L (cleanup e))
      → Ends
          (λ _ t. J t)
          (λ _ t. L t)
          (elim o [
            | ok a t ↦ ok a t
            | err e t ↦ elim (cleanup e t) [ ok b u ↦ err e u | err e' u ↦ err e u | stuck ↦ stuck ]
            | stuck ↦ stuck
          ])
  handled cleanup (returns h) k = returns h
  handled cleanup (fails h) k = undone _ ((k _).runs _ h)

module _ ⦃env : Env⦄ {J K : Drv → Type 0} where
  settled :
      (r : Reply) (x : Option Errno) (t : Drv)
      → (x ≡ none → J t)
      → ((e : Errno) → x ≡ some e → K t)
      → Ends (λ _ u. J u) (λ _ u. K u) (elim x [ none ↦ ok r t | some e ↦ err e t ])
  settled r none t f g = returns (f refl)
  settled r (some e) t f g = fails (g e refl)

module _ {I J K L : Drv → Type 0} where
  pub bind-Does {ℓ κ} :
      {A : Type ℓ} {B : Type κ} {m : M A} {f : A → M B}
      → Does I J K m
      → ((a : A) → Does J L K (f a))
      → Does I L K (m >>= f)
  bind-Does {f} k l = record { runs = λ s h. after f (k.runs s h) l }

  pub then-Does {ℓ κ} :
      {A : Type ℓ} {B : Type κ} {m : M A} {n : M B}
      → Does I J K m
      → Does J L K n
      → Does I L K (m >> n)
  then-Does {n} k l = record { runs = λ s h. after (λ _. n) (k.runs s h) (λ _. l) }

module _ {I J K : Drv → Type 0} where
  pub attempt-Does {ℓ} : {A : Type ℓ} {m : M A} → Does I J J m → Does I J K (attempt m)
  attempt-Does k = record { runs = λ s h. kept (k.runs s h) }

  pub failing_with-Does {ℓ} :
      {A : Type ℓ} (e : Errno) {m : M A} → Does I J K m → Does I J K (failing_with e m)
  failing_with-Does e k = record { runs = λ s h. renamed e (k.runs s h) }

module _ {I J K L : Drv → Type 0} where
  pub on_error-Does {ℓ κ} :
      {A : Type ℓ} {B : Type κ} {m : M A} {cleanup : M B}
      → Does I J K m
      → Does K L L cleanup
      → Does I J L (on_error m cleanup)
  on_error-Does {cleanup} k l = record {
    runs = λ s h. handled (λ _. cleanup) (k.runs s h) (λ _. l);
  }

  pub on_error_by-Does {ℓ κ} :
      {A : Type ℓ} {B : Type κ} {m : M A} {cleanup : Errno → M B}
      → Does I J K m
      → ((e : Errno) → Does K L L (cleanup e))
      → Does I J L (on_error_by m cleanup)
  on_error_by-Does {cleanup} k l = record { runs = λ s h. handled cleanup (k.runs s h) l }

-- The state after a call.
abbrev pub called : Call → Drv → Drv
called c s = record s { calls = c ∷ s.calls }

-- A call that keeps the condition whatever it answers.
abbrev pub Neutral : (Drv → Type 0) → Call → Type 0
Neutral I c = (s : Drv) → I s → I (called c s)

module _ ⦃env : Env⦄ {I J K : Drv → Type 0} where
  -- A call whose success and failure differ.
  pub settle-Does :
      (c : Call)
      → ((s : Drv) → I s → (env.answer (c ∷ s.calls)).err ≡ none → J (called c s))
      → ((s : Drv) → I s → (e : Errno) → (env.answer (c ∷ s.calls)).err ≡ some e → K (called c s))
      → Does I J K (call c)
  settle-Does c f g = record {
    runs = λ s h. let r = env.answer (c ∷ s.calls) in settled r r.err (called c s) (f s h) (g s h);
  }

  pub tell-Does : (c : Call) → ((s : Drv) → I s → J (called c s)) → Does I J K (tell c)
  tell-Does c k = record { runs = λ s h. returns (k s h) }

  pub ask-Does : (c : Call) → ((s : Drv) → I s → J (called c s)) → Does I J K (ask c)
  ask-Does c k = record { runs = λ s h. returns (k s h) }

module _ ⦃env : Env⦄ {I : Drv → Type 0} where
  pub call-Keeps : (c : Call) → Neutral I c → Keeps I (call c)
  call-Keeps c k = settle-Does c (λ s h _. k s h) (λ s h _ _. k s h)

  pub call_-Keeps : (c : Call) → Neutral I c → Keeps I (call_ c)
  call_-Keeps c k = bind-Does (call-Keeps c k) (λ _. pure-Does tt)

  pub tell-Keeps : {K : Drv → Type 0} (c : Call) → Neutral I c → Does I I K (tell c)
  tell-Keeps c k = tell-Does c k

pub modify-Keeps :
    {I K : Drv → Type 0} (f : Priv → Priv)
    → ((s : Drv) → I s → I (record s { priv = f s.priv }))
    → Does I I K (modify f)
modify-Keeps f k = modify-Does f k

-- Code that looks at the error of its first part.
module _ {J K L N : Drv → Type 0} where
  looked {ℓ κ} :
      {A : Type ℓ} {B : Type κ} {o : Out A} (f : Option Errno → M B) (s : Drv)
      → Ends (λ _ t. J t) (λ _ t. K t) o
      → Does J L N (f none)
      → ((e : Errno) → Does K L N (f (some e)))
      → Ends (λ _ t. L t) (λ _ t. N t) ((attempt (λ _. o) >>= f) s)
  looked f s (returns h) k l = k.runs _ h
  looked f s (fails h) k l = (l _).runs _ h

  pub attempt-bind-Does {ℓ κ} :
      {I : Drv → Type 0} {A : Type ℓ} {B : Type κ} {m : M A} (f : Option Errno → M B)
      → Does I J K m
      → Does J L N (f none)
      → ((e : Errno) → Does K L N (f (some e)))
      → Does I L N (attempt m >>= f)
  attempt-bind-Does f d k l = record { runs = λ s h. looked f s (d.runs s h) k l }

-- A read of the private data that are known.
module _ {ℓ} {B : Type ℓ} {I J K : Drv → Type 0} where
  pub get-bind-Does :
      (f : Priv → M B) (p : Priv)
      → ((s : Drv) → I s → s.priv ≡ p)
      → Does I J K (f p)
      → Does I J K (get >>= f)
  get-bind-Does f p known k = record {
    runs =
        λ s h. subst (λ q. Ends (λ _ t. J t) (λ _ t. K t) (f q s)) (sym (known s h)) (k.runs s h);
  }

  -- The private data are those of the state.
  pub read-Does :
      (f : Priv → M B)
      → ((p : Priv) → Does (λ s. I s × (s.priv ≡ p)) J K (f p))
      → Does I J K (get >>= f)
  read-Does f k = record { runs = λ s h. (k s.priv).runs s (h, refl) }

  pub if-known-Does :
      (b : Bool) {m n : M B}
      → (b ≡ true → Does I J K m)
      → (b ≡ false → Does I J K n)
      → Does I J K (if b then m else n)
  if-known-Does true k l = k refl
  if-known-Does false k l = l refl
