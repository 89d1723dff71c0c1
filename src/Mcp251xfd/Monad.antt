-- ===== src/Mcp251xfd/Monad.antt =====
-- The driver's code as state passing. `Env` stands for everything outside the driver (the chip behind
-- the SPI bus, regmap, the CAN and network stacks): its answer to a call may depend on all calls
-- before it, newest first.
-- A loop that the chip can keep busy runs on fuel, and is `stuck` when that is used up.
use yocto_layers.Common.{ℕ, Bool, true, false, Option, none, some, List, ◌∷◌}
use yocto_layers.Mcp251xfd.State.{Errno, Call, Reply, Priv, BerrCounter}

-- `sanity` is CONFIG_CAN_MCP251XFD_SANITY, `dlc2len` and `len2dlc` are the kernel's can_fd_dlc2len and
-- can_fd_len2dlc, and `stack` is what an uninitialised struct can_berr_counter holds.
pub record Env : Type 0 where
  pub answer : List Call → Reply
  pub sanity : Bool
  pub dlc2len : ℕ → ℕ
  pub len2dlc : ℕ → ℕ
  pub stack : BerrCounter

-- The private data of the device and the calls made so far, newest first.
pub record Drv : Type 0 where
  pub priv : Priv
  pub calls : List Call

-- A return of the C function: with a value, or with a negative error code. What was written and
-- called before an error stays.
pub data Out {ℓ} (A : Type ℓ) : Type ℓ where
  ok : A → Drv → Out A
  err : Errno → Drv → Out A
  stuck : Out A

abbrev pub M {ℓ} : Type ℓ → Type ℓ
M A = Drv → Out A

abbrev pub pure {ℓ} : {A : Type ℓ} → A → M A
pure a s = ok a s

abbrev pub raise {ℓ} : {A : Type ℓ} → Errno → M A
raise e s = err e s

infixl 5 ◌>>=◌ ◌>>◌
abbrev pub ◌>>=◌ {ℓ κ} : {A : Type ℓ} {B : Type κ} → M A → (A → M B) → M B
◌>>=◌ m f s = elim (m s) [ ok a t ↦ f a t | err e t ↦ err e t | stuck ↦ stuck ]

abbrev pub ◌>>◌ {ℓ κ} : {A : Type ℓ} {B : Type κ} → M A → M B → M B
◌>>◌ m k s = elim (m s) [ ok a t ↦ k t | err e t ↦ err e t | stuck ↦ stuck ]

-- The error of a call, for code that looks at it or drops it.
abbrev pub attempt {ℓ} : {A : Type ℓ} → M A → M (Option Errno)
attempt m s = elim (m s) [ ok a t ↦ ok none t | err e t ↦ ok (some e) t | stuck ↦ stuck ]

-- `if (err) { cleanup; return err; }`, with the errors of the cleanup dropped
abbrev pub on_error {ℓ κ} : {A : Type ℓ} {B : Type κ} → M A → M B → M A
on_error m cleanup s = elim (m s) [
  | ok a t ↦ ok a t
  | err e t ↦ elim (cleanup t) [ ok b u ↦ err e u | err e' u ↦ err e u | stuck ↦ stuck ]
  | stuck ↦ stuck
]

-- The same, with a cleanup that depends on the error.
abbrev pub on_error_by {ℓ κ} : {A : Type ℓ} {B : Type κ} → M A → (Errno → M B) → M A
on_error_by m cleanup s = elim (m s) [
  | ok a t ↦ ok a t
  | err e t ↦ elim (cleanup e t) [ ok b u ↦ err e u | err e' u ↦ err e u | stuck ↦ stuck ]
  | stuck ↦ stuck
]

-- A failure that is reported as `e`, whatever it was.
abbrev pub failing_with {ℓ} : {A : Type ℓ} → Errno → M A → M A
failing_with e m s = elim (m s) [ ok a t ↦ ok a t | err e' t ↦ err e t | stuck ↦ stuck ]

-- `return err;`
abbrev pub return : Option Errno → M (Unit {0})
return none = pure tt
return (some e) = raise e

abbrev pub get : M Priv
get s = ok s.priv s

abbrev pub modify : (Priv → Priv) → M (Unit {0})
modify f s = ok tt (record s { priv = f s.priv })

abbrev pub when : Bool → M (Unit {0}) → M (Unit {0})
when true m = m
when false m = pure tt

module _ ⦃env : Env⦄ where
  -- Make a call and look at the whole reply.
  abbrev pub ask : Call → M Reply
  ask c s = ok (env.answer (c ∷ s.calls)) (record s { calls = c ∷ s.calls })

  abbrev pub settle : Reply → M Reply
  settle r s = elim (r.err) [ none ↦ ok r s | some e ↦ err e s ]

  -- Make a call that fails with its error code.
  abbrev pub call : Call → M Reply
  call c s = settle (env.answer (c ∷ s.calls)) (record s { calls = c ∷ s.calls })

  abbrev pub call_ : Call → M (Unit {0})
  call_ c = do call c; pure tt

  -- A call whose result the source does not use.
  abbrev pub tell : Call → M (Unit {0})
  tell c = do ask c; pure tt
