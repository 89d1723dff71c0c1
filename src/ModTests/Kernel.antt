-- ===== src/ModTests/Kernel.antt =====
-- The kernel as the modules of recipes-kernel/mod-tests see it: calls, their int results, and code as
-- state passing over the module's static variables.
use yocto_layers.Common.{ℕ, ◌-◌, ◌%◌, ◌^◌, Bool, false, ltb, List, ◌∷◌, if◌then◌else◌}

-- A C int: `negsuc n` is `- n - 1`.
pub data ℤ : Type 0 where
  pos negsuc : ℕ → ℤ

abbrev pub enxio : ℤ
enxio = negsuc 5

-- The calls that leave the modules, but for messages. The device a call is about is left out where a
-- module has only one.
pub data Call : Type 0 where
  of_property_read_string of_get_named_gpio platform_get_irq : Call
  gpio_request gpio_direction_input gpio_to_irq gpio_free : ℤ → Call
  request_irq request_threaded_irq free_irq : ℤ → Call
  platform_driver_register platform_driver_unregister : Call
  proc_create_data remove_proc_entry : Call

-- What a call returns may depend on every call before it, newest first. `of_node` is whether the device
-- has a node of the device tree, and `gpio_is_valid` the kernel's function.
pub record Env : Type 0 where
  pub answer : List Call → ℤ
  pub of_node : Bool
  pub gpio_is_valid : ℤ → Bool

module _ (S : Type 0) where
  -- The static variables of a module and the calls made so far, newest first.
  pub record Run : Type 0 where
    pub vars : S
    pub calls : List Call

  -- A return of the C function: with a value, or with a negative int.
  pub data Out {ℓ} (A : Type ℓ) : Type ℓ where
    ok : A → Run → Out A
    err : ℤ → Run → Out A

module _ {S : Type 0} where
  abbrev pub pure {ℓ} : {A : Type ℓ} → A → Run S → Out S A
  pure a s = ok a s

  abbrev pub raise {ℓ} : {A : Type ℓ} → ℤ → Run S → Out S A
  raise e s = err e s

  infixl 5 ◌>>=◌ ◌>>◌
  abbrev pub ◌>>=◌ {ℓ κ} :
      {A : Type ℓ} {B : Type κ} → (Run S → Out S A) → (A → Run S → Out S B) → Run S → Out S B
  ◌>>=◌ m f s = elim (m s) [ ok a t ↦ f a t | err e t ↦ err e t ]

  abbrev pub ◌>>◌ {ℓ κ} :
      {A : Type ℓ} {B : Type κ} → (Run S → Out S A) → (Run S → Out S B) → Run S → Out S B
  ◌>>◌ m k s = elim (m s) [ ok a t ↦ k t | err e t ↦ err e t ]

  -- `goto` a label that cleans up and returns the error.
  abbrev pub on_error {ℓ} :
      {A : Type ℓ} → (Run S → Out S A) → (Run S → Out S (Unit {0})) → Run S → Out S A
  on_error m cleanup s = elim (m s) [
    | ok a t ↦ ok a t
    | err e t ↦ elim (cleanup t) [ ok b u ↦ err e u | err e' u ↦ err e u ]
  ]

  abbrev pub get : Run S → Out S S
  get s = ok s.vars s

  abbrev pub modify : (S → S) → Run S → Out S (Unit {0})
  modify f s = ok tt (record s { vars = f s.vars })

  module _ ⦃env : Env⦄ where
    -- Make a call and look at its result.
    abbrev pub ask : Call → Run S → Out S ℤ
    ask c s = ok (env.answer (c ∷ s.calls)) (record s { calls = c ∷ s.calls })

    abbrev pub tell : Call → Run S → Out S (Unit {0})
    tell c s = ok tt (record s { calls = c ∷ s.calls })

    -- `ret = …; if ( ret < 0) return ret;`
    abbrev pub settle : ℤ → Run S → Out S ℤ
    settle (pos n) s = ok (pos n) s
    settle (negsuc n) s = err (negsuc n) s

    abbrev pub call : Call → Run S → Out S ℤ
    call c s = settle (env.answer (c ∷ s.calls)) (record s { calls = c ∷ s.calls })

-- `( u16)` and `( s16)` of an int
unfoldable pub u16_of : ℤ → ℤ
u16_of (pos n) = pos (n % 2 ^ 16)
u16_of (negsuc n) = pos (2 ^ 16 - 1 - n % 2 ^ 16)

abbrev s16_word : ℕ → ℤ
s16_word n = if ltb n (2 ^ 15) then pos n else negsuc (2 ^ 16 - 1 - n)

unfoldable pub s16_of : ℤ → ℤ
s16_of (pos n) = s16_word (n % 2 ^ 16)
s16_of (negsuc n) = s16_word (2 ^ 16 - 1 - n % 2 ^ 16)

unfoldable pub is_positive : ℤ → Bool
is_positive (pos n) = ltb 0 n
is_positive (negsuc n) = false
