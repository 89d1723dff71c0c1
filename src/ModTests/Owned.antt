-- ===== src/ModTests/Owned.antt =====
-- What the modules have taken from the kernel and not given back.
use yocto_layers.Common.{
  ℕ, ◌≡◌, refl, ==_iff, Bool, true, false, ◌==◌, Option, none, some, List, [], ◌∷◌, if◌then◌else◌,
}
use mathlib.Core.Option
use yocto_layers.ModTests.Kernel.{
  ℤ, pos, negsuc, Call, Env, gpio_request, gpio_free, request_irq, request_threaded_irq, free_irq,
  platform_driver_register, platform_driver_unregister, Run,
}

pub data Thing : Type 0 where
  pin irq : ℤ → Thing
  driver : Thing

abbrev same_int : ℤ → ℤ → Bool
same_int (pos m) (pos n) = m == n
same_int (negsuc m) (negsuc n) = m == n
same_int _ _ = false

abbrev same : Thing → Thing → Bool
same (pin a) (pin b) = same_int a b
same (irq a) (irq b) = same_int a b
same driver driver = true
same _ _ = false

-- Giving back a thing that is not held is a fault.
abbrev pub give_back : Thing → List Thing → Option (List Thing)
give_back x [] = none
give_back x (y ∷ ys) = if same x y then some ys else Option.map (◌∷◌ y) (give_back x ys)

-- A request that fails takes nothing.
abbrev pub taken : Thing → ℤ → List Thing → List Thing
taken x (pos n) ys = x ∷ ys
taken x (negsuc n) ys = ys

module _ ⦃env : Env⦄ where
  -- Newest first, or nothing once a fault has happened.
  abbrev pub owned : List Call → Option (List Thing)
  owned [] = some []
  owned (gpio_request p ∷ cs) =
      Option.map (taken (pin p) (env.answer (gpio_request p ∷ cs))) (owned cs)
  owned (request_irq i ∷ cs) =
      Option.map (taken (irq i) (env.answer (request_irq i ∷ cs))) (owned cs)
  owned (request_threaded_irq i ∷ cs) =
      Option.map (taken (irq i) (env.answer (request_threaded_irq i ∷ cs))) (owned cs)
  owned (platform_driver_register ∷ cs) =
      Option.map (taken driver (env.answer (platform_driver_register ∷ cs))) (owned cs)
  owned (platform_driver_unregister ∷ cs) = Option.bind (owned cs) (give_back driver)
  owned (gpio_free p ∷ cs) = Option.bind (owned cs) (give_back (pin p))
  owned (free_irq i ∷ cs) = Option.bind (owned cs) (give_back (irq i))
  owned (_ ∷ cs) = owned cs

module _ ⦃env : Env⦄ {S : Type 0} where
  abbrev pub Owns : List Thing → Run S → Type 0
  Owns ts t = owned t.calls ≡ some ts

same_int_refl : (a : ℤ) → same_int a a ≡ true
same_int_refl (pos n) = (==_iff n n).1 refl
same_int_refl (negsuc n) = (==_iff n n).1 refl

same_refl : (x : Thing) → same x x ≡ true
same_refl (pin a) = same_int_refl a
same_refl (irq a) = same_int_refl a
same_refl driver = refl

-- The thing taken last can be given back.
pub give_back_last : (x : Thing) (ys : List Thing) → give_back x (x ∷ ys) ≡ some ys
give_back_last x ys = rw (same_refl x) refl

-- Taking and giving back, on what is owned.
pub taken_lem :
    (x : Thing) (r : ℤ) (n : ℕ) {o : Option (List Thing)} {ts : List Thing}
    → r ≡ pos n
    → o ≡ some ts
    → Option.map (taken x r) o ≡ some (x ∷ ts)
taken_lem x r n h e = rw (e, h) refl

pub refused_lem :
    (x : Thing) (r : ℤ) (n : ℕ) {o : Option (List Thing)} {ts : List Thing}
    → r ≡ negsuc n
    → o ≡ some ts
    → Option.map (taken x r) o ≡ some ts
refused_lem x r n h e = rw (e, h) refl

pub give_back_lem :
    (x : Thing) {o : Option (List Thing)} {ts : List Thing}
    → o ≡ some (x ∷ ts)
    → Option.bind o (give_back x) ≡ some ts
unfolding Option.bind
give_back_lem x {ts} e = rw e (give_back_last x ts)
