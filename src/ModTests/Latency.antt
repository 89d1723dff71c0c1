-- ===== src/ModTests/Latency.antt =====
-- The module intltest of recipes-kernel/mod-tests: the shortest and the longest time between two
-- interrupts of a pin, which a file of procfs shows.
pub mod Extremes
use yocto_layers.Common.{
  ℕ, zero, suc, ◌+◌, ◌-◌, ◌%◌, ◌^◌, Bool, true, false, not, ltb, ◌==◌, List, [], ◌∷◌, take, length,
  if◌then◌else◌,
}
use yocto_layers.ModTests.Kernel.{
  ℤ, pos, negsuc, Env, gpio_request, gpio_direction_input, gpio_to_irq, gpio_free, request_irq,
  free_irq, proc_create_data, remove_proc_entry, Run, Out, ok, err, pure, ◌>>=◌, ◌>>◌, on_error,
  get, modify, ask, tell, call, is_positive,
}

-- The static variables; the times and intervals are s64, held as words of 64 bits.
pub record Intltest : Type 0 where
  pub irq_fired : ℕ
  pub irq : ℤ
  pub int_last : ℕ
  pub intl_min : ℕ
  pub intl_max : ℕ

-- An order of s64.
unfoldable pub lt_s64 : ℕ → ℕ → Bool
lt_s64 a b = ltb ((a + 2 ^ 63) % 2 ^ 64) ((b + 2 ^ 63) % 2 ^ 64)

unfoldable pub sub64 : ℕ → ℕ → ℕ
sub64 a b = (a + 2 ^ 64 - b) % 2 ^ 64

-- The interval `d` is taken in.
unfoldable pub measure : ℕ → Intltest → Intltest
unfolding lt_s64
measure d v =
    let v1 = if v.intl_min == 0 then record v { intl_min = d } else v in
    let v2 = if lt_s64 d v1.intl_min then record v1 { intl_min = d } else v1 in
    if lt_s64 v2.intl_max d then record v2 { intl_max = d } else v2

-- An interrupt at the time `jiffies_64`. `irq_fired` is an u32.
unfoldable pub test_irq_ih : ℕ → Intltest → Intltest
unfolding measure sub64
test_irq_ih jiffies_64 v =
    let v1 = record v { irq_fired = (v.irq_fired + 1) % 2 ^ 32 } in
    let v2 = if not (v1.int_last == 0) then measure (sub64 jiffies_64 v1.int_last) v1 else v1 in
    record v2 { int_last = jiffies_64 }

-- Interrupts one after another.
unfoldable pub interrupts : List ℕ → Intltest → Intltest
unfolding test_irq_ih
interrupts [] v = v
interrupts (t ∷ ts) v = interrupts ts (test_irq_ih t v)

-- S1A
abbrev pub irq_pin : ℤ
irq_pin = pos 15

module _ ⦃env : Env⦄ where
  -- From gpio_to_irq on.
  unfoldable pub hook : Run Intltest → Out Intltest (Unit {0})
  hook = do
    i ← call (gpio_to_irq irq_pin)
    modify (λ v. record v { irq = i })
    call (request_irq i)
    pure tt

  unfoldable pub intltest_init : Run Intltest → Out Intltest (Unit {0})
  unfolding hook
  intltest_init = do
    modify (λ v. record v { int_last = 0 })
    call (gpio_request irq_pin)
    ask (gpio_direction_input irq_pin)
    on_error hook (tell (gpio_free irq_pin))
    tell proc_create_data

  unfoldable pub intltest_exit : Run Intltest → Out Intltest (Unit {0})
  intltest_exit = do
    v ← get
    if is_positive v.irq then tell (free_irq v.irq) else pure tt
    tell (gpio_free irq_pin)
    tell remove_proc_entry

-- A read of the file at offset `l`, with the text that sprintf makes and what copy_to_user returns: the
-- result, the new offset and the bytes that are copied.
pub record Read : Type 0 where
  pub result : ℤ
  pub offset : ℕ
  pub copied : List ℕ

unfoldable pub dv_pf_R : (ℕ → ℕ → List ℕ) → ℕ → ℕ → Intltest → Read
dv_pf_R text fault l v =
    let lbuf = text v.intl_min v.intl_max in
    let n = length lbuf % 2 ^ 8 in
    if ltb 0 l
    then record { result = pos 0; offset = l; copied = [] }
    else (if not (fault == 0)
        then record { result = negsuc 13; offset = l; copied = [] }
        else record { result = pos n; offset = l + n; copied = take n lbuf })
