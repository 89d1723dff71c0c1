-- ===== src/ModTests/Latency/Extremes.antt =====
-- The interval statistics of intltest.
use yocto_layers.Common.{
  ℕ, ◌+◌, ◌-◌, ◌%◌, ◌^◌, ◌≤◌, ◌<◌, min, max, ◌≡◌, ◌≢◌, refl, sym, subst, ◌∙◌, false, ltb, ◌==◌,
  List, [], ◌∷◌, if◌then◌else◌, arith,
}
use yocto_layers.ModTests.Latency.{Intltest, lt_s64, sub64, measure, test_irq_ih, interrupts}

-- The largest of some numbers, and 0 of none.
abbrev pub greatest : List ℕ → ℕ
greatest [] = 0
greatest (d ∷ ds) = max d (greatest ds)

-- The least of the numbers before the first 0, and 0 where there is none before it.
abbrev pub least_before_zero : List ℕ → ℕ
least_before_zero [] = 0
least_before_zero (d ∷ ds) =
    let rest = least_before_zero ds in if d == 0 then 0 else (if rest == 0 then d else min d rest)

-- The intervals between times, the last first.
abbrev pub intervals : ℕ → List ℕ → List ℕ → List ℕ
intervals last [] ds = ds
intervals last (t ∷ ts) ds = intervals t ts ((t - last) ∷ ds)

-- Times that do not go back, and fit in an s64.
pub data Times : ℕ → List ℕ → Type 0 where
  none_left : {last : ℕ} → Times last []
  next : {last t : ℕ} {ts : List ℕ} → last ≤ t → t < 2 ^ 63 → Times t ts → Times last (t ∷ ts)

-- The variables show the intervals `ds`, the last interrupt being at `last`.
pub record Shows (last : ℕ) (ds : List ℕ) (v : Intltest) : Type 0 where
  pub int_last : v.int_last ≡ last
  pub intl_min : v.intl_min ≡ least_before_zero ds
  pub intl_max : v.intl_max ≡ greatest ds
  pub small_min : v.intl_min < 2 ^ 63
  pub small_max : v.intl_max < 2 ^ 63

lt_s64_lem : (a b : ℕ) → a < 2 ^ 63 → b < 2 ^ 63 → lt_s64 a b ≡ ltb a b
unfolding lt_s64
lt_s64_lem a b small_a small_b = ground arith

-- What an interval does to the variables.
record Measured (d : ℕ) (v w : Intltest) : Type 0 where
  int_last : w.int_last ≡ v.int_last
  intl_min : w.intl_min ≡ (if v.intl_min == 0 then d else min d v.intl_min)
  intl_max : w.intl_max ≡ max d v.intl_max

measure-Measured :
    (d : ℕ) (v : Intltest)
    → d < 2 ^ 63
    → v.intl_min < 2 ^ 63
    → v.intl_max < 2 ^ 63
    → Measured d v (measure d v)
unfolding measure
measure-Measured d v small small_min small_max =
    let a = lt_s64_lem d v.intl_min small small_min in
    let b = lt_s64_lem d d small small in
    let c = lt_s64_lem v.intl_max d small_max small in ground (arith, a, b, c)

abbrev counted : Intltest → Intltest
counted v = record v { irq_fired = (v.irq_fired + 1) % 2 ^ 32 }

later_irq :
    (t : ℕ) (v : Intltest)
    → v.int_last ≢ 0
    → test_irq_ih t v ≡ record (measure (sub64 t v.int_last) (counted v)) { int_last = t }
unfolding test_irq_ih
later_irq t v some = let e : (v.int_last == 0) ≡ false = ground arith in rw e refl

test_irq_ih-Shows :
    (last t : ℕ) (ds : List ℕ) (v : Intltest)
    → last ≢ 0
    → last ≤ t
    → t < 2 ^ 63
    → Shows last ds v
    → Shows t ((t - last) ∷ ds) (test_irq_ih t v)
unfolding sub64
test_irq_ih-Shows last t ds v some le small h =
    let d = sub64 t v.int_last in
    let e : d ≡ t - last = omega (arith, h.int_last) in
    let m = measure-Measured d (counted v) (omega (arith, e)) h.small_min h.small_max in
    subst (Shows t ((t - last) ∷ ds)) (sym (later_irq t v (λ z. some (sym h.int_last ∙ z))))
      (record {
        int_last = refl;
        intl_min = m.intl_min ∙ ground (arith, e, h.intl_min);
        intl_max = omega (arith, m.intl_max, e, h.intl_max);
        small_min = ground (arith, m.intl_min, e, h.small_min);
        small_max = omega (arith, m.intl_max, e, h.small_max);
      })

interrupts-Shows :
    (last : ℕ) (ts ds : List ℕ) (v : Intltest)
    → last ≢ 0
    → Times last ts
    → Shows last ds v
    → ((interrupts ts v).intl_min ≡ least_before_zero (intervals last ts ds))
      × ((interrupts ts v).intl_max ≡ greatest (intervals last ts ds))
unfolding interrupts
interrupts-Shows last [] ds v some none_left h = (h.intl_min, h.intl_max)
interrupts-Shows last (t ∷ ts) ds v some (next le small rest) h =
    interrupts-Shows t ts ((t - last) ∷ ds) (test_irq_ih t v) (omega (arith, some, le)) rest
      (test_irq_ih-Shows last t ds v some le small h)

pub interrupts_lem :
    (t : ℕ) (ts : List ℕ) (v : Intltest)
    → t ≢ 0
    → t < 2 ^ 63
    → Times t ts
    → v.int_last ≡ 0
    → v.intl_min ≡ 0
    → v.intl_max ≡ 0
    → ((interrupts (t ∷ ts) v).intl_min ≡ least_before_zero (intervals t ts []))
      × ((interrupts (t ∷ ts) v).intl_max ≡ greatest (intervals t ts []))
unfolding interrupts test_irq_ih
interrupts_lem t ts v some small times last0 min0 max0 =
    interrupts-Shows t ts [] (test_irq_ih t v) some times (
      rw last0 (record {
        int_last = refl;
        intl_min = min0;
        intl_max = max0;
        small_min = omega (arith, min0);
        small_max = omega (arith, max0);
      }))
