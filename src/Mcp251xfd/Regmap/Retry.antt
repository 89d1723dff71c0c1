-- ===== src/Mcp251xfd/Regmap/Retry.antt =====
-- mcp251xfd_regmap_crc_read: how often it reads, and what it hands on.
use yocto_layers.Common.{
  ℕ, zero, suc, ◌+◌, ◌*◌, ◌≤◌, ◌≡◌, refl, ◌∙◌, ◌⊎◌, inl, inr, Bool, true, false, Option, none, some,
  List, ◌∷◌, ◌++◌, length, take, replicate, ◌==◌, arith, ==_iff, if◌then◌else◌,
}
use yocto_layers.Crc16.{crc16_compute, crc16_compute2}
use yocto_layers.Crc16.Frames.{crc16_compute2-append}
use yocto_layers.Mcp251xfd.Monad.{Env, Drv, Out, ok, err, stuck, M}
use yocto_layers.Mcp251xfd.Regs
use yocto_layers.Mcp251xfd.State.{Errno, ebadmsg, Call, Reply, spi_sync_half, spi_sync_full}
use yocto_layers.Mcp251xfd.Post.{Ends, returns, fails, weaken-Ends, choose-Ends}
use yocto_layers.Mcp251xfd.Spi.{cmd_read_crc}
use yocto_layers.Mcp251xfd.Regmap.{
  be16_at, Attempts, got, failed, exhausted, spi_exchange, regmap_crc_read_one, after_read,
  read_attempts, read_rounds, regmap_crc_read, is_ebadmsg,
}

-- The last transfer succeeded, and the bytes are its data, with the checksum of the command and the
-- data behind them; or the register is OSC, whose checksum does not count.
abbrev pub Checked : ⦃env : Env⦄ → ℕ → ℕ → List ℕ → Drv → Type 0
Checked ⦃env⦄ reg len bytes t =
    (bytes ≡ take len (env.answer t.calls).bytes)
    × (reg ≡ Regs.osc
        ⊎ ((env.answer t.calls).err ≡ none)
          × (be16_at (env.answer t.calls).bytes len
              ≡ crc16_compute (cmd_read_crc reg len ++ bytes)))

-- At most `n` more calls.
abbrev pub Within : ℕ → Drv → Drv → Type 0
Within n s t = length t.calls ≤ length s.calls + n

-- What the error of one read says.
verdict :
    (x : Option Errno) (good : Bool)
    → elim x [ some e ↦ some e | none ↦ if good then none else some ebadmsg ] ≡ none
    → (x ≡ none) × (good ≡ true)
verdict none true h = (refl, refl)
verdict none false h = absurd (ground arith)
verdict (some e) good h = absurd (ground arith)

module _ (reg len : ℕ) ⦃env : Env⦄ where
  abbrev Outcome : ℕ → Drv → Attempts → Drv → Type 0
  Outcome n s (got bytes) t = Checked reg len bytes t × Within n s t
  Outcome n s (failed e) t = Within n s t
  Outcome n s (exhausted e) t = Within n s t

  abbrev Good : Drv → List ℕ → Type 0
  Good t bytes =
      ((env.answer t.calls).err ≡ none)
      × (be16_at (env.answer t.calls).bytes len ≡ crc16_compute (cmd_read_crc reg len ++ bytes))

  later :
      (n m : ℕ) (s t : Drv)
      → length t.calls + m ≤ length s.calls + n
      → (a : Attempts) (u : Drv) → Outcome m t a u
      → Outcome n s a u
  later n m s t h (got bytes) u o = (o.0, omega (arith, h, o.1))
  later n m s t h (failed e) u o = omega (arith, h, o)
  later n m s t h (exhausted e) u o = omega (arith, h, o)

  after_read-Outcome :
      (left : ℕ) (x : Option Errno) (bytes : List ℕ) (rest : M Attempts) (s t : Drv)
      → length t.calls ≡ suc (length s.calls)
      → bytes ≡ take len (env.answer t.calls).bytes
      → (x ≡ none → Good t bytes)
      → Ends (Outcome left t) (λ _ u. Within left t u) (rest t)
      → Ends
          (Outcome (suc left) s)
          (λ _ u. Within (suc left) s u)
          (after_read reg rest (record { err_one = x; bytes = bytes }) t)
  unfolding after_read
  after_read-Outcome left none bytes rest s t one read good h =
      returns ((read, inr (good refl)), omega (arith, one))
  after_read-Outcome left (some e) bytes rest s t one read good h =
      choose-Ends (is_ebadmsg e) _ _ t
        (λ _.
          choose-Ends (reg == Regs.osc) _ _ t
            (λ osc. returns ((read, inl ((==_iff reg Regs.osc).0 osc)), omega (arith, one)))
            (λ _.
              weaken-Ends h (later (suc left) left s t (omega (arith, one)))
                (λ _ u w. omega (arith, one, w))))
        (λ _. returns (omega (arith, one)))

  read_attempts-Outcome :
      (left : ℕ) (s : Drv)
      → Ends (Outcome left s) (λ _ t. Within left s t) (read_attempts left reg len s)
  unfolding read_attempts regmap_crc_read_one spi_exchange
  read_attempts-Outcome zero s = returns (omega arith)
  read_attempts-Outcome (suc left) s =
      let cmd = cmd_read_crc reg len in
      let sent : List Call =
        (if s.priv.devtype_data.quirks.half_duplex
          then spi_sync_half cmd (len + 2)
          else spi_sync_full (cmd ++ replicate (len + 2) 0))
        ∷ s.calls in
      let r : Reply = env.answer sent in
      let t : Drv = record s { calls = sent } in
      let good = be16_at r.bytes len == crc16_compute2 cmd (take len r.bytes) in
      after_read-Outcome left _ _ (read_attempts left reg len) s t refl refl
        (λ none_left.
          let v = verdict r.err good none_left in
          (v.0, (==_iff _ _).0 v.1 ∙ crc16_compute2-append cmd (take len r.bytes)))
        (read_attempts-Outcome left t)

  round :
      (left : ℕ) (s : Drv) {o : Out Attempts}
      → Ends (Outcome 3 s) (λ _ t. Within 3 s t) o
      → ((t : Drv)
          → Ends
              (λ bytes u. Checked reg len bytes u × Within (3 * left) t u)
              (λ _ u. Within (3 * left) t u)
              (read_rounds left reg len t))
      → Ends
          (λ bytes u. Checked reg len bytes u × Within (3 * suc left) s u)
          (λ _ u. Within (3 * suc left) s u)
          (elim o [
            | ok a t ↦ elim a [
              | got bytes ↦ ok bytes t
              | failed e ↦ err e t
              | exhausted e ↦ read_rounds left reg len t
            ]
            | err e t ↦ err e t
            | stuck ↦ stuck
          ])
  round left s (returns {a = got bytes} h) k = returns (h.0, omega (arith, h.1))
  round left s (returns {a = failed e} h) k = fails (omega (arith, h))
  round left s (returns {a = exhausted e} {t = t} h) k =
      weaken-Ends (k t) (λ b u r. (r.0, omega (arith, h, r.1))) (λ _ u w. omega (arith, h, w))
  round left s (fails h) k = fails (omega (arith, h))

  read_rounds-Ends :
      (left : ℕ) (s : Drv)
      → Ends
          (λ bytes u. Checked reg len bytes u × Within (3 * left) s u)
          (λ _ u. Within (3 * left) s u)
          (read_rounds left reg len s)
  unfolding read_rounds
  read_rounds-Ends zero s = fails (omega arith)
  read_rounds-Ends (suc left) s = round left s (read_attempts-Outcome 3 s) (read_rounds-Ends left)

-- A checksummed read ends after at most nine transfers. The data that it hands on, where it does,
-- came with the last of them, which succeeded with the right checksum unless the register is OSC.
pub regmap_crc_read-Ends :
    (reg len : ℕ) (s : Drv) ⦃env : Env⦄
    → Ends
        (λ bytes t. Checked reg len bytes t × Within 9 s t)
        (λ _ t. Within 9 s t)
        (regmap_crc_read reg len s)
unfolding regmap_crc_read
regmap_crc_read-Ends reg len s = read_rounds-Ends reg len 3 s
