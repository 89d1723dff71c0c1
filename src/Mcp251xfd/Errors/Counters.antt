-- ===== src/Mcp251xfd/Errors/Counters.antt =====
-- How mcp251xfd_handle_ivmif moves the error counters.
use yocto_layers.Common.{ℕ, ◌+◌, ◌≡◌, refl, ◌∙◌, Bool, true, false, if◌then◌else◌, bit_or, arith}
use yocto_layers.Mcp251xfd.CanAbi
use yocto_layers.Mcp251xfd.Regs
use yocto_layers.Mcp251xfd.Regs.{any_bit}
use yocto_layers.Mcp251xfd.State.{CanFrame}
use yocto_layers.Mcp251xfd.Errors.{
  Report, if_bit, ivmif_report, or_byte, or_id, add_rx_error, add_tx_error,
}

-- 1 for a test that holds
abbrev pub one : Bool → ℕ
one b = if b then 1 else 0

-- The tests of a receive error: checksum, stuffing, form.
abbrev pub rx_tests : ℕ → ℕ
rx_tests bdiag1 =
    one (any_bit bdiag1 (bit_or Regs.bdiag1_dcrcerr Regs.bdiag1_ncrcerr))
    + one (any_bit bdiag1 (bit_or Regs.bdiag1_dstuferr Regs.bdiag1_nstuferr))
    + one (any_bit bdiag1 (bit_or Regs.bdiag1_dformerr Regs.bdiag1_nformerr))

-- The tests of a transmit error: no acknowledgement, a recessive or a dominant bit.
abbrev pub tx_tests : ℕ → ℕ
tx_tests bdiag1 =
    one (any_bit bdiag1 Regs.bdiag1_nackerr)
    + one (any_bit bdiag1 (bit_or Regs.bdiag1_dbit1err Regs.bdiag1_nbit1err))
    + one (any_bit bdiag1 (bit_or Regs.bdiag1_dbit0err Regs.bdiag1_nbit0err))

-- A test that counts a receive error, and one that counts a transmit error.
rx_step :
    (t : Bool) (g : CanFrame → CanFrame) (r : Report) (m n : ℕ)
    → r.stats.rx_errors ≡ m
    → r.stats.tx_errors ≡ n
    → ((if_bit t (λ x. record { stats = add_rx_error x.stats; cf = g x.cf }) r).stats.rx_errors
        ≡ m + one t)
      × ((if_bit t (λ x. record { stats = add_rx_error x.stats; cf = g x.cf }) r).stats.tx_errors
          ≡ n)
rx_step true g r m n u v = (omega (arith, u), v)
rx_step false g r m n u v = (omega (arith, u), v)

tx_step :
    (t : Bool) (g : CanFrame → CanFrame) (r : Report) (m n : ℕ)
    → r.stats.rx_errors ≡ m
    → r.stats.tx_errors ≡ n
    → ((if_bit t (λ x. record { stats = add_tx_error x.stats; cf = g x.cf }) r).stats.rx_errors ≡ m)
      × ((if_bit t (λ x. record { stats = add_tx_error x.stats; cf = g x.cf }) r).stats.tx_errors
          ≡ n + one t)
tx_step true g r m n u v = (u, omega (arith, v))
tx_step false g r m n u v = (u, omega (arith, v))

-- Every kind of error that the diagnosis word shows is counted once: checksum, stuffing and form
-- errors as receive errors, missing acknowledgements and bit errors as transmit errors.
pub ivmif_report-counts :
    (bdiag1 : ℕ) (r : Report)
    → ((ivmif_report bdiag1 r).stats.rx_errors ≡ r.stats.rx_errors + rx_tests bdiag1)
      × ((ivmif_report bdiag1 r).stats.tx_errors ≡ r.stats.tx_errors + tx_tests bdiag1)
unfolding ivmif_report
ivmif_report-counts bdiag1 r =
    let crc = any_bit bdiag1 (bit_or Regs.bdiag1_dcrcerr Regs.bdiag1_ncrcerr) in
    let stuff = any_bit bdiag1 (bit_or Regs.bdiag1_dstuferr Regs.bdiag1_nstuferr) in
    let form = any_bit bdiag1 (bit_or Regs.bdiag1_dformerr Regs.bdiag1_nformerr) in
    let nack = any_bit bdiag1 Regs.bdiag1_nackerr in
    let bit1 = any_bit bdiag1 (bit_or Regs.bdiag1_dbit1err Regs.bdiag1_nbit1err) in
    let bit0 = any_bit bdiag1 (bit_or Regs.bdiag1_dbit0err Regs.bdiag1_nbit0err) in
    let s1 = rx_step crc (or_byte 3 CanAbi.err_prot_loc_crc_seq) r _ _ refl refl in
    let s2 = rx_step stuff (or_byte 2 CanAbi.err_prot_stuff) _ _ _ s1.0 s1.1 in
    let s3 = rx_step form (or_byte 2 CanAbi.err_prot_form) _ _ _ s2.0 s2.1 in
    let s4 =
      tx_step nack (λ cf. or_byte 2 CanAbi.err_prot_tx (or_id CanAbi.err_ack cf)) _ _ _ s3.0 s3.1 in
    let s5 =
      tx_step bit1 (or_byte 2 (bit_or CanAbi.err_prot_tx CanAbi.err_prot_bit1)) _ _ _ s4.0 s4.1 in
    let s6 =
      tx_step bit0 (or_byte 2 (bit_or CanAbi.err_prot_tx CanAbi.err_prot_bit0)) _ _ _ s5.0 s5.1 in
    (s6.0 ∙ omega arith, s6.1 ∙ omega arith)
