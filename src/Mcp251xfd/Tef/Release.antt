-- ===== src/Mcp251xfd/Tef/Release.antt =====
-- The transfers by which mcp251xfd_handle_tefif and mcp251xfd_handle_rxif_ring release objects.
use yocto_layers.Common.{
  ℕ, zero, suc, ◌+◌, ◌≤◌, ◌<◌, ◌≡◌, refl, ap, ◌∙◌, Bool, true, not, false, replicate, List, [], ◌∷◌,
  length, get_or, ◌==◌, if◌then◌else◌, arith,
}
use yocto_layers.Mcp251xfd.State.{Xfer, Quirks, TefRing}
use yocto_layers.Mcp251xfd.Regs
use yocto_layers.Mcp251xfd.Spi.{cmd_prepare_write_reg}
use yocto_layers.Mcp251xfd.Setup.{init_tef_ring}
use yocto_layers.Mcp251xfd.Tef.{release_last}

pub length-release_last : (n : ℕ) (xs : List Xfer) → n ≤ length xs → length (release_last n xs) ≡ n
unfolding release_last
length-release_last zero xs h = refl
length-release_last (suc n) [] h = absurd (omega arith)
length-release_last (suc zero) (x ∷ xs) h = refl
length-release_last (suc (suc n)) (x ∷ xs) h =
    omega (arith, length-release_last (suc n) xs (omega arith))

nth :
    (n i : ℕ) (xs : List Xfer) (d : Xfer)
    → i < n
    → n ≤ length xs
    → get_or (release_last n xs) i d
      ≡ (if i + 1 == n then record (get_or xs i d) { cs_change = false } else get_or xs i d)
unfolding release_last
nth zero i xs d lt le = absurd (omega arith)
nth (suc n) i [] d lt le = absurd (omega arith)
nth (suc zero) zero (x ∷ xs) d lt le = refl
nth (suc zero) (suc i) (x ∷ xs) d lt le = absurd (omega arith)
nth (suc (suc n)) zero (x ∷ xs) d lt le =
    let more : (0 + 1 == suc (suc n)) ≡ false = ground arith in rw more refl
nth (suc (suc n)) (suc i) (x ∷ xs) d lt le =
    let same : (suc i + 1 == suc (suc n)) ≡ (i + 1 == suc n) = ground arith in
    rw same (nth (suc n) i xs d (omega arith) (omega arith))

length-replicate : {A : Type 0} (n : ℕ) (x : A) → length (replicate n x) ≡ n
length-replicate zero x = refl
length-replicate (suc n) x = ap suc (length-replicate n x)

get_or-replicate : {A : Type 0} (n i : ℕ) (x d : A) → i < n → get_or (replicate n x) i d ≡ x
get_or-replicate zero i x d lt = absurd (omega arith)
get_or-replicate (suc n) zero x d lt = refl
get_or-replicate (suc n) (suc i) x d lt = get_or-replicate n i x d (omega arith)

last_one :
    (b : Bool) (x : Xfer)
    → x.cs_change ≡ true
    → (if b then record x { cs_change = false } else x) ≡ record x { cs_change = not b }
last_one true x e = refl
last_one false x e = ap (λ c. record x { cs_change = c }) e

abbrev pub no_xfer : Xfer
no_xfer = record { len = 0; cs_change = false }

pub tef_release_lem :
    (quirks : Quirks) (tef : TefRing) (n i : ℕ) (d : Xfer)
    → i < n
    → n ≤ Regs.tx_obj_num_can
    → (length (release_last n (init_tef_ring quirks tef).uinc_xfer) ≡ n)
      × (get_or (release_last n (init_tef_ring quirks tef).uinc_xfer) i d ≡ record {
        len = (cmd_prepare_write_reg quirks Regs.tefcon Regs.tefcon_uinc Regs.tefcon_uinc).len;
        cs_change = not (i + 1 == n);
      })
unfolding init_tef_ring
tef_release_lem quirks tef n i d lt le =
    let len = (cmd_prepare_write_reg quirks Regs.tefcon Regs.tefcon_uinc Regs.tefcon_uinc).len in
    let x : Xfer = record { len = len; cs_change = true } in
    (
      length-release_last n (replicate Regs.tx_obj_num_can x)
          (omega (arith, length-replicate Regs.tx_obj_num_can x)),
      nth n i (replicate Regs.tx_obj_num_can x) d lt
            (omega (arith, length-replicate Regs.tx_obj_num_can x))
          ∙ ap (λ (t : Xfer). if i + 1 == n then record t { cs_change = false } else t)
              (get_or-replicate Regs.tx_obj_num_can i x d (omega (arith, lt, le)))
          ∙ last_one (i + 1 == n) x refl,
    )
