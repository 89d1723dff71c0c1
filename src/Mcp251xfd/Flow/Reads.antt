-- ===== src/Mcp251xfd/Flow/Reads.antt =====
-- What the reads of mcp251xfd_handle_tefif give, and that they move no counter but the TEF head.
use yocto_layers.Common.{
  ℕ, zero, suc, length-append, ◌+◌, ◌-◌, ◌^◌, ◌≤◌, ◌<◌, ◌≡◌, refl, ◌∙◌, List, [], ◌∷◌, length, ltb,
  ◌==◌, ◌&&◌, ◌||◌, arith,
}
use native.Mathlib.Nat.{div-add-mod, mod-lt, one-le-pow}
use yocto_layers.Mcp251xfd.Monad.{Env, Drv}
use yocto_layers.Mcp251xfd.State.{HwTefObj, TefRing, TxRing}
use yocto_layers.Mcp251xfd.Post.{
  Ends, returns, fails, bind-Ends, called-Ends, choose-Ends, when-Ends,
}
use yocto_layers.Mcp251xfd.Ring.{get_tef_tail, get_tef_len, get_tef_linear_len}
use yocto_layers.Mcp251xfd.Tef.{
  tef_new_head, check_tef_tail, tef_tail_get_from_chip, tef_objs, tef_obj_read, tef_objs_read,
}
use yocto_layers.Mcp251xfd.Tef.Head.{round_down_lem}
use yocto_layers.Mcp251xfd.Tef.Progress.{AnyError}

-- The new TEF head lies between the old one and the TX head.
pub tef_new_head-within :
    (k chip : ℕ) (tef : TefRing) (tx : TxRing)
    → tx.obj_num ≡ 2 ^ k
    → tx.obj_num ≤ 128
    → chip < 32
    → tef.head ≤ tx.head
    → tx.head + 256 ≤ 2 ^ 32
    → (tef.head ≤ tef_new_head tef tx chip) × (tef_new_head tef tx chip ≤ tx.head)
unfolding tef_new_head
tef_new_head-within k chip tef tx e small c le wrap =
    let pos : 1 ≤ tx.obj_num = omega (arith, one-le-pow k 2) in
    ground (
      arith,
      round_down_lem k tx.obj_num tef.head e pos small,
      div-add-mod tef.head tx.obj_num,
      mod-lt tef.head pos,
    )

length-tef_objs_read : (n : ℕ) (xs : List HwTefObj) → length (tef_objs_read n xs) ≡ n
length-tef_objs_read zero xs = refl
length-tef_objs_read (suc n) [] = omega (arith, length-tef_objs_read n [])
length-tef_objs_read (suc n) (x ∷ xs) = omega (arith, length-tef_objs_read n xs)

linear-le : (tef : TefRing) (tx : TxRing) → get_tef_linear_len tef tx ≤ get_tef_len tef
unfolding get_tef_linear_len
linear-le tef tx = ground arith

module _ ⦃env : Env⦄ where
  abbrev Same : Drv → Drv → Type 0
  Same s t = t.priv ≡ s.priv

  pub check_tef_tail-Same : (s : Drv) → Ends (λ _ t. Same s t) AnyError (check_tef_tail s)
  unfolding check_tef_tail tef_tail_get_from_chip
  check_tef_tail-Same s =
      when-Ends env.sanity _ s
        (λ _.
          bind-Ends tef_tail_get_from_chip _ s
            (called-Ends {R = λ _ t. Same s t} _ _ s (λ _. returns refl) (λ _ _. tt))
            (λ chip t e.
              choose-Ends (chip == get_tef_tail t.priv.tef t.priv.tx) _ _ t (λ _. returns e)
                (λ _. fails tt)))
        (λ _. refl)

  tef_obj_read-Same :
      (offset len : ℕ) (s : Drv)
      → Ends (λ objs t. Same s t × (length objs ≡ len)) AnyError (tef_obj_read offset len s)
  unfolding tef_obj_read
  tef_obj_read-Same offset len s =
      let n = s.priv.tx.obj_num in
      choose-Ends (env.sanity && (ltb n offset || (ltb n len || ltb n (offset + len)))) _ _ s
        (λ _. fails tt)
        (λ _. called-Ends _ _ s (λ _. returns (refl, length-tef_objs_read len _)) (λ _ _. tt))

  pub tef_objs-Same :
      (s : Drv)
      → Ends (λ objs t. Same s t × (length objs ≡ get_tef_len s.priv.tef)) AnyError (tef_objs s)
  unfolding tef_objs
  tef_objs-Same s =
      let p = s.priv in
      let l = get_tef_linear_len p.tef p.tx in
      let len = get_tef_len p.tef in
      bind-Ends (tef_obj_read (get_tef_tail p.tef p.tx) l) _ s (tef_obj_read-Same _ _ s)
        (λ first t e.
          choose-Ends (ltb l len) _ _ t
            (λ more.
              bind-Ends (tef_obj_read 0 (len - l)) _ t (tef_obj_read-Same 0 (len - l) t)
                (λ others u f. returns (f.0 ∙ e.0, ground (arith, length-append first others))))
            (λ all. returns (e.0, ground (arith, linear-le p.tef p.tx))))
