-- ===== src/Inode/Shrinking.antt =====
-- inode/shrink.go: the loop of `Shrink` lowers the shrink size step by step and ends before its fuel.
use go_nfsd.Prelude.{
  ℕ, zero, suc, ◌-◌, ◌≤◌, ◌<◌, ◌≡◌, refl, inl, inr, Bool, true, false, Bool-cases, ◌&&◌, ltb,
  le→ltb, subst, ltb→lt, ◌==◌, Outcome-cases, OnOk, IsU64, sub64, index, store, arith,
}
use go_nfsd.External.World.{World}
use go_nfsd.Alloctxn.{AllocTxn, free_block}
use go_nfsd.Inode.Layout.{Inode, ndirect, indirect, dindirect, nblkblk}
use go_nfsd.Inode.Sizes.{
  is_shrinking, shrink_fits, free_index, indshrink, shrink_index, shrink_one, shrink_loop,
}

module _ (W : World) where
  -- The size and the shrink size are as given.
  abbrev Sizes : ℕ → ℕ → Inode × AllocTxn W → Type 0
  Sizes size k r = (r.0.size ≡ size) × (r.0.shrink_size ≡ k)

  free_index-Sizes :
      (ip : Inode) (atxn : AllocTxn W) (i : ℕ)
      → OnOk (free_index W ip atxn i) (Sizes ip.size ip.shrink_size)
  unfolding free_index
  free_index-Sizes ip atxn i = elim (Outcome-cases (index ip.blks i)) [
    | inl bad ↦ rw bad tt
    | inr (b, got) ↦ rw got (elim (Outcome-cases (free_block W atxn b)) [
      | inl bad ↦ rw bad tt
      | inr (atxn1, freed) ↦ rw freed (elim (Outcome-cases (store ip.blks i 0)) [
        | inl bad ↦ rw bad tt
        | inr (blks, stored) ↦ rw stored (refl, refl)
      ])
    ])
  ]

  shrink_index-Sizes :
      (ip : Inode) (atxn : AllocTxn W) (i level off : ℕ)
      → OnOk (shrink_index W ip atxn i level off) (Sizes ip.size ip.shrink_size)
  unfolding shrink_index
  shrink_index-Sizes ip atxn i level off = elim (Outcome-cases (index ip.blks i)) [
    | inl bad ↦ rw bad tt
    | inr (root, got) ↦ rw got (elim (Outcome-cases (indshrink W atxn root level off)) [
      | inl bad ↦ rw bad tt
      | inr ((freeroot, atxn1), shrunk) ↦ rw shrunk (elim (Bool-cases (freeroot == 0)) [
        | inl none ↦ rw none (refl, refl)
        | inr all ↦ rw all (rw got at (free_index-Sizes ip atxn1 i))
      ])
    ])
  ]

  at_end : (ip : Inode) → ip.shrink_size ≡ 0 → is_shrinking W ip ≡ false
  unfolding is_shrinking
  at_end ip e = le→ltb _ _ (omega (arith, e))

  shrinking_pos : (ip : Inode) → is_shrinking W ip ≡ true → 0 < ip.shrink_size
  unfolding is_shrinking
  shrinking_pos ip h = omega (arith, ltb→lt _ _ h)

  and_left : (a b : Bool) → (a && b) ≡ true → a ≡ true
  and_left true b h = refl
  and_left false b h = absurd (cc h)

  shrink_one-Sizes :
      (ip : Inode) (atxn : AllocTxn W)
      → OnOk (shrink_one W ip atxn) (Sizes ip.size (sub64 ip.shrink_size 1))
  unfolding shrink_one
  shrink_one-Sizes ip atxn = elim (Bool-cases (ltb k ndirect)) [
    | inl direct ↦ rw direct (free_index-Sizes ip' atxn k)
    | inr more ↦ rw more (elim (Bool-cases (ltb (k - ndirect) (nblkblk W))) [
      | inl single ↦ rw single (shrink_index-Sizes ip' atxn indirect 1 (k - ndirect))
      | inr double ↦ rw double (shrink_index-Sizes ip' atxn dindirect 2 (k - ndirect - nblkblk W))
    ])
  ]
    where
      k : ℕ
      k = sub64 ip.shrink_size 1

      ip' : Inode
      ip' = record ip { shrink_size = k }

  -- From the shrink size on, which is what `Shrink` gives it, more fuel does not change the loop of
  -- `Shrink`.
  pub shrink_loop_fuel :
      (fuel fuel' : ℕ) (ip : Inode) (atxn : AllocTxn W)
      → IsU64 ip.shrink_size
      → ip.shrink_size ≤ fuel
      → ip.shrink_size ≤ fuel'
      → shrink_loop W fuel ip atxn ≡ shrink_loop W fuel' ip atxn
  unfolding shrink_loop
  shrink_loop_fuel zero zero ip atxn small h h' = refl
  shrink_loop_fuel zero (suc fuel') ip atxn small h h' = rw (at_end ip (omega arith)) refl
  shrink_loop_fuel (suc fuel) zero ip atxn small h h' = rw (at_end ip (omega arith)) refl
  shrink_loop_fuel (suc fuel) (suc fuel') ip atxn small h h' =
      elim (Bool-cases (is_shrinking W ip && shrink_fits W atxn 5)) [
        | inr over ↦ rw over refl
        | inl more ↦ rw more (elim (Outcome-cases (shrink_one W ip atxn)) [
          | inl bad ↦ rw bad refl
          | inr ((ip1, atxn1), one) ↦
              let kept : Sizes ip.size (sub64 ip.shrink_size 1) (ip1, atxn1) =
                subst (λ m. OnOk m (Sizes ip.size (sub64 ip.shrink_size 1))) one
                  (shrink_one-Sizes ip atxn) in
              let pos : 0 < ip.shrink_size = shrinking_pos ip (and_left _ _ more) in
              rw one
                (shrink_loop_fuel fuel fuel' ip1 atxn1 (omega arith) (omega arith) (omega arith))
        ])
      ]
