-- ===== src/Sfs/Mapping.antt =====
-- kern/fs/sfs/sfs_vnode.c: a direct block that sfs_bmap has mapped is found again.
use mathlib.Core.Path.{subst}
use operating_system.Prelude.{
  ℕ, ◌<◌, ◌≡◌, sym, ap, ◌∙◌, true, false, some, arith, ltb, ◌==◌, get_elem?, set,
  get_elem?-set_self, length, lt_of_get_elem?, Bool-cases, Option-cases, inl, inr, done, ok,
}
use operating_system.Sfs.BlockMap.{
  ndirect, Device, Volume, Found, with_block, hand_back, bmap_direct, bmap_near, bmap,
}
use operating_system.Sfs.Chains.{and_false, hand_back_same, hand_back_again, with_block_lem}

module _ (dev : Device) where
  -- The direct blocks
  bmap_direct_again :
      (f block b : ℕ) (s s' : Volume dev.State)
      → get_elem? s.direct f ≡ some block
      → bmap_direct dev f true block s ≡ done (ok, some b, s')
      → (get_elem? s'.direct f ≡ some b) × (hand_back dev b s' ≡ done (ok, some b, s'))
  unfolding bmap_direct
  bmap_direct_again f block b s s' at e = elim (Bool-cases (block == 0)) [
    | inr there ↦
        let back : hand_back dev block s ≡ done (ok, some b, s') = ground (arith, there, e) in
        let (same, state) = hand_back_same dev block b s s' back in
        (
          ap (λ t. get_elem? t.direct f) (sym state) ∙ at ∙ ap some same,
          hand_back_again dev block b s s' back,
        )
    | inl missing ↦
        let next : ℕ → Volume dev.State → Found dev =
          λ c s1. hand_back dev c (record s1 { direct = set s1.direct f c; dirty = true }) in
        let chain : with_block dev s next ≡ done (ok, some b, s') = ground (arith, missing, e) in
        let (c, s1, was_clear, fields, back) = with_block_lem dev s next chain in
        let (same, state) = hand_back_same dev c b _ s' back in
        let bound : f < length s1.direct =
          subst (λ l. f < length l) (sym fields.2) (lt_of_get_elem? s.direct f at) in
        (
          ap (λ t. get_elem? t.direct f) (sym state)
              ∙ get_elem?-set_self s1.direct f c bound
              ∙ ap some same,
          hand_back_again dev c b _ s' back,
        )
  ]

  bmap_near_again :
      (f b : ℕ) (s s' : Volume dev.State)
      → bmap_near dev f true s ≡ done (ok, some b, s')
      → bmap_near dev f false s' ≡ done (ok, some b, s')
  unfolding bmap_near bmap_direct
  bmap_near_again f b s s' e = elim (Option-cases (get_elem? s.direct f)) [
    | inl past ↦ ground (arith, past, e)
    | inr (block, at) ↦
        let first : bmap_direct dev f true block s ≡ done (ok, some b, s') =
          ground (arith, at, e) in
        let (now, back) = bmap_direct_again f block b s s' at first in
        rw (bmap_near, now, and_false (b == 0)) back
  ]

  -- A direct block of a file, one of the first fifteen, that `sfs_bmap` found or allocated, whatever the
  -- device does: `sfs_bmap` finds it again, without allocating, and changes nothing then.
  pub bmap-found :
      (fileblock b : ℕ) (s s' : Volume dev.State)
      → fileblock < ndirect
      → bmap dev fileblock true s ≡ done (ok, some b, s')
      → bmap dev fileblock false s' ≡ done (ok, some b, s')
  unfolding bmap
  bmap-found fileblock b s s' low e =
      let near : ltb fileblock ndirect ≡ true = ground (arith, low) in
      rw near (bmap_near_again fileblock b s s' (ground (arith, near, e)))
