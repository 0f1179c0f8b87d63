-- ===== src/Sfs/Chains.antt =====
-- kern/fs/sfs/sfs_vnode.c: what a call of sfs_bmap or sfs_balloc that succeeds has done on the way.
use mathlib.Core.Path.{subst}
use operating_system.Prelude.{
  ℕ, ◌<◌, ◌≡◌, refl, sym, ap, ◌∙◌, Bool, true, false, ◌&&◌, Option, none, some, arith, ltb, ◌==◌,
  replicate, Bool-cases, inl, inr, Outcome, done, >>=-eq-done, Code, ok, einval, efault, enomem,
  eagain, eunimp, enospc, eio,
}
use operating_system.Bitmap.Defs.{alloc, isset}
use operating_system.Bitmap.Clear.{alloc-isset}
use operating_system.Sfs.BlockMap.{
  dbperidb, Device, Volume, Found, clear, if_ok, stored, allocated, balloc, bused, if_used,
  with_block, hand_back,
}

done_eq :
    {A : Type 0} (r : Code × Option ℕ × A) (c : ℕ)
    → r.0 ≡ ok
    → r.1 ≡ some c
    → ◌≡◌ {A = Outcome (Code × Option ℕ × A)} (done r) (done (ok, some c, r.2))
done_eq r c is_ok is_c = λ i. done (is_ok i, is_c i, r.2)

pub and_false : (c : Bool) → (c && false) ≡ false
and_false true = refl
and_false false = refl

module _ (dev : Device) where
  pub if_ok_lem :
      (c : Code) (s : Volume dev.State) (next : Volume dev.State → Found dev) {b : ℕ}
      {s' : Volume dev.State}
      → if_ok dev c s next ≡ done (ok, some b, s')
      → (c ≡ ok) × (next s ≡ done (ok, some b, s'))
  unfolding if_ok
  if_ok_lem ok s next e = (refl, e)
  if_ok_lem einval s next e = cc
  if_ok_lem efault s next e = cc
  if_ok_lem enomem s next e = cc
  if_ok_lem eagain s next e = cc
  if_ok_lem eunimp s next e = cc
  if_ok_lem enospc s next e = cc
  if_ok_lem eio s next e = cc

  stored_lem :
      (next : ℕ → Found dev) (r : Option ℕ) {b : ℕ} {s' : Volume dev.State}
      → stored dev next r ≡ done (ok, some b, s')
      → (c : ℕ) × (r ≡ some c) × (next c ≡ done (ok, some b, s'))
  unfolding stored
  stored_lem next none e = cc
  stored_lem next (some c) e = (c, refl, e)

  found_inj :
      (b c : ℕ) (s s' : Volume dev.State)
      → ◌≡◌ {A = Found dev} (done (ok, some c, s)) (done (ok, some b, s'))
      → (c ≡ b) × (s ≡ s')
  found_inj b c s s' e = (cc, cc)

  if_used_same :
      (block b : ℕ) (s s' : Volume dev.State) (used : Bool)
      → if_used dev block s used ≡ done (ok, some b, s')
      → (block ≡ b) × (s ≡ s')
  unfolding if_used
  if_used_same block b s s' true e = found_inj b block s s' e
  if_used_same block b s s' false e = cc

  pub hand_back_same :
      (block b : ℕ) (s s' : Volume dev.State)
      → hand_back dev block s ≡ done (ok, some b, s')
      → (block ≡ b) × (s ≡ s')
  unfolding hand_back
  hand_back_same block b s s' e = elim (Bool-cases (block == 0)) [
    | inl no_block ↦ found_inj b block s s' (ground (arith, no_block, e))
    | inr a_block ↦
        let (used, check, rest) =
          >>=-eq-done (bused dev block s) (if_used dev block s) (ground (arith, a_block, e)) in
        if_used_same block b s s' used rest
  ]

  -- A block that was handed back once is handed back again.
  pub hand_back_again :
      (block b : ℕ) (s s' : Volume dev.State)
      → hand_back dev block s ≡ done (ok, some b, s')
      → hand_back dev b s' ≡ done (ok, some b, s')
  hand_back_again block b s s' e =
      let same = hand_back_same block b s s' e in
      subst (λ t. hand_back dev b t ≡ done (ok, some b, s')) same.1
        (subst (λ c. hand_back dev c s ≡ done (ok, some b, s')) same.0 e)

  -- What `sfs_balloc` changes of the inode, and which block it gives.
  abbrev pub Allocated : ℕ → Volume dev.State → Volume dev.State → Type 0
  Allocated b s s' =
      (b < s.nblocks)
      × (s'.nblocks ≡ s.nblocks)
      × (s'.direct ≡ s.direct)
      × (s'.indirect ≡ s.indirect)

  clear_lem :
      (c b : ℕ) (s s' : Volume dev.State)
      → clear dev c s ≡ done (ok, some b, s')
      → (c ≡ b) × (s'.nblocks ≡ s.nblocks) × (s'.direct ≡ s.direct) × (s'.indirect ≡ s.indirect)
  unfolding clear
  clear_lem c b s s' e =
      let (r, wrote, rest) = >>=-eq-done (dev.wblock c (replicate dbperidb 0) s.disk) _ e in
      let (is_ok, more) = if_ok_lem r.0 _ _ rest in
      let (same, state) = found_inj b c (record s { disk = r.1 }) s' more in
      (
        same,
        sym (ap (λ t. t.nblocks) state),
        sym (ap (λ t. t.direct) state),
        sym (ap (λ t. t.indirect) state),
      )

  allocated_lem :
      (c b : ℕ) (s s' : Volume dev.State)
      → allocated dev s c ≡ done (ok, some b, s')
      → (c ≡ b) × Allocated b s s'
  unfolding allocated
  allocated_lem c b s s' e = elim (Bool-cases (ltb c s.nblocks)) [
    | inr high ↦ ground (arith, high, e)
    | inl low ↦
        let cleared : clear dev c (record s { freemapdirty = true }) ≡ done (ok, some b, s') =
          ground (arith, low, e) in
        let (same, n, direct, indirect) =
          clear_lem c b (record s { freemapdirty = true }) s' cleared in
        (same, (ground (arith, low, same), n, direct, indirect))
  ]

  balloc_lem :
      (b : ℕ) (s s' : Volume dev.State)
      → balloc dev s ≡ done (ok, some b, s')
      → (isset s.freemap b ≡ done 0) × Allocated b s s'
  unfolding balloc
  balloc_lem b s s' e =
      let (r, got, rest) = >>=-eq-done (alloc s.freemap) _ e in
      let (is_ok, more) = if_ok_lem r.0 _ _ rest in
      let (c, is_c, last) = stored_lem _ r.1 more in
      let (same, fields) = allocated_lem c b (record s { freemap = r.2 }) s' last in
      (alloc-isset s.freemap r.2 b (got ∙ done_eq r b is_ok (is_c ∙ ap some same)), fields)

  -- A block that is allocated on the way
  pub with_block_lem :
      (s : Volume dev.State) (next : ℕ → Volume dev.State → Found dev) {b : ℕ}
      {s' : Volume dev.State}
      → with_block dev s next ≡ done (ok, some b, s')
      → (c : ℕ) × (s1 : Volume dev.State) × (isset s.freemap c ≡ done 0)
        × Allocated c s s1
        × (next c s1 ≡ done (ok, some b, s'))
  unfolding with_block
  with_block_lem s next e =
      let (r, got, rest) = >>=-eq-done (balloc dev s) _ e in
      let (is_ok, more) = if_ok_lem r.0 _ _ rest in
      let (c, is_c, last) = stored_lem _ r.1 more in
      let (was_clear, fields) = balloc_lem c s r.2 (got ∙ done_eq r c is_ok is_c) in
      (c, r.2, was_clear, fields, last)
