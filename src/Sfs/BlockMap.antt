-- ===== src/Sfs/BlockMap.antt =====
-- kern/fs/sfs/sfs_vnode.c: the allocation of blocks, and the map from a file's blocks to the disk's. An
-- indirect block is read as its words; `idbuf`, which is static there, belongs to the call here. The device
-- is any pair of functions on any state.
use operating_system.Prelude.{
  ℕ, ◌-◌, ◌/◌, ◌%◌, Bool, true, false, not, ◌&&◌, Option, none, some, List, ltb, ◌==◌,
  if◌then◌else◌, get_elem?, set, replicate, Outcome, done, halt, ◌>>=◌, ◌>>◌, assert, Code, ok,
  einval,
}
use operating_system.Bitmap.{Bitmap}
use operating_system.Bitmap.Defs.{alloc, isset, unmark}

abbrev pub ndirect : ℕ
ndirect = 15

abbrev pub dbperidb : ℕ
dbperidb = 128

-- The blocks of a device as words: `sfs_rblock` and `sfs_wblock`.
pub record Device : Type 1 where
  pub State : Type 0
  pub rblock : ℕ → State → Outcome (Code × List ℕ × State)
  pub wblock : ℕ → List ℕ → State → Outcome (Code × State)

-- What the map uses of a `sfs_fs` and of a `sfs_vnode`.
pub record Volume (D : Type 0) : Type 0 where
  pub nblocks : ℕ
  pub freemap : Bitmap
  pub freemapdirty : Bool
  pub disk : D
  pub direct : List ℕ
  pub indirect : ℕ
  pub dirty : Bool

module _ (dev : Device) where
  abbrev pub Found : Type 0
  Found = Outcome (Code × Option ℕ × Volume dev.State)

  -- `if (result) return result;`, with the state that is left
  unfoldable pub if_ok : Code → Volume dev.State → (Volume dev.State → Found) → Found
  if_ok ok s next = next s
  if_ok c s next = done (c, none, s)

  -- A block that a call has stored
  unfoldable pub stored : (ℕ → Found) → Option ℕ → Found
  stored next none = halt
  stored next (some b) = next b

  -- `sfs_clearblock`
  unfoldable pub clear : ℕ → Volume dev.State → Found
  unfolding if_ok
  clear b s = dev.wblock b (replicate dbperidb 0) s.disk >>= λ (c, disk).
      if_ok c (record s { disk = disk }) (λ s1. done (ok, some b, s1))

  -- The rest of `sfs_balloc` behind `bitmap_alloc`
  unfoldable pub allocated : Volume dev.State → ℕ → Found
  unfolding clear
  allocated s b = assert (ltb b s.nblocks) >> clear b (record s { freemapdirty = true })

  -- `sfs_balloc`
  unfoldable pub balloc : Volume dev.State → Found
  unfolding if_ok stored allocated
  balloc s = alloc s.freemap >>= λ (c, r, freemap).
      if_ok c (record s { freemap = freemap }) (λ s1. stored (allocated s1) r)

  -- A call of `sfs_balloc`, and what follows if it succeeds
  unfoldable pub with_block : Volume dev.State → (ℕ → Volume dev.State → Found) → Found
  unfolding if_ok stored balloc
  with_block s next = balloc s >>= λ (c, r, s'). if_ok c s' (λ s1. stored (λ b. next b s1) r)

  -- `sfs_bfree`
  unfoldable pub bfree : ℕ → Volume dev.State → Outcome (Volume dev.State)
  bfree b s =
      unmark s.freemap b >>= λ freemap. done (record s { freemap = freemap; freemapdirty = true })

  -- `sfs_bused`
  unfoldable pub bused : ℕ → Volume dev.State → Outcome Bool
  bused b s = assert (ltb b s.nblocks) >> (isset s.freemap b >>= λ w. done (not (w == 0)))

  -- A block that the free map has as free is a panic.
  unfoldable pub if_used : ℕ → Volume dev.State → Bool → Found
  if_used block s true = done (ok, some block, s)
  if_used block s false = halt

  -- The hand back of a block
  unfoldable pub hand_back : ℕ → Volume dev.State → Found
  unfolding bused if_used
  hand_back block s =
      if block == 0 then done (ok, some block, s) else (bused block s >>= if_used block s)

  -- A direct block
  unfoldable pub bmap_direct : ℕ → Bool → ℕ → Volume dev.State → Found
  unfolding with_block hand_back
  bmap_direct fileblock doalloc block s =
      if block == 0 && doalloc
      then with_block s
          (λ b s1. hand_back b (record s1 { direct = set s1.direct fileblock b; dirty = true }))
      else hand_back block s

  -- A new entry of the indirect block, which is written back
  unfoldable pub add_entry : ℕ → ℕ → List ℕ → ℕ → Volume dev.State → Found
  unfolding if_ok hand_back
  add_entry idoff idblock idbuf b s = dev.wblock idblock (set idbuf idoff b) s.disk >>= λ (c, disk).
      if_ok c (record s { disk = disk }) (hand_back b)

  -- An entry of the indirect block `idblock`, which holds the words `idbuf`
  unfoldable pub bmap_entry : ℕ → Bool → ℕ → List ℕ → Volume dev.State → Found
  unfolding with_block hand_back add_entry
  bmap_entry idoff doalloc idblock idbuf s = elim (get_elem? idbuf idoff) [
    | none ↦ halt
    | some block ↦
        if block == 0 && doalloc
        then with_block s (add_entry idoff idblock idbuf)
        else hand_back block s
  ]

  -- The indirect block that is there is read.
  unfoldable pub bmap_old : ℕ → Bool → Volume dev.State → Found
  unfolding if_ok bmap_entry
  bmap_old idoff doalloc s = dev.rblock s.indirect s.disk >>= λ (c, idbuf, disk).
      if_ok c (record s { disk = disk }) (bmap_entry idoff doalloc s.indirect idbuf)

  -- An indirect block is allocated, with all entries 0.
  unfoldable pub bmap_new : ℕ → Volume dev.State → Found
  unfolding with_block bmap_entry
  bmap_new idoff s = with_block s (λ b s1.
      bmap_entry idoff true b (replicate dbperidb 0) (record s1 { indirect = b; dirty = true }))

  unfoldable pub bmap_indirect : ℕ → Bool → Volume dev.State → Found
  unfolding bmap_old bmap_new
  bmap_indirect idoff doalloc s =
      if s.indirect == 0
      then (if doalloc then bmap_new idoff s else done (ok, some 0, s))
      else bmap_old idoff doalloc s

  unfoldable pub bmap_far : ℕ → Bool → Volume dev.State → Found
  unfolding bmap_indirect
  bmap_far fileblock doalloc s =
      if ltb 0 (fileblock / dbperidb)
      then done (einval, none, s)
      else bmap_indirect (fileblock % dbperidb) doalloc s

  unfoldable pub bmap_near : ℕ → Bool → Volume dev.State → Found
  unfolding bmap_direct
  bmap_near fileblock doalloc s = elim (get_elem? s.direct fileblock) [
    | none ↦ halt
    | some block ↦ bmap_direct fileblock doalloc block s
  ]

  -- `sfs_bmap`
  unfoldable pub bmap : ℕ → Bool → Volume dev.State → Found
  unfolding bmap_far bmap_near
  bmap fileblock doalloc s =
      if ltb fileblock ndirect
      then bmap_near fileblock doalloc s
      else bmap_far (fileblock - ndirect) doalloc s
