-- ===== src/Sfs/MapTests.antt =====
-- The block map at a concrete device.
use operating_system.Prelude.{
  ℕ, ◌≡◌, refl, true, false, none, some, List, [], ◌∷◌, arith, ◌==◌, if◌then◌else◌, set, replicate,
  done, ok, einval,
}
use operating_system.Bitmap.Defs.{alloc, isset}
use operating_system.Sfs.BlockMap.{Device, Volume, bmap}
use operating_system.Sfs.Mapping.{bmap-found}

abbrev put : ℕ → List ℕ → (ℕ → List ℕ) → ℕ → List ℕ
put b ws d = λ c. if c == b then ws else d c

abbrev ram : Device
ram = record {
  State = ℕ → List ℕ;
  rblock = λ b d. done (ok, d b, d);
  wblock = λ b ws d. done (ok, put b ws d);
}

abbrev empty_disk : ℕ → List ℕ
empty_disk b = []

-- Sixteen blocks, of which the first four are in use, and a file without blocks.
abbrev fresh : Volume (ℕ → List ℕ)
fresh = record {
  nblocks = 16;
  freemap = record { nbits = 16; v = 15 ∷ 0 ∷ [] };
  freemapdirty = false;
  disk = empty_disk;
  direct = replicate 15 0;
  indirect = 0;
  dirty = false;
}

-- Its block 20 is mapped: block 4 is the indirect block, and block 5 the new one.
abbrev mapped : Volume (ℕ → List ℕ)
mapped = record fresh {
  freemap = record { nbits = 16; v = 63 ∷ 0 ∷ [] };
  freemapdirty = true;
  disk =
      put 4 (set (replicate 128 0) 5 5)
        (put 5 (replicate 128 0) (put 4 (replicate 128 0) empty_disk));
  indirect = 4;
  dirty = true;
}

past_the_end : bmap ram 143 true fresh ≡ done (einval, none, fresh)
unfolding bmap
past_the_end = refl

first_search : bmap ram 20 true fresh ≡ done (ok, some 5, mapped)
unfolding bmap alloc isset
first_search = refl

-- Its block 3 is mapped to block 4.
abbrev direct_mapped : Volume (ℕ → List ℕ)
direct_mapped = record fresh {
  freemap = record { nbits = 16; v = 31 ∷ 0 ∷ [] };
  freemapdirty = true;
  disk = put 4 (replicate 128 0) empty_disk;
  direct = set (replicate 15 0) 3 4;
  dirty = true;
}

direct_search : bmap ram 3 true fresh ≡ done (ok, some 4, direct_mapped)
unfolding bmap alloc isset
direct_search = refl

bmap-found_example : bmap ram 3 false direct_mapped ≡ done (ok, some 4, direct_mapped)
bmap-found_example = bmap-found ram 3 4 fresh direct_mapped (omega arith) direct_search
