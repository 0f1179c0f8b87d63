-- ===== src/Array/Defs.antt =====
-- The functions of kern/lib/array.c.
use operating_system.Prelude.{
  ℕ, zero, suc, ◌+◌, ◌-◌, ◌*◌, Bool, true, false, ◌&&◌, Option, none, some, List, [], ◌++◌, ℤ, pos,
  negsuc, ltb, leb, ◌==◌, if◌then◌else◌, get_elem?, set, take, drop, replicate, Outcome, done, halt,
  ◌>>=◌, ◌>>◌, assert, Code, ok, enomem,
}

pub record Array {ℓ} (A : Type ℓ) : Type ℓ where
  pub num : ℕ
  pub max : ℕ
  pub v : Option (List (Option A))

-- `while (nguys > newmax) newmax = (newmax+1)*2;`
unfoldable pub grow_max : ℕ → ℕ → ℕ → ℕ
grow_max zero nguys newmax = newmax
grow_max (suc fuel) nguys newmax =
    let more = grow_max fuel nguys ((newmax + 1) * 2) in if ltb newmax nguys then more else newmax

-- Each round adds at least one, so `nguys` rounds are enough.
abbrev pub new_max : ℕ → ℕ → ℕ
new_max nguys max = grow_max nguys nguys max

module _ {ℓ} {A : Type ℓ} where
  abbrev pub block_of : Option (List (Option A)) → List (Option A)
  block_of none = []
  block_of (some b) = b

  abbrev pub block : Array A → List (Option A)
  block a = block_of a.v

  -- `v[i]`: out of the block, or not yet written, it is no pointer.
  unfoldable pub load : List (Option A) → ℕ → Outcome A
  load b i = elim (get_elem? b i) [
    | none ↦ halt
    | some s ↦ elim s [ none ↦ halt | some x ↦ done x ]
  ]

  -- `newv[i] = x`, where `x` is what stands in the old block
  abbrev pub put : Option (Option A) → ℕ → List (Option A) → List (Option A)
  put none i dst = dst
  put (some s) i dst = set dst i s

  -- `for (i=0; i<a->num; i++) newv[i] = a->v[i];` with `n` rounds left
  unfoldable pub copy : ℕ → ℕ → List (Option A) → List (Option A) → List (Option A)
  copy zero i src dst = dst
  copy (suc n) i src dst = copy n (i + 1) src (put (get_elem? src i) i dst)

  -- `memmove(v + to, v + from, n * sizeof(void *))`
  unfoldable pub memmove : ℕ → ℕ → ℕ → List (Option A) → List (Option A)
  memmove to from n b = take to b ++ (take n (drop from b) ++ drop (to + n) b)

  unfoldable pub create : Bool → Option (Array A)
  create mem = if mem then some (record { num = 0; max = 0; v = none }) else none

  unfoldable pub getnum : Array A → ℕ
  getnum a = a.num

  unfoldable pub getguy : Array A → ℤ → Outcome A
  unfolding load
  getguy a (negsuc n) = halt
  getguy a (pos i) = do assert (leb a.num a.max); assert (ltb i a.num); load (block a) i

  unfoldable pub preallocate : Bool → Array A → ℕ → Outcome (Code × Array A)
  unfolding copy grow_max
  preallocate mem a nguys = do
    assert (leb a.num a.max)
    let newmax = new_max nguys a.max
    let newv = copy a.num 0 (block a) (replicate newmax none)
    if mem then done (ok, record { num = a.num; max = newmax; v = some newv }) else done (enomem, a)

  -- `a->num = nguys` after the block has its size
  unfoldable pub resized : ℕ → Code × Array A → Outcome (Code × Array A)
  resized nguys (ok, a) = done (ok, record a { num = nguys })
  resized nguys (e, a) = done (e, a)

  abbrev pub is_some : Option (List (Option A)) → Bool
  is_some none = false
  is_some (some b) = true

  unfoldable pub setsize : Bool → Array A → ℕ → Outcome (Code × Array A)
  unfolding preallocate resized
  setsize mem a nguys = do
    assert (leb a.num a.max)
    if ltb a.max nguys
        then (preallocate mem a nguys >>= resized nguys)
        else if (nguys == 0) && ltb 16 a.max
        then (assert (is_some a.v) >> done (ok, record { num = nguys; max = 0; v = none }))
        else done (ok, record a { num = nguys })

  -- `v[i] = x;`
  unfoldable pub store : Array A → ℕ → A → Array A
  store a i x = record a { v = elim a.v [ none ↦ none | some b ↦ some (set b i (some x)) ] }

  unfoldable pub setguy : Array A → ℤ → A → Outcome (Array A)
  unfolding store
  setguy a (negsuc n) x = halt
  setguy a (pos i) x = do assert (leb a.num a.max); assert (ltb i a.num); done (store a i x)

  unfoldable pub added : ℕ → A → Code × Array A → Outcome (Code × Array A)
  unfolding store
  added ix x (ok, a) = done (ok, store a ix x)
  added ix x (e, a) = done (e, a)

  unfoldable pub add : Bool → Array A → A → Outcome (Code × Array A)
  unfolding setsize added
  add mem a x = setsize mem a (a.num + 1) >>= added a.num x

  unfoldable pub remove : Array A → ℤ → Outcome (Array A)
  unfolding memmove
  remove a (negsuc n) = halt
  remove a (pos i) = do
    assert (leb a.num a.max)
    assert (ltb i a.num)
    let nmove = a.num - (i + 1)
    done (record {
      num = a.num - 1;
      max = a.max;
      v = elim a.v [ none ↦ none | some b ↦ some (memmove i (i + 1) nmove b) ];
    })
