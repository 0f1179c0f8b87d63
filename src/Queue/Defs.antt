-- ===== src/Queue/Defs.antt =====
-- The functions of kern/lib/queue.c.
use operating_system.Prelude.{
  ℕ, zero, suc, ◌+◌, ◌*◌, ◌%◌, ◌^◌, Bool, not, ◌&&◌, Option, none, some, List, ℤ, pos, negsuc, ltb,
  ◌==◌, if◌then◌else◌, get_elem?, set, replicate, Outcome, done, halt, ◌>>=◌, ◌>>◌, assert, Code,
  ok, enomem,
}

pub record Queue {ℓ} (A : Type ℓ) : Type ℓ where
  pub size : ℕ
  pub nextwrite : ℕ
  pub nextread : ℕ
  pub slots : List (Option A)

-- `while (nsize < targetsize) { nsize *= 2; assert(nsize > 0); }`: an `int` that is doubled from
-- below 2 ^ 31 is positive exactly if it is still below 2 ^ 31.
unfoldable pub double : ℕ → ℕ → ℕ → Outcome ℕ
double zero target n = done n
double (suc fuel) target n =
    let more = double fuel target (n * 2) in
    if ltb n target then (assert (ltb (n * 2) (2 ^ 31) && ltb 0 (n * 2)) >> more) else done n

module _ {ℓ} {A : Type ℓ} where
  -- `data[i]`, which is no pointer out of the block or before the first write
  unfoldable pub load : List (Option A) → ℕ → Outcome A
  load b i = elim (get_elem? b i) [
    | none ↦ halt
    | some s ↦ elim s [ none ↦ halt | some x ↦ done x ]
  ]

  -- assert(result == 0);
  unfoldable pub must : Code × Queue A → Outcome (Queue A)
  must (ok, q) = done q
  must (e, q) = halt

  -- `for (i = onr; i != onw; i = (i+1) % osize) { result = q_addtail(q, olddata[i]); assert(result==0); }`
  -- An iteration that runs past `osize` rounds would go on for ever: it is a halt.
  unfoldable pub refill :
      (Queue A → A → Outcome (Code × Queue A))
      → ℕ
      → ℕ
      → ℕ
      → ℕ
      → List (Option A)
      → Queue A
      → Outcome (Queue A)
  refill add zero i onw osize old q = if i == onw then done q else halt
  refill add (suc n) i onw osize old q =
      let rest = (do
        x ← load old i
        r ← add q x
        q' ← must r
        refill add n ((i + 1) % osize) onw osize old q') in
      if i == onw then done q else rest

  abbrev filled : Outcome (Queue A) → Outcome (Code × Queue A)
  filled o = o >>= λ q. done (ok, q)

  -- `q->size = nsize; q->data = ndata; q->nextread = q->nextwrite = 0;`
  abbrev pub fresh : ℕ → Queue A
  fresh n = record { size = n; nextwrite = 0; nextread = 0; slots = replicate n none }

  unfoldable pub grow_with :
      (Queue A → A → Outcome (Code × Queue A)) → Bool → Queue A → ℕ → Outcome (Code × Queue A)
  unfolding double load must refill
  grow_with add mem q target = do
    nsize ← double target target q.size
    if mem
        then filled (refill add q.size q.nextread q.nextwrite q.size q.slots (fresh nsize))
        else done (enomem, q)

  -- `q->data[q->nextwrite] = ptr; q->nextwrite = nextnext;`
  unfoldable pub push : Queue A → A → Queue A
  push q x = record q {
    slots = set q.slots q.nextwrite (some x);
    nextwrite = (q.nextwrite + 1) % q.size;
  }

  unfoldable pub pushed : A → Code × Queue A → Outcome (Code × Queue A)
  unfolding push
  pushed x (ok, q) = done (ok, push q x)
  pushed x (e, q) = done (e, q)

  unfoldable pub addtail_to : ℕ → Bool → Queue A → A → Outcome (Code × Queue A)
  unfolding grow_with push pushed
  addtail_to zero mem q x = halt
  addtail_to (suc depth) mem q x =
      let grown = grow_with (addtail_to depth mem) mem q (q.size + 1) in
      do
        assert (ltb 0 q.size)
        if (q.nextwrite + 1) % q.size == q.nextread
            then (grown >>= pushed x)
            else done (ok, push q x)

  unfoldable pub addtail : Bool → Queue A → A → Outcome (Code × Queue A)
  unfolding addtail_to
  addtail mem q x = addtail_to 2 mem q x

  unfoldable pub grow : Bool → Queue A → ℕ → Outcome (Code × Queue A)
  unfolding addtail_to
  grow mem q target = grow_with (addtail_to 1 mem) mem q target

  -- Two `kmalloc`s: the structure, and the block.
  unfoldable pub create : Bool → Bool → ℕ → Option (Queue A)
  create mem_q mem_block size = if mem_q && mem_block then some (fresh size) else none

  unfoldable pub preallocate : Bool → Queue A → ℕ → Outcome (Code × Queue A)
  unfolding grow
  preallocate mem q size = do
    assert (ltb 0 q.size)
    if ltb q.size size then grow mem q size else done (ok, q)

  unfoldable pub is_empty : Queue A → Bool
  is_empty q = q.nextwrite == q.nextread

  unfoldable pub remhead : Queue A → Outcome (A × Queue A)
  unfolding load is_empty
  remhead q = do
    assert (ltb 0 q.size)
    assert (not (is_empty q))
    x ← load q.slots q.nextread
    done (x, record q { nextread = (q.nextread + 1) % q.size })

  -- `q_destroy`: the queue must be empty; its memory goes back.
  unfoldable pub destroy : Queue A → Outcome (Unit {0})
  unfolding is_empty
  destroy q = assert (is_empty q)

  unfoldable pub getstart : Queue A → ℕ
  getstart q = q.nextread

  unfoldable pub getend : Queue A → ℕ
  getend q = q.nextwrite

  unfoldable pub getsize : Queue A → ℕ
  getsize q = q.size

  unfoldable pub getguy : Queue A → ℤ → Outcome A
  unfolding load
  getguy q (negsuc n) = halt
  getguy q (pos i) = do assert (ltb i q.size); load q.slots i
