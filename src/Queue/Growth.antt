-- ===== src/Queue/Growth.antt =====
-- kern/lib/queue.c: `q_grow` and `q_addtail` on a queue that holds a list.
use native.Mathlib.Decide.{dec_lt}
use native.Mathlib.Nat.{mod-lt, mod-eq_of_lt, mod-add-mod}
use operating_system.Prelude.{
  ℕ, zero, suc, ◌+◌, ◌*◌, ◌%◌, ◌^◌, ◌≤◌, ◌<◌, ◌≡◌, ◌≢◌, ◌⊎◌, ap, refl, sym, ◌∙◌, Option, none, some,
  Bool, List, [], ◌∷◌, ◌++◌, arith, ltb, lt→ltb, ◌==◌, ==_iff, true, false, length, get_elem?,
  length-append, length-replicate, wrap_ne, Outcome, done, Code, ok, enomem,
}
use mathlib.Core.Path.{subst}
use mathlib.Core.List.{append_assoc, append-nil}
use operating_system.Queue.Defs.{
  Queue, double, load, must, refill, fresh, grow_with, push, addtail_to, addtail, grow, preallocate,
}
use operating_system.Queue.Holding.{Holds}
use operating_system.Queue.Tail.{push-Holds, next_tail_full, next_tail_room}

-- Up to 2 ^ 30 slots the doubling ends by its test, and the assertion holds.
double_lem :
    (fuel target n : ℕ)
    → 0 < n
    → n < 2 ^ 31
    → target ≤ n + fuel
    → target ≤ 2 ^ 30
    → (k : ℕ) × (double fuel target n ≡ done k) × (target ≤ k) × (n ≤ k) × (k < 2 ^ 31)
unfolding double
double_lem zero target n p s h t = (n, refl, omega arith, omega arith, s)
double_lem (suc fuel) target n p s h t = elim (dec_lt n target) [
  | yes lt ↦
      let (k, e, a, b, c) =
        double_lem fuel target (n * 2) (omega arith) (omega arith) (omega arith) t in
      (k, ground arith, a, omega arith, c)
  | no ge ↦ (n, ground arith, omega arith, omega arith, s)
]

module _ {ℓ} {A : Type ℓ} where
  fresh-Holds : (n : ℕ) → 0 < n → n < 2 ^ 31 → Holds (fresh {A = A} n) []
  fresh-Holds n p s = record {
    small = s;
    room = length-replicate n none;
    head = p;
    fits = p;
    tail = sym (mod-eq_of_lt p);
    cells = λ i x e. ground arith;
  }

  -- The old block, read round from `i`, holds `rest`, which ends at `onw`.
  record Ring (old : List (Option A)) (osize i onw : ℕ) (rest : List A) : Type ℓ where
    inside : i < osize
    shorter : length rest < osize
    last : onw ≡ (i + length rest) % osize
    cells :
        (j : ℕ) (x : A)
        → get_elem? rest j ≡ some x
        → get_elem? old ((i + j) % osize) ≡ some (some x)

  Ring-next :
      {old : List (Option A)} {osize i onw : ℕ} {x : A} {rest : List A}
      → Ring old osize i onw (x ∷ rest)
      → Ring old osize ((i + 1) % osize) onw rest
  Ring-next {old} {osize} {i} {onw} {x} {rest} r = record {
    inside = mod-lt (i + 1) (omega arith);
    shorter = omega arith;
    last = r.last ∙ sym (shift (length rest));
    cells = λ j y e. ap (get_elem? old) (shift j) ∙ r.cells (suc j) y e;
  }
    where
      shift : (j : ℕ) → ((i + 1) % osize + j) % osize ≡ (i + suc j) % osize
      shift j = mod-add-mod (i + 1) osize j ∙ ap (λ k. k % osize) (omega arith)

  size-push : (q : Queue A) (x : A) → (push q x).size ≡ q.size
  unfolding push
  size-push q x = refl

  refill_stop :
      (add : Queue A → A → Outcome (Code × Queue A)) (n i onw osize : ℕ) (old : List (Option A))
      (q : Queue A)
      → i ≡ onw
      → refill add n i onw osize old q ≡ done q
  unfolding refill
  refill_stop add zero i onw osize old q e = rw ((==_iff i onw).1 e)
  refill_stop add (suc n) i onw osize old q e = rw ((==_iff i onw).1 e)

  refill_step :
      (add : Queue A → A → Outcome (Code × Queue A)) (n i onw osize : ℕ) (old : List (Option A))
      {q q' : Queue A} {x : A}
      → i ≢ onw
      → get_elem? old i ≡ some (some x)
      → add q x ≡ done (ok, q')
      → refill add (suc n) i onw osize old q ≡ refill add n ((i + 1) % osize) onw osize old q'
  unfolding refill load must
  refill_step add n i onw osize old {q} {q'} {x} ne at added = ground arith

  -- The copying loop, with a call that adds without growing, moves every element across.
  refill-Holds :
      (add : Queue A → A → Outcome (Code × Queue A))
      → ((q : Queue A) (xs : List A) (x : A)
          → Holds q xs
          → length xs + 1 < q.size
          → add q x ≡ done (ok, push q x))
      → (rest : List A) (n i onw osize : ℕ) (old : List (Option A)) {q : Queue A} {xs : List A}
      → Ring old osize i onw rest
      → length rest ≤ n
      → Holds q xs
      → length xs + length rest < q.size
      → (q' : Queue A) × (refill add n i onw osize old q ≡ done q')
        × Holds q' (xs ++ rest)
        × (q'.size ≡ q.size)
  refill-Holds add adds [] n i onw osize old {q} {xs} r le h room =
      (q, refill_stop add n i onw osize old q here, rw append-nil h, refl)
    where
      here : i ≡ onw
      here = sym (r.last ∙ ap (λ k. k % osize) (omega arith) ∙ mod-eq_of_lt r.inside)
  refill-Holds add adds (x ∷ rest) zero i onw osize old {q} {xs} r le h room = absurd (omega arith)
  refill-Holds add adds (x ∷ rest) (suc n) i onw osize old {q} {xs} r le h room =
      let (q', e, h', s) =
        refill-Holds add adds rest n ((i + 1) % osize) onw osize old {q = push q x}
          {xs = xs ++ (x ∷ [])} (Ring-next r) (omega arith) (push-Holds x h (omega arith))
          (omega (arith, length-append xs (x ∷ []), size-push q x)) in
      (
        q',
        refill_step add n i onw osize old moving here (adds q xs x h (omega arith)) ∙ e,
        subst (Holds q') (append_assoc xs (x ∷ []) rest) h',
        s ∙ size-push q x,
      )
    where
      start : (i + 0) % osize ≡ i
      start = ap (λ k. k % osize) (omega arith) ∙ mod-eq_of_lt r.inside

      here : get_elem? old i ≡ some (some x)
      here = ap (get_elem? old) (sym start) ∙ r.cells 0 x refl

      moving : i ≢ onw
      moving e =
          wrap_ne {h = i} {j = 0} {k = suc (length rest)} r.inside (omega arith) r.shorter
            (start ∙ e ∙ r.last)

  -- The block of a queue, as the copying loop reads it.
  Holds-Ring :
      {q : Queue A} {xs : List A} → Holds q xs → Ring q.slots q.size q.nextread q.nextwrite xs
  Holds-Ring h = record { inside = h.head; shorter = h.fits; last = h.tail; cells = h.cells }

  grow_with-Holds :
      (add : Queue A → A → Outcome (Code × Queue A))
      → ((q : Queue A) (xs : List A) (x : A)
          → Holds q xs
          → length xs + 1 < q.size
          → add q x ≡ done (ok, push q x))
      → {q : Queue A} {xs : List A} (mem : Bool) (target : ℕ) → mem ≡ true
      → Holds q xs
      → q.size < target
      → target ≤ 2 ^ 30
      → (q' : Queue A) × (grow_with add mem q target ≡ done (ok, q'))
        × Holds q' xs
        × (target ≤ q'.size)
  unfolding grow_with
  grow_with-Holds add adds {q} {xs} mem target got h more bound =
      let (k, e, enough, _, s) =
        double_lem target target q.size (omega arith) h.small (omega arith) bound in
      let (q', f, h', z) =
        refill-Holds add adds xs q.size q.nextread q.nextwrite q.size q.slots {q = fresh k}
          {xs = []} (Holds-Ring h) (omega arith) (fresh-Holds k (omega arith) s) (omega arith) in
      (q', rw (e, got, f), h', omega arith)

  -- With a free slot there is no growth, at any depth and whatever the memory.
  addtail_room :
      (depth : ℕ) (mem : Bool) (q : Queue A) (xs : List A) (x : A)
      → Holds q xs
      → length xs + 1 < q.size
      → addtail_to (suc depth) mem q x ≡ done (ok, push q x)
  unfolding addtail_to
  addtail_room depth mem q xs x h lt =
      let e : ((q.nextwrite + 1) % q.size == q.nextread) ≡ false =
        ground (arith, next_tail_room h lt) in
      let p : ltb 0 q.size ≡ true = ground arith in rw (p, e)

  addtail_grown :
      (depth : ℕ) (mem : Bool) (q : Queue A) {q' : Queue A} (x : A)
      → 0 < q.size
      → (q.nextwrite + 1) % q.size ≡ q.nextread
      → grow_with (addtail_to depth mem) mem q (q.size + 1) ≡ done (ok, q')
      → addtail_to (suc depth) mem q x ≡ done (ok, push q' x)
  unfolding addtail_to
  addtail_grown depth mem q x some_room full grown =
      let e : ((q.nextwrite + 1) % q.size == q.nextread) ≡ true = ground arith in
      let p : ltb 0 q.size ≡ true = ground arith in rw (p, e, grown)

  -- `q_addtail` with memory, or with a free slot: the element stands behind the others.
  pub addtail-Holds :
      {q : Queue A} {xs : List A} (mem : Bool) (x : A)
      → Holds q xs
      → q.size < 2 ^ 30
      → (mem ≡ true) ⊎ (length xs + 1 < q.size)
      → (q' : Queue A) × (addtail mem q x ≡ done (ok, q'))
        × Holds q' (xs ++ (x ∷ []))
        × (q.size ≤ q'.size)
  unfolding addtail
  addtail-Holds {q} {xs} mem x h s w = elim (dec_lt (length xs + 1) q.size) [
    | yes lt ↦
        (push q x, addtail_room 1 mem q xs x h lt, push-Holds x h lt, omega (arith, size-push q x))
    | no ge ↦
        let (q', e, h', larger) =
          grow_with-Holds (addtail_to 1 mem) (λ q xs x. addtail_room 0 mem q xs x) mem (q.size + 1)
            (ground arith) h (omega arith) (omega arith) in
        (
          push q' x,
          addtail_grown 1 mem q x (omega arith) (next_tail_full h (omega arith)) e,
          push-Holds x h' (omega arith),
          omega (arith, size-push q' x),
        )
  ]

  -- Without memory a full queue says so and stays as it is.
  pub addtail_refused :
      {q : Queue A} {xs : List A} (x : A)
      → Holds q xs
      → q.size < 2 ^ 30
      → length xs + 1 ≡ q.size
      → addtail false q x ≡ done (enomem, q)
  unfolding addtail grow_with
  addtail_refused {q} x h s full =
      let (k, e, _, _, _) =
        double_lem (q.size + 1) (q.size + 1) q.size (omega arith) h.small (omega arith)
          (omega arith) in
      let t : ((q.nextwrite + 1) % q.size == q.nextread) ≡ true =
        ground (arith, next_tail_full h full) in
      let p : ltb 0 q.size ≡ true = ground arith in rw (p, t, e)

  -- `q_preallocate` with memory: the same elements, in a block of the size asked for or more.
  pub preallocate-Holds_queue :
      {q : Queue A} {xs : List A} (n : ℕ)
      → Holds q xs
      → n ≤ 2 ^ 30
      → (q' : Queue A) × (preallocate true q n ≡ done (ok, q')) × Holds q' xs × (n ≤ q'.size)
  unfolding preallocate grow
  preallocate-Holds_queue {q} n h s = elim (dec_lt q.size n) [
    | yes lt ↦
        let (q', e, h', enough) =
          grow_with-Holds (addtail_to 1 true) (λ q xs x. addtail_room 0 true q xs x) true n refl h
            lt s in
        let p : ltb 0 q.size ≡ true = ground arith in
        (q', rw (p, lt→ltb q.size n lt, e), h', enough)
    | no ge ↦ (q, ground arith, h, omega arith)
  ]

  -- With a free slot the block keeps its size, whatever the memory.
  pub addtail-Holds_room :
      {q : Queue A} {xs : List A} (mem : Bool) (x : A)
      → Holds q xs
      → length xs + 1 < q.size
      → (q' : Queue A) × (addtail mem q x ≡ done (ok, q'))
        × Holds q' (xs ++ (x ∷ []))
        × (q'.size ≡ q.size)
  unfolding addtail
  addtail-Holds_room {q} {xs} mem x h lt =
      (push q x, addtail_room 1 mem q xs x h lt, push-Holds x h lt, size-push q x)
