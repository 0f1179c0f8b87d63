-- ===== src/Kheap/Growth.antt =====
-- kern/lib/kheap.c: a page is filled with free blocks.
use mathlib.Core.Path.{subst}
use native.Mathlib.Decide.{ℕ_discrete}
use operating_system.Prelude.{
  ℕ, zero, suc, ◌+◌, ◌-◌, ◌*◌, ◌/◌, ◌^◌, ◌≤◌, ◌<◌, ◌≡◌, ◌≢◌, refl, sym, ap, ◌∙◌, true, false, arith,
  ◌==◌, page_size, word, done,
}
use operating_system.Kheap.Source.{PageSource, IsPageSource}
use operating_system.Kheap.Defs.{link}
use operating_system.Kheap.Freelist.{IsSize, block_end, block_inside}

module _ {p : PageSource} (laws : IsPageSource p) (fla size : ℕ) (sized : IsSize size)
    (top : fla + page_size < 2 ^ 32) where
  -- Between the states the words of the blocks from `i` up to `j` were set, each to the block before.
  pub record Linked (i j : ℕ) (s s' : p.State) : Type 0 where
    pub valid : laws.Valid s'
    pub owned : (page : ℕ) → laws.Owned s page → laws.Owned s' page
    pub chained : (k : ℕ) → i ≤ k → k < j → p.load s' (fla + k * size) ≡ fla + (k - 1) * size
    pub others :
        (x : ℕ)
        → x < 2 ^ 32
        → ((k : ℕ) → i ≤ k → k < j → x ≢ fla + k * size)
        → p.load s' x ≡ p.load s x

  pub stored : (s : p.State) (a v : ℕ) → a < 2 ^ 32 → p.load (p.store a v s) a ≡ v
  stored s a v lt =
      laws.load-store s a v a lt lt ∙ (let here : (a == a) ≡ true = ground arith in rw here refl)

  pub kept :
      (s : p.State) (a v x : ℕ)
      → a < 2 ^ 32
      → x < 2 ^ 32
      → x ≢ a
      → p.load (p.store a v s) x ≡ p.load s x
  kept s a v x lt lt' ne =
      laws.load-store s a v x lt lt'
      ∙ (let other : (x == a) ≡ false = ground arith in rw other refl)

  link_step :
      (n i fl : ℕ) (s : p.State)
      → 0 < i
      → i < page_size / size
      → link p (suc n) i fla size fl s
        ≡ link p n
            (i + 1)
            fla
            size
            (fla + i * size)
            (p.store (fla + i * size) (fla + (i - 1) * size) s)
  unfolding link
  link_step n i fl s low high =
      let inside = block_inside size sized i high in
      let earlier = block_end size sized (i - 1) i (omega arith) in
      let here : word (fla + i * size) ≡ fla + i * size = omega (arith, sized.low) in
      let before : word (fla + (i - 1) * size) ≡ fla + (i - 1) * size = omega (arith, sized.low) in
      let differ : (fla + i * size == fla + (i - 1) * size) ≡ false =
        ground (arith, earlier, sized.low) in
      rw (link, here, before, differ) refl

  pub link_lem :
      (n i fl : ℕ) (s : p.State)
      → laws.Valid s
      → 0 < i
      → i + n ≤ page_size / size
      → fl ≡ fla + (i - 1) * size
      → (s' : p.State) × (link p n i fla size fl s ≡ done (fla + (i + n - 1) * size, s'))
        × Linked i (i + n) s s'
  unfolding link
  link_lem zero i fl s v low high at = (
    s,
    ap (λ a. done (a, s)) (at ∙ ap (λ k. fla + (k - 1) * size) (omega arith)),
    record {
      valid = v;
      owned = λ page o. o;
      chained = λ k a b. absurd (omega arith);
      others = λ x lt out. refl;
    },
  )
  link_lem (suc n) i fl s v low high at =
      let inside = block_inside size sized i (omega arith) in
      let s1 = p.store (fla + i * size) (fla + (i - 1) * size) s in
      let (s', e, l) =
        link_lem n (i + 1) (fla + i * size) s1
          (laws.store-Valid s (fla + i * size) (fla + (i - 1) * size) v) (omega arith) (omega arith)
          (ap (λ k. fla + k * size) (omega arith)) in
      (
        s',
        link_step n i fl s low (omega arith)
            ∙ e
            ∙ ap (λ k. done (fla + k * size, s')) (omega arith),
        record {
          valid = l.valid;
          owned = λ page o. l.owned page (laws.store-Owned s _ _ page o);
          chained = λ k a b. elim (ℕ_discrete k i) [
            | yes same ↦
                subst (λ t. p.load s' (fla + t * size) ≡ fla + (t - 1) * size) (sym same)
                  (l.others (fla + i * size) (omega (arith, sized.low))
                      (λ t c d. omega (arith, block_end size sized i t (omega arith), sized.low))
                    ∙ stored s (fla + i * size) (fla + (i - 1) * size) (omega (arith, sized.low)))
            | no other ↦ l.chained k (omega arith) (omega arith)
          ];
          others = λ x lt out.
              l.others x lt (λ k a b. out k (omega arith) (omega arith))
              ∙ kept s (fla + i * size) (fla + (i - 1) * size) x (omega (arith, sized.low)) lt
                  (out i (omega arith) (omega arith));
        },
      )
