-- ===== src/Kheap/Source.antt =====
-- What kern/lib/kheap.c asks of the page allocator and of memory.
use operating_system.Prelude.{
  ℕ, ◌+◌, ◌%◌, ◌^◌, ◌≤◌, ◌<◌, ◌≡◌, ◌≢◌, ◌⊎◌, Outcome, done, page_size, ◌==◌, if◌then◌else◌,
}

-- The words of memory, and the pages: `alloc_kpages` and `free_kpages`.
pub record PageSource : Type 1 where
  pub State : Type 0
  pub load : State → ℕ → ℕ
  pub store : ℕ → ℕ → State → State
  pub alloc : ℕ → State → Outcome (ℕ × State)
  pub free : ℕ → State → Outcome State

-- The word at `a` lies in the page.
abbrev pub InPage : ℕ → ℕ → Type 0
InPage page a = (page ≤ a) × (a < page + page_size)

-- What one page that was asked for is, where `Owned` are the pages in somebody's hands: it is nobody's
-- before, and the rest of memory stays.
pub record Given (p : PageSource) (Owned : p.State → ℕ → Type 0) (s s' : p.State) (a : ℕ)
    : Type 0 where
  pub some_page : 0 < a
  pub aligned : a % page_size ≡ 0
  pub below : a + page_size < 2 ^ 32
  pub fresh : Owned s a → ⊥
  pub owned : Owned s' a
  pub same : (x : ℕ) → x < 2 ^ 32 → (InPage a x → ⊥) → p.load s' x ≡ p.load s x

-- The laws that the proofs about the heap use.
pub record IsPageSource (p : PageSource) : Type 1 where
  pub Valid : p.State → Type 0
  pub Owned : p.State → ℕ → Type 0
  pub load-store :
      (s : p.State) (a v x : ℕ)
      → a < 2 ^ 32
      → x < 2 ^ 32
      → p.load (p.store a v s) x ≡ (if x == a then v else p.load s x)
  pub store-Valid : (s : p.State) (a v : ℕ) → Valid s → Valid (p.store a v s)
  pub store-Owned : (s : p.State) (a v page : ℕ) → Owned s page → Owned (p.store a v s) page
  pub alloc_lem :
      (s : p.State)
      → Valid s
      → (a : ℕ) × (s' : p.State) × (p.alloc 1 s ≡ done (a, s'))
        × Valid s'
        × ((page : ℕ) → Owned s page → Owned s' page)
        × (((a ≡ 0) × (s' ≡ s)) ⊎ Given p Owned s s' a)
  pub free_lem :
      (s : p.State) (a : ℕ)
      → Valid s
      → Owned s a
      → (s' : p.State) × (p.free a s ≡ done s')
        × Valid s'
        × ((page : ℕ) → page ≢ a → Owned s page → Owned s' page)
        × ((x : ℕ) → p.load s' x ≡ p.load s x)
