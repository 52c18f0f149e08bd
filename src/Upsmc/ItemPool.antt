-- ===== src/Upsmc/ItemPool.antt =====
-- internal/item_pool.rs: the pool that its clones share, and the calls that are under way. A call
-- holds one permit of the semaphore from its start to its end; a step is what happens between two
-- `await`s. The items, the allocator's answers and the order of steps are free.
pub mod Invariant
pub mod Closing
mod Tests
use nut_webgui.Prelude.{ℕ, zero, suc, ◌+◌, ◌≡◌, Bool, true, false, List, [], ◌∷◌, ◌++◌}

module _ (A : Type 0) where
  -- Where a call of `get_checked`, `get` or `release` stands.
  pub data Phase : Type 0 where
    -- In front of `pop_front`.
    seeking : Phase
    -- In `prealloc_check`, which has the item.
    checking : A → Phase
    -- In `dealloc` of an item that the check refused; the loop goes on behind it.
    destroying : A → Phase
    -- In `init`.
    creating : Phase
    -- A `PoolGuard` with this item.
    guarding : A → Phase
    -- In `release`, behind the test of `is_closed`, in front of `push_back`.
    returning : A → Phase
    -- In `release`, in `dealloc`.
    discarding : A → Phase

  pub record Pool : Type 0 where
    pub permits : ℕ
    pub closed : Bool
    pub items : List A
    pub calls : List Phase

module _ {A : Type 0} where
  -- `ItemPool::new`.
  abbrev pub pool_new : ℕ → Pool A
  pool_new limit = record { permits = limit; closed = false; items = []; calls = [] }

  abbrev pub pool : ℕ → Bool → List A → List (Phase A) → Pool A
  pool permits closed items calls = record {
    permits = permits;
    closed = closed;
    items = items;
    calls = calls;
  }

  -- What one call may do: the permits, the queue and its phase before and after; it has ended if it
  -- has no phase.
  pub data Move (c : Bool) : ℕ → List A → Phase A → ℕ → List A → List (Phase A) → Type 0 where
    -- `pop_front` of `get_checked`.
    pop_checked :
        {n : ℕ} {item : A} {items : List A}
        → Move c n (item ∷ items) seeking n items (checking item ∷ [])
    -- `pop_front` of `get`.
    pop :
        {n : ℕ} {item : A} {items : List A}
        → Move c n (item ∷ items) seeking n items (guarding item ∷ [])
    -- `pop_front` of an empty queue.
    pop_empty : {n : ℕ} → Move c n [] seeking n [] (creating ∷ [])
    -- `prealloc_check` returns `Ready` or `Destroy`, with the item or another one.
    ready :
        {n : ℕ} {item checked : A} {items : List A}
        → Move c n items (checking item) n items (guarding checked ∷ [])
    destroy :
        {n : ℕ} {item refused : A} {items : List A}
        → Move c n items (checking item) n items (destroying refused ∷ [])
    -- `continue`.
    destroyed :
        {n : ℕ} {item : A} {items : List A}
        → Move c n items (destroying item) n items (seeking ∷ [])
    -- `init` returns an item.
    created :
        {n : ℕ} {item : A} {items : List A} → Move c n items creating n items (guarding item ∷ [])
    -- `release`, by what `is_closed` says.
    release_open :
        {n : ℕ} {item : A} {items : List A}
        → c ≡ false
        → Move c n items (guarding item) n items (returning item ∷ [])
    release_closed :
        {n : ℕ} {item : A} {items : List A}
        → c ≡ true
        → Move c n items (guarding item) n items (discarding item ∷ [])
    -- `push_back`, and the end of the call. The permit goes back.
    push_back :
        {n : ℕ} {item : A} {items : List A}
        → Move c n items (returning item) (suc n) (items ++ (item ∷ [])) []
    -- The end of a call in any phase: `init` fails, `dealloc` is done, `into_inner`, or the future or
    -- the guard is dropped. The permit goes back.
    ends : {n : ℕ} {items : List A} {phase : Phase A} → Move c n items phase (suc n) items []

  pub data Step : Pool A → Pool A → Type 0 where
    -- `acquire_owned`, which waits for a permit and fails on a closed semaphore.
    acquire :
        {n : ℕ} {items : List A} {calls : List (Phase A)}
        → Step (pool (suc n) false items calls) (pool n false items (seeking ∷ calls))
    -- A call between `before` and `after` moves.
    moves :
        {n m : ℕ} {c : Bool} {items rest : List A} {phase : Phase A} {next : List (Phase A)}
        (before after : List (Phase A))
        → Move c n items phase m rest next
        → Step
            (pool n c items (before ++ (phase ∷ after)))
            (pool m c rest (before ++ (next ++ after)))
    -- `close` of the semaphore, and `clear`, which holds the lock of the queue to its end.
    close :
        {n : ℕ} {c : Bool} {items : List A} {calls : List (Phase A)}
        → Step (pool n c items calls) (pool n true items calls)
    clear :
        {n : ℕ} {c : Bool} {items : List A} {calls : List (Phase A)}
        → Step (pool n c items calls) (pool n c [] calls)

  pub data Steps (p : Pool A) : Pool A → Type 0 where
    start : Steps p p
    then : {q r : Pool A} → Steps p q → Step q r → Steps p r
