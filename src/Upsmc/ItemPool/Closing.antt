-- ===== src/Upsmc/ItemPool/Closing.antt =====
-- internal/item_pool.rs behind `close`: which items stay in the queue.
use nut_webgui.Prelude.{ℕ, suc, ◌≡◌, refl, Bool, true, List, [], ◌∷◌, ◌++◌, All, All-append}
use nut_webgui.Upsmc.ItemPool.{
  Phase, returning, Pool, pool, pool_new, Move, Step, Steps, start, then, acquire, moves,
  pop_checked, pop, pop_empty, ready, destroy, destroyed, created, release_open, release_closed,
  push_back, ends, close, clear,
}

module _ {A : Type 0} where
  -- The call is not between the test of `is_closed` and `push_back`.
  abbrev pub IsElsewhere : Phase A → Type 0
  IsElsewhere (returning item) = ⊥
  IsElsewhere _ = Unit

  -- The pool is closed, its queue is empty, and no call is about to fill it.
  pub record IsDrained (p : Pool A) : Type 0 where
    pub closed : p.closed ≡ true
    pub empty : p.items ≡ []
    pub elsewhere : All IsElsewhere p.calls

  All-parts :
      (before : List (Phase A)) (c : Phase A) (after : List (Phase A))
      → All IsElsewhere (before ++ (c ∷ after))
      → All IsElsewhere before × (IsElsewhere c × All IsElsewhere after)
  All-parts [] c after h = (tt, (h.0, h.1))
  All-parts (b ∷ before) c after h = let (x, y) = All-parts before c after h.1 in ((h.0, x), y)

  Move-drained :
      {c : Bool} {n m : ℕ} {items rest : List A} {phase : Phase A} {next : List (Phase A)}
      → Move c n items phase m rest next
      → c ≡ true
      → items ≡ []
      → IsElsewhere phase
      → (rest ≡ []) × All IsElsewhere next
  Move-drained pop_checked c e h = (absurd (cc e), (tt, tt))
  Move-drained pop c e h = (absurd (cc e), (tt, tt))
  Move-drained pop_empty c e h = (e, (tt, tt))
  Move-drained ready c e h = (e, (tt, tt))
  Move-drained destroy c e h = (e, (tt, tt))
  Move-drained destroyed c e h = (e, (tt, tt))
  Move-drained created c e h = (e, (tt, tt))
  Move-drained (release_open f) c e h = absurd (cc (c, f))
  Move-drained (release_closed f) c e h = (e, (tt, tt))
  Move-drained push_back c e h = absurd h
  Move-drained ends c e h = (e, tt)

  Step-IsDrained : {p q : Pool A} → Step p q → IsDrained p → IsDrained q
  Step-IsDrained acquire v = absurd (cc v.closed)
  Step-IsDrained (moves {phase = phase} {next} before after s) v =
      let (b, (c, a)) = All-parts before phase after v.elsewhere in
      let (e, n) = Move-drained s v.closed v.empty c in
      record {
        closed = v.closed;
        empty = e;
        elsewhere =
            All-append IsElsewhere before (next ++ after) b (All-append IsElsewhere next after n a);
      }
  Step-IsDrained close v = record { closed = refl; empty = v.empty; elsewhere = v.elsewhere }
  Step-IsDrained clear v = record { closed = v.closed; empty = refl; elsewhere = v.elsewhere }

  -- If no call is between its test of is_closed and its push_back when the closed pool has been
  -- cleared, the queue stays empty, whatever is released later.
  pub Steps-IsDrained : (p q : Pool A) → IsDrained p → Steps p q → IsDrained q
  Steps-IsDrained p q v start = v
  Steps-IsDrained p q v (then {q = r} before s) = Step-IsDrained s (Steps-IsDrained p r v before)

  -- For every limit and item there is an order of steps in which a call that has seen the pool
  -- open fills the queue of the closed and cleared pool, and no call is left that could take the
  -- item out.
  pub close_races :
      (n : ℕ) (item : A)
      → Steps (pool_new (suc n)) (pool n true [] (returning item ∷ []))
        × Steps (pool n true [] (returning item ∷ [])) (pool (suc n) true (item ∷ []) [])
  close_races n item = (
    then
        (then
          (then (then (then (then start acquire) (moves [] [] pop_empty)) (moves [] [] created))
            (moves [] [] (release_open refl)))
          close)
        clear,
    then start (moves [] [] push_back),
  )
