-- ===== src/Upsmc/ItemPool/Invariant.antt =====
-- internal/item_pool.rs: permits are neither lost nor made, and there are never more items than the
-- limit.
use nut_webgui.Prelude.{
  ◌⊎◌, inl, inr, ℕ, suc, ◌+◌, ◌≤◌, ◌≡◌, Bool, List, [], ◌∷◌, ◌++◌, length, length-append, arith,
}
use nut_webgui.Upsmc.ItemPool.{
  Phase, seeking, checking, destroying, creating, guarding, returning, discarding, Pool, pool,
  pool_new, Move, Step, Steps, start, then, acquire, moves, pop_checked, pop, pop_empty, ready,
  destroy, destroyed, created, release_open, release_closed, push_back, ends, close, clear,
}

module _ {A : Type 0} where
  -- A call that has an item or is making one.
  abbrev pub owns : Phase A → ℕ
  owns seeking = 0
  owns _ = 1

  unfoldable pub owned : List (Phase A) → ℕ
  owned [] = 0
  owned (c ∷ cs) = owns c + owned cs

  owned-append : (a b : List (Phase A)) → owned (a ++ b) ≡ owned a + owned b
  unfolding owned
  owned-append [] b = omega arith
  owned-append (c ∷ a) b = omega (arith, owned-append a b)

  owns_at_most_one : (c : Phase A) → owns c ≤ 1
  owns_at_most_one seeking = omega arith
  owns_at_most_one (checking a) = omega arith
  owns_at_most_one (destroying a) = omega arith
  owns_at_most_one creating = omega arith
  owns_at_most_one (guarding a) = omega arith
  owns_at_most_one (returning a) = omega arith
  owns_at_most_one (discarding a) = omega arith

  owned-length : (cs : List (Phase A)) → owned cs ≤ length cs
  unfolding owned
  owned-length [] = omega arith
  owned-length (c ∷ cs) = omega (arith, owned-length cs, owns_at_most_one c)

  -- Each permit is free or held by a call, and the items in the queue, in use and in the making are
  -- no more than the limit.
  pub record IsSound (limit : ℕ) (p : Pool A) : Type 0 where
    pub permits_kept : p.permits + length p.calls ≡ limit
    pub bounded : length p.items + owned p.calls ≤ limit

  -- What a move does to the permits and to the items.
  record IsFair (c : Bool) (n : ℕ) (items : List A) (phase : Phase A) (m : ℕ) (rest : List A)
      (next : List (Phase A)) : Type 0 where
    permits_kept : m + length next ≡ suc n
    one_call : owned next ≤ length next
    no_more :
        (length rest + owned next ≤ length items + owns phase)
        ⊎ ((length rest ≡ 0) × (length next ≡ 1))

  Move-IsFair :
      {c : Bool} {n m : ℕ} {items rest : List A} {phase : Phase A} {next : List (Phase A)}
      → Move c n items phase m rest next
      → IsFair c n items phase m rest next
  unfolding owned
  Move-IsFair pop_checked = record {
    permits_kept = omega arith;
    one_call = omega arith;
    no_more = inl (omega arith);
  }
  Move-IsFair pop = record {
    permits_kept = omega arith;
    one_call = omega arith;
    no_more = inl (omega arith);
  }
  Move-IsFair pop_empty = record {
    permits_kept = omega arith;
    one_call = omega arith;
    no_more = inr (omega arith, omega arith);
  }
  Move-IsFair ready = record {
    permits_kept = omega arith;
    one_call = omega arith;
    no_more = inl (omega arith);
  }
  Move-IsFair destroy = record {
    permits_kept = omega arith;
    one_call = omega arith;
    no_more = inl (omega arith);
  }
  Move-IsFair destroyed = record {
    permits_kept = omega arith;
    one_call = omega arith;
    no_more = inl (omega arith);
  }
  Move-IsFair created = record {
    permits_kept = omega arith;
    one_call = omega arith;
    no_more = inl (omega arith);
  }
  Move-IsFair (release_open e) = record {
    permits_kept = omega arith;
    one_call = omega arith;
    no_more = inl (omega arith);
  }
  Move-IsFair (release_closed e) = record {
    permits_kept = omega arith;
    one_call = omega arith;
    no_more = inl (omega arith);
  }
  Move-IsFair (push_back {item = item} {items}) = record {
    permits_kept = omega arith;
    one_call = omega arith;
    no_more = inl (omega (arith, length-append items (item ∷ [])));
  }
  Move-IsFair ends = record {
    permits_kept = omega arith;
    one_call = omega arith;
    no_more = inl (omega arith);
  }

  moves-IsSound :
      (limit n m : ℕ) (c : Bool) (items rest : List A) (phase : Phase A)
      (next before after : List (Phase A))
      → IsFair c n items phase m rest next
      → IsSound limit (pool n c items (before ++ (phase ∷ after)))
      → IsSound limit (pool m c rest (before ++ (next ++ after)))
  unfolding owned
  moves-IsSound limit n m c items rest phase next before after f v =
      let kept : m + length (before ++ (next ++ after)) ≡ limit = omega (
        arith,
        f.permits_kept,
        v.permits_kept,
        length-append before (next ++ after),
        length-append next after,
        length-append before (phase ∷ after),
      ) in
      record {
        permits_kept = kept;
        bounded = elim f.no_more [
          | inl l ↦ omega (
            arith,
            l,
            v.bounded,
            owned-append before (next ++ after),
            owned-append next after,
            owned-append before (phase ∷ after),
          )
          | inr (e, l) ↦ omega (
            arith,
            e,
            l,
            kept,
            f.one_call,
            length-append before (next ++ after),
            length-append next after,
            owned-append before (next ++ after),
            owned-append next after,
            owned-length before,
            owned-length after,
          )
        ];
      }

  Step-IsSound : (limit : ℕ) {p q : Pool A} → Step p q → IsSound limit p → IsSound limit q
  unfolding owned
  Step-IsSound limit acquire v = record {
    permits_kept = omega (arith, v.permits_kept);
    bounded = omega (arith, v.bounded);
  }
  Step-IsSound limit (moves {n} {m} {c} {items} {rest} {phase} {next} before after s) v =
      moves-IsSound limit n m c items rest phase next before after (Move-IsFair s) v
  Step-IsSound limit close v = record { permits_kept = v.permits_kept; bounded = v.bounded }
  Step-IsSound limit clear v = record {
    permits_kept = v.permits_kept;
    bounded = omega (arith, v.bounded);
  }

  -- Whatever the order of the steps, every permit of a new pool is free or held by one call, and
  -- the items in the queue, in use and in the making are never more than its limit.
  pub Steps-IsSound : (limit : ℕ) (p : Pool A) → Steps (pool_new limit) p → IsSound limit p
  unfolding owned
  Steps-IsSound limit p start = record { permits_kept = omega arith; bounded = omega arith }
  Steps-IsSound limit p (then {q} before s) = Step-IsSound limit s (Steps-IsSound limit q before)
