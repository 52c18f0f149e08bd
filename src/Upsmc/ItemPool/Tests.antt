-- ===== src/Upsmc/ItemPool/Tests.antt =====
-- Runs of internal/item_pool.rs.
use nut_webgui.Prelude.{ℕ, [], ◌∷◌, true, refl}
use nut_webgui.Upsmc.ItemPool.{
  guarding, returning, Pool, pool, pool_new, Steps, start, then, acquire, moves, pop_empty, created,
  release_closed, close, ends,
}
use nut_webgui.Upsmc.ItemPool.Invariant.{IsSound, Steps-IsSound}
use nut_webgui.Upsmc.ItemPool.Closing.{IsDrained, Steps-IsDrained, close_races}

abbrev one_guard : Pool ℕ
one_guard = pool 1 true [] (guarding 7 ∷ [])

one_guard-Steps : Steps (pool_new 2) one_guard
one_guard-Steps =
    then (then (then (then start acquire) (moves [] [] pop_empty)) (moves [] [] created)) close

Steps-IsSound_example : IsSound 2 one_guard
Steps-IsSound_example = Steps-IsSound 2 one_guard one_guard-Steps

Steps-IsDrained_example : IsDrained (pool {A = ℕ} 2 true [] [])
Steps-IsDrained_example =
    Steps-IsDrained one_guard (pool 2 true [] [])
      (record { closed = refl; empty = refl; elsewhere = (tt, tt) })
      (then (then start (moves [] [] (release_closed refl))) (moves [] [] ends))

close_races_example :
    Steps {A = ℕ} (pool_new 1) (pool 0 true [] (returning 7 ∷ []))
    × Steps {A = ℕ} (pool 0 true [] (returning 7 ∷ [])) (pool 1 true (7 ∷ []) [])
close_races_example = close_races 0 7
