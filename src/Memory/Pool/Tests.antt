-- ===== src/Memory/Pool/Tests.antt =====
-- The pool at concrete inputs.
use mountpoint_s.Prelude.{refl, [], ◌∷◌, some, ◌≡◌}
use mountpoint_s.Memory.Pool
use mountpoint_s.Memory.SizePool
use mountpoint_s.Memory.SizeStats
use mountpoint_s.Memory.Pool.{new_with_candidate_sizes, get_pool_for_size, ordered_sizes}
use mountpoint_s.Memory.Pool.Sizes.{Chosen, get_pool_for_size_lem}

get_pool_for_size_lem_example :
    Chosen (10 ∷ 0 ∷ 5 ∷ []) 7 (get_pool_for_size 7 (new_with_candidate_sizes (10 ∷ 0 ∷ 5 ∷ [])))
get_pool_for_size_lem_example = get_pool_for_size_lem (10 ∷ 0 ∷ 5 ∷ []) 7

pool_chosen : get_pool_for_size 7 (new_with_candidate_sizes (10 ∷ 0 ∷ 5 ∷ [])) ≡ some 1
unfolding get_pool_for_size new_with_candidate_sizes Pool.ordered_sizes SizePool.new SizeStats.new
pool_chosen = refl

-- A size that is given twice stays, unless the two are side by side.
size_twice : ordered_sizes (5 ∷ 10 ∷ 5 ∷ []) ≡ 5 ∷ 5 ∷ 10 ∷ []
unfolding Pool.ordered_sizes
size_twice = refl
