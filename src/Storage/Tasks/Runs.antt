-- ===== src/Storage/Tasks/Runs.antt =====
-- Runs of many tasks: any of them makes its next step at any time.
use thanos_datafusion_experi.Common.{ℕ, none, List, [], ◌∷◌, ◌==◌, if◌then◌else◌}
use thanos_datafusion_experi.Storage.Cache.{PageKey, CacheState}
use thanos_datafusion_experi.Storage.Tasks.{
  RangeCache, fetching, Phase, looking, Task, CacheWorld, next_step,
}

unfoldable pub set_phase : (ℕ → Task) → ℕ → Phase → ℕ → Task
set_phase tasks t phase j =
    if t == j then record { key = (tasks j).key; phase = phase } else tasks j

-- The tasks of the list make a step each, in the order of the list.
unfoldable pub run : RangeCache → List ℕ → (ℕ → Task) → CacheWorld → (ℕ → Task) × CacheWorld
unfolding next_step set_phase
run c [] tasks w = (tasks, w)
run c (t ∷ schedule) tasks w =
    let (phase, w') = next_step c (tasks t).key (tasks t).phase w in
    run c schedule (set_phase tasks t phase) w'

-- A cache on an empty disk with no flight; the map has none of the flights of `spare`.
abbrev pub opened : CacheState → PageKey → CacheWorld
opened state spare = record {
  state = state;
  names = λ path. none;
  contents = λ i. [];
  next_file = 0;
  calls = 0;
  flights = λ k. none;
  shared = λ i. record { key = spare; stage = fetching };
  next = 0;
}

-- A call of `get_page` for each key.
abbrev pub calls : (ℕ → PageKey) → ℕ → Task
calls keys t = record { key = keys t; phase = looking }
