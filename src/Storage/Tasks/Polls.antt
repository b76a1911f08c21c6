-- ===== src/Storage/Tasks/Polls.antt =====
-- One call of `get_page` and the flight it waits for.
use thanos_datafusion_experi.Common.{ℕ, zero, suc, ◌≡◌, refl, Bool, true, false, arith}
use thanos_datafusion_experi.Storage.Cache.{PageKey}
use thanos_datafusion_experi.Storage.Tasks.{
  RangeCache, Stage, fetching, creating, writing, renaming, recording, removing, landed, Flight,
  Phase, waiting, CacheWorld, set_shared, fly, poll, next_step,
}

-- `n` steps of one call.
unfoldable pub alone : RangeCache → ℕ → PageKey → Phase → CacheWorld → Phase × CacheWorld
unfolding next_step
alone c zero key phase w = (phase, w)
alone c (suc n) key phase w = let (phase', w') = next_step c key phase w in alone c n key phase' w'

unfoldable pub is_landed : Stage → Bool
is_landed (landed result) = true
is_landed _ = false

module _ (c : RangeCache) (key : PageKey) where
  module _ (i : ℕ) where
    pub set_here : (shared : ℕ → Flight) (flight : Flight) → (set_shared shared i flight i) ≡ flight
    unfolding set_shared
    set_here shared flight = ground arith

    -- Before the flight has landed, a poll runs it on.
    unfoldable pub run_on : Stage → CacheWorld → Phase × CacheWorld
    run_on stage w =
        let (stage', w') = fly c (w.shared i).key stage w in
        (
          waiting i,
          record w' {
            shared = set_shared w'.shared i (record { key = (w.shared i).key; stage = stage' });
          },
        )

    pub poll-run_on :
        (stage : Stage) (w : CacheWorld)
        → is_landed stage ≡ false
        → poll c i stage w ≡ run_on stage w
    unfolding run_on is_landed
    poll-run_on fetching w e = refl
    poll-run_on (creating b) w e = refl
    poll-run_on (writing file b) w e = refl
    poll-run_on (renaming b) w e = refl
    poll-run_on (recording b) w e = refl
    poll-run_on (removing keys b) w e = refl
    poll-run_on (landed result) w e = absurd (cc)
