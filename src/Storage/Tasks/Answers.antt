-- ===== src/Storage/Tasks/Answers.antt =====
-- The answers of the flights, in any interleaving of any number of calls of `get_page`.
use thanos_datafusion_experi.Common.{
  ℕ, ◌<◌, ◌≡◌, refl, sym, ap, ◌∙◌, subst, Option, none, some, ◌==◌, arith, Bool-cases, Option-cases,
  ◌⊎◌, inl, inr,
}
use thanos_datafusion_experi.Common.Text.{Bytes}
use thanos_datafusion_experi.Storage.Reader.{IoError, IoResult}
use thanos_datafusion_experi.Storage.Cache.{PageKey, key_eq, find}
use thanos_datafusion_experi.Storage.Cache.Queues.{key_eq-true}
use thanos_datafusion_experi.Storage.Tasks.{
  RangeCache, Stage, fetching, creating, writing, renaming, recording, removing, landed, Flight,
  Phase, looking, reading, dropping, joining, waiting, leaving, finished, Task, CacheWorld,
  set_flight, set_shared, page_file, file_at, called, poll, read_page, join_flight, next_step,
}
use thanos_datafusion_experi.Storage.Tasks.Runs.{calls}
use thanos_datafusion_experi.Storage.Tasks.Flights.{
  Extends-refl, Answered, StageFits, WorldFits, PhaseFits, StepFits, same_world, poll_on,
}

set_flight-cases :
    (flights : PageKey → Option ℕ) (k j : PageKey) (n i : ℕ)
    → set_flight flights k (some n) j ≡ some i
    → ((k ≡ j) × (n ≡ i)) ⊎ (flights j ≡ some i)
unfolding set_flight
set_flight-cases flights k j n i at = elim (Bool-cases (key_eq k j)) [
  | inl e ↦ inl (key_eq-true k j e, ground arith)
  | inr d ↦ inr (ground arith)
]

dropped :
    (flights : PageKey → Option ℕ) (k j : PageKey) (i : ℕ)
    → set_flight flights k none j ≡ some i
    → flights j ≡ some i
unfolding set_flight
dropped flights k j i at = elim (Bool-cases (key_eq k j)) [
  | inl e ↦ ground arith
  | inr d ↦ ground arith
]

module _ (c : RangeCache) where
  read_page-Fits :
      (w : CacheWorld) (k : PageKey) (error : Option IoError) (content : Option Bytes)
      → PhaseFits c w k (read_page c error content)
  unfolding PhaseFits
  read_page-Fits w k (some e) (some bytes) = tt
  read_page-Fits w k none (some bytes) = tt
  read_page-Fits w k (some e) none = tt
  read_page-Fits w k none none = tt

  -- A new flight for `k`.
  new_flight :
      (w : CacheWorld) (k : PageKey) → WorldFits c w → StepFits c w k (join_flight c k none w)
  unfolding set_shared set_flight PhaseFits StageFits
  new_flight w k h =
      let flight : Flight = record { key = k; stage = fetching } in
      let after : ℕ → Flight = set_shared w.shared w.next flight in
      let at_next : after w.next ≡ flight = ground arith in
      let before : (j : ℕ) → j < w.next → after j ≡ w.shared j = λ j low. ground arith in
      record {
        world = record {
          flights = λ j i at. elim (set_flight-cases w.flights k j w.next i at) [
            | inl (key, same) ↦ (
              omega (arith, same),
              ap (λ m. (after m).key) (sym same) ∙ ap (λ f. f.key) at_next ∙ key,
            )
            | inr at' ↦
                let (low, key) = h.flights j i at' in
                (omega (arith, low), ap (λ f. f.key) (before i low) ∙ key)
          ];
          stages = λ i low. elim (Bool-cases (w.next == i)) [
            | inl e ↦
                let same : w.next ≡ i = ground arith in
                subst (λ m. StageFits c (after m).key (after m).stage) same
                  (subst (λ f. StageFits c f.key f.stage) (sym at_next) tt)
            | inr d ↦
                let old : i < w.next = ground (arith, low) in
                subst (λ f. StageFits c f.key f.stage) (sym (before i old)) (h.stages i old)
          ];
        };
        phase = (omega arith, ap (λ f. f.key) at_next);
        extends = record { next = omega arith; keys = λ i low. ap (λ f. f.key) (before i low) };
      }

  landed-Right :
      (w : CacheWorld) (k : PageKey) (i : ℕ) (result : IoResult Bytes)
      → (w.shared i).stage ≡ landed result
      → WorldFits c w
      → i < w.next
      → (w.shared i).key ≡ k
      → Answered c k result
  unfolding StageFits
  landed-Right w k i result at h low key =
      subst (λ j. Answered c j result) key
        (subst (StageFits c (w.shared i).key) at (h.stages i low))

  pub next_step-Fits :
      (w : CacheWorld) (k : PageKey) (phase : Phase)
      → WorldFits c w
      → PhaseFits c w k phase
      → StepFits c w k (next_step c k phase w)
  unfolding next_step PhaseFits
  next_step-Fits w k looking h p = elim (Option-cases (find k w.state.entries)) [
    | inl e ↦ rw e (same_world c w w k joining h refl refl refl tt)
    | inr (entry, e) ↦ rw e (same_world c w _ k reading h refl refl refl tt)
  ]
  next_step-Fits w k reading h p =
      same_world c w (called c w) k
        (read_page c (c.read_error w.calls (page_file c k)) (file_at w (page_file c k))) h refl refl
        refl
        (read_page-Fits (called c w) k (c.read_error w.calls (page_file c k))
          (file_at w (page_file c k)))
  next_step-Fits w k dropping h p = same_world c w _ k joining h refl refl refl tt
  next_step-Fits w k joining h p = elim (Option-cases (w.flights k)) [
    | inl e ↦ rw e (new_flight w k h)
    | inr (i, e) ↦ rw e (same_world c w w k (waiting i) h refl refl refl (h.flights k i e))
  ]
  next_step-Fits w k (waiting i) h (low, key) = polled (w.shared i).stage refl
    where
      polled : (stage : Stage) → (w.shared i).stage ≡ stage → StepFits c w k (poll c i stage w)
      polled fetching at = poll_on c w k i fetching at h low key
      polled (creating b) at = poll_on c w k i (creating b) at h low key
      polled (writing file b) at = poll_on c w k i (writing file b) at h low key
      polled (renaming b) at = poll_on c w k i (renaming b) at h low key
      polled (recording b) at = poll_on c w k i (recording b) at h low key
      polled (removing keys b) at = poll_on c w k i (removing keys b) at h low key
      polled (landed result) at =
          same_world c w w k (leaving result) h refl refl refl
            (landed-Right w k i result at h low key)
  next_step-Fits w k (leaving result) h p = record {
    world = record {
      flights = λ j i at. h.flights j i (dropped w.flights k j i at);
      stages = h.stages;
    };
    phase = tt;
    extends = Extends-refl w _ refl refl;
  }
  next_step-Fits w k (finished result) h p =
      same_world c w w k (finished result) h refl refl refl tt

  abbrev TaskFits : CacheWorld → Task → Type 0
  TaskFits w task = PhaseFits c w task.key task.phase
