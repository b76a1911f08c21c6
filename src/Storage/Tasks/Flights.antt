-- ===== src/Storage/Tasks/Flights.antt =====
-- What a step of one task does to the flights that the other tasks see.
use thanos_datafusion_experi.Common.{
  ℕ, ◌≤◌, ◌<◌, ◌≡◌, refl, sym, ap, ◌∙◌, subst, false, Option, some, [], ◌∷◌, ◌==◌, ok, err,
  panicked, stuck, leb, arith, length, Bool-cases, Option-cases, ◌⊎◌, inl, inr,
}
use thanos_datafusion_experi.Common.Text.{Bytes}
use thanos_datafusion_experi.Storage.Reader.{IoResult, other}
use thanos_datafusion_experi.Storage.Cache.{PageKey}
use thanos_datafusion_experi.Storage.Tasks.{
  RangeCache, Stage, fetching, creating, writing, renaming, recording, removing, landed, Flight,
  Phase, looking, reading, dropping, joining, waiting, leaving, finished, CacheWorld, set_shared,
  temporary_file, fetch, after_fetch, fly,
}

-- A world that another task's step may lead to: flights keep their keys, and more may be there.
pub record Extends (w w' : CacheWorld) : Type 0 where
  pub next : w.next ≤ w'.next
  pub keys : (i : ℕ) → i < w.next → (w'.shared i).key ≡ (w.shared i).key

pub Extends-refl : (w w' : CacheWorld) → w'.next ≡ w.next → w'.shared ≡ w.shared → Extends w w'
Extends-refl w w' e f = record {
  next = omega (arith, e);
  keys = λ i h. ap (λ (s : ℕ → Flight). (s i).key) f;
}

-- What the object store gives for the page, or an error of the file system.
abbrev pub Answered : RangeCache → PageKey → IoResult Bytes → Type 0
Answered c k result = (result ≡ fetch c k) ⊎ (result ≡ err other)

-- The bytes that a flight carries are those of the object store.
unfoldable pub StageFits : RangeCache → PageKey → Stage → Type 0
StageFits c k fetching = Unit {0}
StageFits c k (creating bytes) = ok bytes ≡ fetch c k
StageFits c k (writing file bytes) = ok bytes ≡ fetch c k
StageFits c k (renaming bytes) = ok bytes ≡ fetch c k
StageFits c k (recording bytes) = ok bytes ≡ fetch c k
StageFits c k (removing keys bytes) = ok bytes ≡ fetch c k
StageFits c k (landed result) = Answered c k result

-- A step of a flight that leaves the flights of the world.
record Flown (c : RangeCache) (k : PageKey) (w : CacheWorld) (r : Stage × CacheWorld) : Type 0 where
  pub stage : StageFits c k r.0
  pub flights : r.1.flights ≡ w.flights
  pub shared : r.1.shared ≡ w.shared
  pub next : r.1.next ≡ w.next

after_fetch-Flown :
    (c : RangeCache) (k : PageKey) (w : CacheWorld) (r : IoResult Bytes)
    → r ≡ fetch c k
    → Flown c k w (after_fetch c r, w)
unfolding StageFits
after_fetch-Flown c k w (ok bytes) e = record {
  stage = e;
  flights = refl;
  shared = refl;
  next = refl;
}
after_fetch-Flown c k w (err x) e = record {
  stage = inl e;
  flights = refl;
  shared = refl;
  next = refl;
}
after_fetch-Flown c k w panicked e = record {
  stage = inl e;
  flights = refl;
  shared = refl;
  next = refl;
}
after_fetch-Flown c k w stuck e = record {
  stage = inl e;
  flights = refl;
  shared = refl;
  next = refl;
}

fly-Flown :
    (c : RangeCache) (k : PageKey) (stage : Stage) (w : CacheWorld)
    → StageFits c k stage
    → Flown c k w (fly c k stage w)
unfolding fly StageFits
fly-Flown c k fetching w h = after_fetch-Flown c k w (fetch c k) refl
fly-Flown c k (creating b) w h = elim (Bool-cases (leb (length b) c.max_size)) [
  | inr large ↦ rw large (record { stage = inl h; flights = refl; shared = refl; next = refl })
  | inl small ↦ rw small (elim (Bool-cases (c.creates w.calls (temporary_file c k))) [
    | inr broken ↦
        rw broken (record { stage = inr refl; flights = refl; shared = refl; next = refl })
    | inl fine ↦ rw fine (elim (Option-cases (w.names (temporary_file c k))) [
      | inl gone ↦ rw gone (record { stage = h; flights = refl; shared = refl; next = refl })
      | inr (file, there) ↦
          rw there (record { stage = h; flights = refl; shared = refl; next = refl })
    ])
  ])
]
fly-Flown c k (writing file b) w h =
    elim (Option-cases (c.write_stops w.calls (temporary_file c k))) [
      | inl all ↦ rw all (record { stage = h; flights = refl; shared = refl; next = refl })
      | inr (n, part) ↦
          rw part (record { stage = inr refl; flights = refl; shared = refl; next = refl })
    ]
fly-Flown c k (renaming b) w h = elim (Bool-cases (c.renames w.calls (temporary_file c k))) [
  | inr broken ↦ rw broken (record { stage = inr refl; flights = refl; shared = refl; next = refl })
  | inl fine ↦ rw fine (elim (Option-cases (w.names (temporary_file c k))) [
    | inl gone ↦ rw gone (record { stage = inr refl; flights = refl; shared = refl; next = refl })
    | inr (file, there) ↦
        rw there (record { stage = h; flights = refl; shared = refl; next = refl })
  ])
]
fly-Flown c k (recording b) w h = record { stage = h; flights = refl; shared = refl; next = refl }
fly-Flown c k (removing [] b) w h = record {
  stage = inl h;
  flights = refl;
  shared = refl;
  next = refl;
}
fly-Flown c k (removing (j ∷ keys) b) w h = record {
  stage = h;
  flights = refl;
  shared = refl;
  next = refl;
}
fly-Flown c k (landed result) w h = record { stage = h; flights = refl; shared = refl; next = refl }

module _ (c : RangeCache) where
  -- The map names flights of its keys, and every flight carries the bytes of its page.
  pub record WorldFits (w : CacheWorld) : Type 0 where
    pub flights :
        (k : PageKey) (i : ℕ) → w.flights k ≡ some i → (i < w.next) × ((w.shared i).key ≡ k)
    pub stages : (i : ℕ) → i < w.next → StageFits c (w.shared i).key (w.shared i).stage

  unfoldable pub PhaseFits : CacheWorld → PageKey → Phase → Type 0
  PhaseFits w k looking = Unit {0}
  PhaseFits w k reading = Unit {0}
  PhaseFits w k dropping = Unit {0}
  PhaseFits w k joining = Unit {0}
  PhaseFits w k (waiting i) = (i < w.next) × ((w.shared i).key ≡ k)
  PhaseFits w k (leaving result) = Answered c k result
  PhaseFits w k (finished result) = Unit {0}

  -- What a task knows stays true.
  pub Extends-PhaseFits :
      (w w' : CacheWorld) (k : PageKey) (phase : Phase)
      → Extends w w'
      → PhaseFits w k phase
      → PhaseFits w' k phase
  unfolding PhaseFits
  Extends-PhaseFits w w' k looking x p = p
  Extends-PhaseFits w w' k reading x p = p
  Extends-PhaseFits w w' k dropping x p = p
  Extends-PhaseFits w w' k joining x p = p
  Extends-PhaseFits w w' k (waiting i) x (low, same) =
      (omega (arith, low, x.next), x.keys i low ∙ same)
  Extends-PhaseFits w w' k (leaving result) x p = p
  Extends-PhaseFits w w' k (finished result) x p = p

  -- A step's outcome.
  pub record StepFits (w : CacheWorld) (k : PageKey) (r : Phase × CacheWorld) : Type 0 where
    pub world : WorldFits r.1
    pub phase : PhaseFits r.1 k r.0
    pub extends : Extends w r.1

  -- A step that leaves files, flights and numbers.
  pub same_world :
      (w w' : CacheWorld) (k : PageKey) (phase : Phase)
      → WorldFits w
      → w'.flights ≡ w.flights
      → w'.shared ≡ w.shared
      → w'.next ≡ w.next
      → PhaseFits w' k phase
      → StepFits w k (phase, w')
  same_world w w' k phase h f g n p = record {
    world = record {
      flights = λ j i at.
          let (low, key) = h.flights j i (sym (ap (λ (m : PageKey → Option ℕ). m j) f) ∙ at) in
          (omega (arith, low, n), ap (λ (s : ℕ → Flight). (s i).key) g ∙ key);
      stages = λ i low.
          subst (λ (s : ℕ → Flight). StageFits c (s i).key (s i).stage) (sym g)
            (h.stages i (omega (arith, low, n)));
    };
    phase = p;
    extends = Extends-refl w w' n g;
  }

  -- A step that runs flight `i` on.
  pub poll_on :
      (w : CacheWorld) (k : PageKey) (i : ℕ) (stage : Stage)
      → (w.shared i).stage ≡ stage
      → WorldFits w
      → i < w.next
      → (w.shared i).key ≡ k
      → StepFits w k (
        waiting i,
        record (fly c (w.shared i).key stage w).1 {
          shared =
              set_shared
                (fly c (w.shared i).key stage w).1.shared
                i
                (record { key = (w.shared i).key; stage = (fly c (w.shared i).key stage w).0 });
        },
      )
  unfolding set_shared PhaseFits
  poll_on w k i stage at h low key =
      let key' = (w.shared i).key in
      let step = fly c key' stage w in
      let flown = fly-Flown c key' stage w (subst (StageFits c key') at (h.stages i low)) in
      let flights = flown.flights in
      let shared = flown.shared in
      let next = flown.next in
      let after : ℕ → Flight = set_shared step.1.shared i (record { key = key'; stage = step.0 }) in
      let at_i : after i ≡ record { key = key'; stage = step.0 } = ground arith in
      let apart : (j : ℕ) → (i == j) ≡ false → after j ≡ w.shared j =
        λ j d. rw d (ap (λ (m : ℕ → Flight). m j) shared) in
      let keys : (j : ℕ) → (after j).key ≡ (w.shared j).key = λ j. elim (Bool-cases (i == j)) [
        | inl e ↦
            let same : i ≡ j = ground arith in
            ap (λ m. (after m).key) (sym same)
            ∙ ap (λ f. f.key) at_i
            ∙ ap (λ m. (w.shared m).key) same
        | inr d ↦ ap (λ f. f.key) (apart j d)
      ] in
      record {
        world = record {
          flights = λ j m at'.
              let (low', key'') =
                h.flights j m (sym (ap (λ (x : PageKey → Option ℕ). x j) flights) ∙ at') in
              (omega (arith, low', next), keys m ∙ key'');
          stages = λ j low'. elim (Bool-cases (i == j)) [
            | inl e ↦
                let same : i ≡ j = ground arith in
                subst (λ m. StageFits c (after m).key (after m).stage) same
                  (subst (λ f. StageFits c f.key f.stage) (sym at_i) flown.stage)
            | inr d ↦
                subst (λ f. StageFits c f.key f.stage) (sym (apart j d))
                  (h.stages j (omega (arith, low', next)))
          ];
        };
        phase = (omega (arith, low, next), keys i ∙ key);
        extends = record { next = omega (arith, next); keys = λ j l. keys j };
      }
