-- ===== src/Storage/Tasks/Alone.antt =====
-- A call of `get_page` that no other task interrupts, on a disk that works.
use thanos_datafusion_experi.Common.{
  ℕ, suc, ◌≡◌, refl, sym, ap, ◌∙◌, subst, true, false, Option, none, some, List, [], ◌∷◌, ok, err,
  panicked, stuck, leb, length, Bool-cases, Option-cases, inl, inr,
}
use thanos_datafusion_experi.Common.Text.{Bytes, Text, text_eq_refl}
use thanos_datafusion_experi.Storage.Reader.{IoResult}
use thanos_datafusion_experi.Storage.Cache.{PageKey, find, touch}
use thanos_datafusion_experi.Storage.Tasks.{
  RangeCache, Stage, fetching, creating, writing, renaming, recording, removing, landed, Phase,
  looking, reading, dropping, joining, waiting, leaving, finished, CacheWorld, set_name, set_shared,
  file_at, called, open_file, page_file, temporary_file, fetch, after_fetch, fly, poll, next_step,
}
use thanos_datafusion_experi.Storage.Tasks.Polls.{alone, is_landed, run_on, poll-run_on, set_here}

-- The file system carries out every call.
pub record Works (c : RangeCache) : Type 0 where
  pub creates : (call : ℕ) (path : Text) → c.creates call path ≡ true
  pub writes : (call : ℕ) (path : Text) → c.write_stops call path ≡ none
  pub renames : (call : ℕ) (path : Text) → c.renames call path ≡ true
  pub reads : (call : ℕ) (path : Text) → c.read_error call path ≡ none

module _ (c : RangeCache) (works : Works c) (key : PageKey) where
  -- Some number of steps ends the call with what the object store gives.
  abbrev Gives : Phase × CacheWorld → Type 0
  Gives r = (n : ℕ) × ((alone c n key r.0 r.1).0 ≡ finished (fetch c key))

  one_more : (phase : Phase) (w : CacheWorld) → Gives (next_step c key phase w) → Gives (phase, w)
  unfolding alone
  one_more phase w (n, e) = (suc n, e)

  at_once :
      (result : IoResult Bytes) (w : CacheWorld) → result ≡ fetch c key → Gives (finished result, w)
  unfolding alone
  at_once result w e = (0, ap finished e)

  module _ (i : ℕ) where
    -- The flight `i` is for the key and at this stage.
    abbrev At : Stage → CacheWorld → Type 0
    At stage w = ((w.shared i).key ≡ key) × ((w.shared i).stage ≡ stage)

    landed-Gives :
        (result : IoResult Bytes) (w : CacheWorld)
        → result ≡ fetch c key
        → At (landed result) w
        → Gives (waiting i, w)
    unfolding next_step
    landed-Gives result w e (_, at) = one_more (waiting i) w (
        subst (λ s. Gives (poll c i s w)) (sym at)
          (one_more (leaving result) w (at_once result _ e)))

    polled :
        (stage : Stage) (w : CacheWorld)
        → is_landed stage ≡ false
        → At stage w
        → ((w' : CacheWorld)
            → At (fly c key stage w).0 w'
            → w'.names ≡ (fly c key stage w).1.names
            → Gives (waiting i, w'))
        → Gives (waiting i, w)
    unfolding next_step run_on
    polled stage w e (same, at) next =
        let r = fly c (w.shared i).key stage w in
        let here = set_here c key i r.1.shared (record { key = (w.shared i).key; stage = r.0 }) in
        one_more (waiting i) w (
          subst (λ s. Gives (poll c i s w)) (sym at)
            (subst Gives (sym (poll-run_on c key i stage w e)) (
              next _
                (
                  ap (λ f. f.key) here ∙ same,
                  ap (λ f. f.stage) here ∙ ap (λ k. (fly c k stage w).0) same,
                )
                (ap (λ k. (fly c k stage w).1.names) same))))

    removing-Gives :
        (keys : List PageKey) (bytes : Bytes) (w : CacheWorld)
        → ok bytes ≡ fetch c key
        → At (removing keys bytes) w
        → Gives (waiting i, w)
    unfolding fly is_landed
    removing-Gives [] bytes w e at =
        polled (removing [] bytes) w refl at (λ w' at' _. landed-Gives (ok bytes) w' e at')
    removing-Gives (k ∷ keys) bytes w e at =
        polled (removing (k ∷ keys) bytes) w refl at
          (λ w' at' _. removing-Gives keys bytes w' e at')

    recording-Gives :
        (bytes : Bytes) (w : CacheWorld)
        → ok bytes ≡ fetch c key
        → At (recording bytes) w
        → Gives (waiting i, w)
    unfolding fly is_landed
    recording-Gives bytes w e at =
        polled (recording bytes) w refl at (λ w' at' _. removing-Gives _ bytes w' e at')

    renaming-Gives :
        (bytes : Bytes) (w : CacheWorld) (file : ℕ)
        → ok bytes ≡ fetch c key
        → w.names (temporary_file c key) ≡ some file
        → At (renaming bytes) w
        → Gives (waiting i, w)
    unfolding fly is_landed
    renaming-Gives bytes w file e there at =
        polled (renaming bytes) w refl at
          (λ w' at' _. recording-Gives bytes w' e (at'.0, at'.1 ∙ renamed))
      where
        renamed : (fly c key (renaming bytes) w).0 ≡ recording bytes
        renamed = rw (works.renames w.calls (temporary_file c key), there) refl

    writing-Gives :
        (bytes : Bytes) (w : CacheWorld) (file : ℕ)
        → ok bytes ≡ fetch c key
        → w.names (temporary_file c key) ≡ some file
        → At (writing file bytes) w
        → Gives (waiting i, w)
    unfolding fly is_landed
    writing-Gives bytes w file e there at = polled (writing file bytes) w refl at (λ w' at' names.
        renaming-Gives bytes w' file e
          (ap (λ (n : Text → Option ℕ). n (temporary_file c key)) (names ∙ kept) ∙ there)
          (at'.0, at'.1 ∙ written))
      where
        written : (fly c key (writing file bytes) w).0 ≡ renaming bytes
        written = rw (works.writes w.calls (temporary_file c key)) refl

        kept : (fly c key (writing file bytes) w).1.names ≡ w.names
        kept = rw (works.writes w.calls (temporary_file c key)) refl

    -- The file that is open, by whether there was one.
    opened-Gives :
        (bytes : Bytes) (w : CacheWorld)
        → ok bytes ≡ fetch c key
        → (fly c key (creating bytes) w
            ≡ open_file c key bytes (w.names (temporary_file c key)) (called c w))
        → At (creating bytes) w
        → Gives (waiting i, w)
    unfolding set_name is_landed
    opened-Gives bytes w e step at = elim (Option-cases (w.names (temporary_file c key))) [
      | inr (file, there) ↦
          let new = step ∙ ap (λ f. open_file c key bytes f (called c w)) there in
          polled (creating bytes) w refl at (λ w' at' names.
            writing-Gives bytes w' file e
              (ap (λ (n : Text → Option ℕ). n (temporary_file c key))
                  (names ∙ ap (λ r. r.1.names) new)
                ∙ there)
              (at'.0, at'.1 ∙ ap (λ r. r.0) new))
      | inl gone ↦
          let new = step ∙ ap (λ f. open_file c key bytes f (called c w)) gone in
          let named : set_name w.names (temporary_file c key) (some w.next_file)
                (temporary_file c key)
              ≡ some w.next_file =
            rw (text_eq_refl (temporary_file c key)) refl in
          polled (creating bytes) w refl at (λ w' at' names.
            writing-Gives bytes w' w.next_file e
              (ap (λ (n : Text → Option ℕ). n (temporary_file c key))
                  (names ∙ ap (λ r. r.1.names) new)
                ∙ named)
              (at'.0, at'.1 ∙ ap (λ r. r.0) new))
    ]

    creating-Gives :
        (bytes : Bytes) (w : CacheWorld)
        → ok bytes ≡ fetch c key
        → At (creating bytes) w
        → Gives (waiting i, w)
    unfolding fly is_landed
    creating-Gives bytes w e at = elim (Bool-cases (leb (length bytes) c.max_size)) [
      | inr large ↦
          let large' : (fly c key (creating bytes) w).0 ≡ landed (ok bytes) = rw large refl in
          polled (creating bytes) w refl at
            (λ w' at' _. landed-Gives (ok bytes) w' e (at'.0, at'.1 ∙ large'))
      | inl small ↦
          opened-Gives bytes w e (rw (small, works.creates w.calls (temporary_file c key)) refl) at
    ]

    fetched-Gives :
        (r : IoResult Bytes) (w : CacheWorld)
        → r ≡ fetch c key
        → At (after_fetch c r) w
        → Gives (waiting i, w)
    fetched-Gives (ok bytes) w e at = creating-Gives bytes w e at
    fetched-Gives (err x) w e at = landed-Gives (err x) w e at
    fetched-Gives panicked w e at = landed-Gives panicked w e at
    fetched-Gives stuck w e at = landed-Gives stuck w e at

    fetching-Gives : (w : CacheWorld) → At fetching w → Gives (waiting i, w)
    unfolding fly is_landed
    fetching-Gives w at =
        polled fetching w refl at (λ w' at' _. fetched-Gives (fetch c key) w' refl at')

  joining-Gives : (w : CacheWorld) → w.flights key ≡ none → Gives (joining, w)
  unfolding next_step
  joining-Gives w none_there = one_more joining w (
      rw none_there
        (fetching-Gives w.next _ (ap (λ f. f.key) (here w), ap (λ f. f.stage) (here w))))
    where
      here :
          (w : CacheWorld)
          → set_shared w.shared w.next (record { key = key; stage = fetching }) w.next
            ≡ record { key = key; stage = fetching }
      here w = set_here c key w.next w.shared (record { key = key; stage = fetching })

  -- What a file of the page holds, if there is one, is what the object store gives.
  reading-Gives :
      (w : CacheWorld)
      → w.flights key ≡ none
      → ((bytes : Bytes) → file_at w (page_file c key) ≡ some bytes → fetch c key ≡ ok bytes)
      → Gives (reading, w)
  unfolding next_step
  reading-Gives w quiet right =
      one_more reading w (elim (Option-cases (file_at w (page_file c key))) [
        | inl e ↦
            rw (works.reads w.calls (page_file c key), e)
              (one_more dropping (called c w) (joining-Gives _ quiet))
        | inr (bytes, e) ↦
            rw (works.reads w.calls (page_file c key), e)
              (at_once (ok bytes) (called c w) (sym (right bytes e)))
      ])

  -- On a disk that works, with no flight for the page, a call of `get_page` that is not
  -- interrupted ends with what the object store gives for the page, its error included, in any
  -- state of the cache, if the page's file, where there is one, holds what the object store
  -- gives.
  pub get_page_alone :
      (w : CacheWorld)
      → w.flights key ≡ none
      → ((bytes : Bytes) → file_at w (page_file c key) ≡ some bytes → fetch c key ≡ ok bytes)
      → (n : ℕ) × ((alone c n key looking w).0 ≡ finished (fetch c key))
  unfolding next_step
  get_page_alone w quiet right =
      one_more looking w (elim (Option-cases (find key w.state.entries)) [
        | inl e ↦ rw e (joining-Gives w quiet)
        | inr (entry, e) ↦ rw e (
            reading-Gives (record w { state = touch c.policy c.protected_limit key w.state }) quiet
              right)
      ])
