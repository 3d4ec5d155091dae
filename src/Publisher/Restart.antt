-- ===== src/Publisher/Restart.antt =====
-- Group sequences over a restart: the one in progress is in the sequence file, the finished ones in
-- the store.
use atmoq.Common.{
  ℕ, suc, ◌+◌, ◌-◌, ◌%◌, ◌^◌, ◌≤◌, ◌<◌, ◌≡◌, refl, sym, ap, subst, ◌∙◌, Option, none, some, [], ok,
  >>=-eq-ok, ok-injective, Option-cases, inl, inr, arith,
}
use mathlib.Core.Option.{none-ne-some, some-injective}
use atmoq.Moq.{Moq, IsMoq, highest}
use atmoq.Metrics.{Metrics}
use atmoq.StateFile.{StateFile, WriteOutcome, persist_group_seq, load_group_seq}
use atmoq.Store.{GroupStore}
use atmoq.Publisher.{
  Env, Lite, PublishError, or_refused, make_first_group, reload_window, higher_of, seed_of,
  build_lite_publisher,
}

module _ (m : Moq) (l : IsMoq m) where
  or_refused-ok :
      (e : PublishError) (o : m.Track × Option m.Group) (made : m.Track × m.Group)
      → or_refused m e o ≡ ok made
      → o ≡ (made.0, some made.1)
  or_refused-ok e (t, none) made h = cc
  or_refused-ok e (t, some g) made h =
      ap (λ (x : m.Track × m.Group). (x.0, some x.1)) (ok-injective h)

  -- The group that a run begins with, and its sequence in the file.
  make_first_group-sequence :
      (track : m.Track) (seed : ℕ) (file : Option StateFile) (outcome : WriteOutcome)
      (r : m.Track × m.Group × Option StateFile)
      → make_first_group m track (some seed) file outcome ≡ ok r
      → (m.sequence r.1 ≡ (seed + 1) % 2 ^ 64)
        × (r.2 ≡ persist_group_seq file (m.sequence r.1) outcome)
        × (l.written r.1 ≡ [])
        × (l.last r.0 ≡ some (highest (l.last track) ((seed + 1) % 2 ^ 64)))
  unfolding make_first_group
  make_first_group-sequence track seed file outcome r h =
      let (made, e, q) =
        >>=-eq-ok (or_refused m _ (m.create_group ((seed + 1) % 2 ^ 64) track)) _ h in
      let (number, empty, above) =
        l.create_law ((seed + 1) % 2 ^ 64) track made.0 made.1 (or_refused-ok _ _ made e) in
      subst
        (λ (x : m.Track × m.Group × Option StateFile).
          (m.sequence x.1 ≡ (seed + 1) % 2 ^ 64)
          × (x.2 ≡ persist_group_seq file (m.sequence x.1) outcome)
          × (l.written x.1 ≡ [])
          × (l.last x.0 ≡ some (highest (l.last track) ((seed + 1) % 2 ^ 64))))
        (ok-injective q) (number, refl, empty, above)

  -- What `build_lite_publisher` went through, where there is a seed.
  record Builds (file : Option StateFile) (s : GroupStore) (seed : ℕ) (env : Env) (p : Lite m)
      : Type 0 where
    number : m.sequence p.group ≡ (seed + 1) % 2 ^ 64
    file_after : p.group_seq_file ≡ persist_group_seq file (m.sequence p.group) env.file_outcome
    store_after : p.store ≡ some s

  build-Builds :
      (track : m.Track) (file : Option StateFile) (s : GroupStore) (window_secs seed : ℕ)
      (env : Env) (metrics : Metrics) (p : Lite m)
      → seed_of (load_group_seq file) s.max_seq ≡ some seed
      → build_lite_publisher m track file s window_secs env metrics ≡ ok p
      → Builds file s seed env p
  unfolding build_lite_publisher
  build-Builds track file s window_secs seed env metrics p e h =
      let (reloaded, a, h1) = >>=-eq-ok (reload_window m track s window_secs env.now_ms) _ h in
      let (first, b, h2) =
        >>=-eq-ok
          (make_first_group m reloaded (seed_of (load_group_seq file) s.max_seq) file
            env.file_outcome)
          _ h1 in
      let (number, saved, empty, above) =
        make_first_group-sequence reloaded seed file env.file_outcome first
          (ap (λ x. make_first_group m reloaded x file env.file_outcome) (sym e) ∙ b) in
      subst (Builds file s seed env) (ok-injective h2)
        (record { number = number; file_after = saved; store_after = refl })

  seed_of-some :
      (o store_max : Option ℕ) (f : ℕ)
      → o ≡ some f
      → seed_of o store_max ≡ some (higher_of store_max f)
  unfolding seed_of
  seed_of-some none store_max f e = absurd (none-ne-some f e)
  seed_of-some (some g) store_max f e =
      ap (λ n. some (higher_of store_max n)) (some-injective g f e)

  higher_of-le :
      (o : Option ℕ) (f : ℕ) → (f ≤ higher_of o f) × ((k : ℕ) → o ≡ some k → k ≤ higher_of o f)
  higher_of-le none f = (omega arith, λ k e. absurd (none-ne-some k e))
  higher_of-le (some n) f = (omega arith, λ k e. omega (arith, some-injective n k e))

  higher_of-lt :
      (o : Option ℕ) (f bound : ℕ)
      → f < bound
      → ((k : ℕ) → o ≡ some k → k < bound)
      → higher_of o f < bound
  higher_of-lt none f bound h hs = h
  higher_of-lt (some n) f bound h hs = omega (arith, h, hs n refl)

  pub build_lite_publisher-above :
      (track : m.Track) (file : Option StateFile) (s : GroupStore) (window_secs : ℕ) (env : Env)
      (metrics : Metrics) (p : Lite m)
      → ((f : ℕ) → load_group_seq file ≡ some f → f < 2 ^ 64 - 2)
      → ((k : ℕ) → s.max_seq ≡ some k → k < 2 ^ 64 - 2)
      → build_lite_publisher m track file s window_secs env metrics ≡ ok p
      → ((f : ℕ) → load_group_seq file ≡ some f → f < m.sequence p.group)
        × ((k : ℕ) → s.max_seq ≡ some k → k < m.sequence p.group)
        × (load_group_seq file ≡ none → (k : ℕ) → s.max_seq ≡ some k → suc k < m.sequence p.group)
  build_lite_publisher-above track file s window_secs env metrics p file_small store_small h =
      (above_file, above_store, above_progress)
    where
      with_file :
          (f : ℕ) → load_group_seq file ≡ some f → Builds file s (higher_of s.max_seq f) env p
      with_file f e =
          build-Builds track file s window_secs (higher_of s.max_seq f) env metrics p
            (seed_of-some (load_group_seq file) s.max_seq f e) h

      above_file : (f : ℕ) → load_group_seq file ≡ some f → f < m.sequence p.group
      above_file f e = omega (
        arith,
        (with_file f e).number,
        (higher_of-le s.max_seq f).0,
        higher_of-lt s.max_seq f (2 ^ 64 - 2) (file_small f e) store_small,
      )

      no_file :
          load_group_seq file ≡ none
          → (k : ℕ) → s.max_seq ≡ some k
          → Builds file s ((k + 1) % 2 ^ 64) env p
      no_file e k x =
          build-Builds track file s window_secs ((k + 1) % 2 ^ 64) env metrics p
            (ap (λ o. seed_of o s.max_seq) e ∙ ap (seed_of none) x ∙ unfold seed_of in refl) h

      above_progress :
          load_group_seq file ≡ none → (k : ℕ) → s.max_seq ≡ some k → suc k < m.sequence p.group
      above_progress e k x = omega (arith, (no_file e k x).number, store_small k x)

      above_store : (k : ℕ) → s.max_seq ≡ some k → k < m.sequence p.group
      above_store k x = elim (Option-cases (load_group_seq file)) [
        | inl e ↦ omega (arith, above_progress e k x)
        | inr (f, e) ↦ omega (
          arith,
          (with_file f e).number,
          (higher_of-le s.max_seq f).1 k x,
          higher_of-lt s.max_seq f (2 ^ 64 - 2) (file_small f e) store_small,
        )
      ]

  -- Above a number, if there is one.
  abbrev pub IsAbove : Option ℕ → ℕ → Type 0
  IsAbove none n = Unit
  IsAbove (some k) n = k < n

  IsAbove-lt : (o : Option ℕ) (n : ℕ) → ((k : ℕ) → o ≡ some k → k < n) → IsAbove o n
  IsAbove-lt none n h = tt
  IsAbove-lt (some k) n h = h k refl

  -- Without a sequence in the file, the one behind the store's may have been in progress.
  abbrev pub in_progress : Option ℕ → Option ℕ → Option ℕ
  in_progress (some f) store_max = none
  in_progress none none = none
  in_progress none (some k) = some (k + 1)

  IsAbove-in_progress :
      (o store_max : Option ℕ) (n : ℕ)
      → (o ≡ none → (k : ℕ) → store_max ≡ some k → suc k < n)
      → IsAbove (in_progress o store_max) n
  IsAbove-in_progress (some f) store_max n h = tt
  IsAbove-in_progress none none n h = tt
  IsAbove-in_progress none (some k) n h = omega (arith, h refl k refl)

  -- A run begins above the sequence in the file and above every sequence of the store; one that finds
  -- no sequence in the file, but a store with groups, leaves out the sequence that the last run may
  -- have had in progress. All sequences are to be below 2 ^ 64 - 2.
  pub build_lite_publisher-IsAbove :
      (track : m.Track) (file : Option StateFile) (s : GroupStore) (window_secs : ℕ) (env : Env)
      (metrics : Metrics) (p : Lite m)
      → ((f : ℕ) → load_group_seq file ≡ some f → f < 2 ^ 64 - 2)
      → ((k : ℕ) → s.max_seq ≡ some k → k < 2 ^ 64 - 2)
      → build_lite_publisher m track file s window_secs env metrics ≡ ok p
      → IsAbove (load_group_seq file) (m.sequence p.group)
        × IsAbove s.max_seq (m.sequence p.group)
        × IsAbove (in_progress (load_group_seq file) s.max_seq) (m.sequence p.group)
  build_lite_publisher-IsAbove track file s window_secs env metrics p file_small store_small h =
      let (of_file, of_store, skipped) =
        build_lite_publisher-above track file s window_secs env metrics p file_small store_small
          h in
      (
        IsAbove-lt (load_group_seq file) (m.sequence p.group) of_file,
        IsAbove-lt s.max_seq (m.sequence p.group) of_store,
        IsAbove-in_progress (load_group_seq file) s.max_seq (m.sequence p.group) skipped,
      )
