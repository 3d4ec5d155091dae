-- ===== src/Publisher/Sequences.antt =====
-- No group sequence is given twice, over the writes of a run and the restart behind it.
use atmoq.Common.{
  ℕ, ◌+◌, ◌-◌, ◌^◌, ◌≤◌, ◌<◌, ◌≡◌, refl, sym, ap, subst, ◌∙◌, true, false, Option, none, some, ok,
  inl, inr, ◌⊎◌, leb, Bytes, arith,
}
use mathlib.Core.Option.{none-ne-some, some-injective}
use atmoq.Moq.{Moq, IsMoq}
use atmoq.Metrics.{Metrics}
use atmoq.StateFile.{StateFile, wrote, write_fails, persist_group_seq, load_group_seq}
use atmoq.StateFile.Laws.{load-persist_group_seq}
use atmoq.Store.{GroupStore}
use atmoq.Publisher.{Env, Lite, store_group, write, build_lite_publisher}
use atmoq.Publisher.Steps.{extended, rotated, Rotates, Writes, write-Writes}
use atmoq.Publisher.Stream.{IsStreaming, Advances, write-IsStreaming}
use atmoq.Publisher.Restart.{build_lite_publisher-above}

load_some :
    (file : Option StateFile) (seq : ℕ)
    → load_group_seq file ≡ some seq
    → (f : StateFile) × (file ≡ some f)
unfolding load_group_seq
load_some none seq h = absurd (none-ne-some seq h)
load_some (some f) seq h = (f, refl)

reload :
    (file : Option StateFile) (old seq : ℕ)
    → load_group_seq file ≡ some old
    → seq < 2 ^ 64
    → load_group_seq (persist_group_seq file seq wrote) ≡ some seq
reload file old seq h small =
    let (f, e) = load_some file old h in
    ap (λ x. load_group_seq (persist_group_seq x seq wrote)) e
    ∙ (load-persist_group_seq f seq write_fails small (λ e. no e)).0
  where
    no : write_fails ≡ wrote → ⊥
    no e = cc

module _ (m : Moq) (l : IsMoq m) where
  -- The file holds the sequence of the live group.
  abbrev pub IsSaved : Lite m → Type 0
  IsSaved p = load_group_seq p.group_seq_file ≡ some (m.sequence p.group)

  store_group-file :
      (env : Env) (seq : ℕ) (o : Option GroupStore) (p : Lite m)
      → let q = store_group m env seq o p in
        (q.group_seq_file ≡ p.group_seq_file) × (q.group ≡ p.group)
  store_group-file env seq none p = (refl, refl)
  store_group-file env seq (some s) p = (refl, refl)

  rotated-file :
      (env : Env) (p : Lite m) (track : m.Track) (next : m.Group)
      → let q = rotated m env p track next in
        (q.group_seq_file ≡ persist_group_seq p.group_seq_file (m.sequence next) env.file_outcome)
        × (m.sequence q.group ≡ m.sequence next)
  rotated-file env p track next =
      let start = record p { track = track; group = next; count = 0 } in
      let (same_file, same_group) = store_group-file env (m.sequence p.group) p.store start in
      (
        ap
              (λ x.
                persist_group_seq x
                  (m.sequence (store_group m env (m.sequence p.group) p.store start).group)
                  env.file_outcome)
              same_file
            ∙ ap
                (λ (g : m.Group).
                  persist_group_seq p.group_seq_file (m.sequence g) env.file_outcome)
                same_group,
        ap m.sequence same_group,
      )

  rotated-IsSaved :
      (env : Env) (p : Lite m) (track : m.Track) (next : m.Group) (old : ℕ)
      → env.file_outcome ≡ wrote
      → m.sequence next < 2 ^ 64
      → load_group_seq p.group_seq_file ≡ some old
      → IsSaved (rotated m env p track next)
  rotated-IsSaved env p track next old outcome small h =
      let (file, number) = rotated-file env p track next in
      ap load_group_seq file
      ∙ ap (λ o. load_group_seq (persist_group_seq p.group_seq_file (m.sequence next) o)) outcome
      ∙ reload p.group_seq_file old (m.sequence next) h small
      ∙ ap some (sym number)

  write-IsSaved :
      (env : Env) (b : Bytes) (group_size : ℕ) (p p' : Lite m)
      → IsSaved p
      → env.file_outcome ≡ wrote
      → m.sequence p'.group < 2 ^ 64
      → write m env b group_size p ≡ (p', ok tt)
      → IsSaved p'
  write-IsSaved env b group_size p p' saved outcome small h =
      let w = write-Writes m env b group_size p p' h in go w w.then
    where
      go :
          (w : Writes m env b group_size p p')
          → ((leb group_size (p.count + 1) ≡ false) × (p' ≡ extended m p b w.group))
            ⊎ ((leb group_size (p.count + 1) ≡ true) × Rotates m env (extended m p b w.group) p')
          → IsSaved p'
      go w (inl (x, e)) =
          subst IsSaved (sym e) (saved ∙ ap some (sym (l.write_law b p.group w.group w.taken).0))
      go w (inr (x, r)) =
          let q = extended m p b w.group in
          let bound : m.sequence r.next < 2 ^ 64 =
            subst (λ n. n < 2 ^ 64)
              (ap (λ (t : Lite m). m.sequence t.group) r.after
                ∙ (rotated-file env q r.track r.next).1)
              small in
          subst IsSaved (sym r.after)
            (rotated-IsSaved env q r.track r.next (m.sequence p.group) outcome bound saved)

  -- The writes of a run from `p`, whatever becomes of the groups in the store.
  pub data Runs (group_size : ℕ) (p : Lite m) : Lite m → Type 0 where
    here : Runs group_size p p
    next :
        {q r : Lite m}
        → Runs group_size p q
        → (env : Env) (b : Bytes) → env.file_outcome ≡ wrote
        → m.sequence r.group < 2 ^ 64
        → write m env b group_size q ≡ (r, ok tt)
        → Runs group_size p r

  Advances-le :
      (b : Bytes) (p q : Lite m) → Advances m l b p q → m.sequence p.group ≤ m.sequence q.group
  Advances-le b p q (inl (same, x)) = omega (arith, same)
  Advances-le b p q (inr (more, x)) = omega (arith, more)

  pub record IsLive (group_size : ℕ) (p q : Lite m) : Type 0 where
    pub streaming : IsStreaming m l group_size q
    pub saved : IsSaved q
    pub above : m.sequence p.group ≤ m.sequence q.group

  Runs-IsLive :
      {group_size : ℕ} {p q : Lite m}
      → IsStreaming m l group_size p
      → IsSaved p
      → Runs group_size p q
      → IsLive group_size p q
  Runs-IsLive i saved here = record { streaming = i; saved = saved; above = omega arith }
  Runs-IsLive {group_size} {p} i saved (next {q} {r} runs env b outcome small h) =
      let before = Runs-IsLive i saved runs in
      let (streaming, step) = write-IsStreaming m l env b group_size q r before.streaming h in
      record {
        streaming = streaming;
        saved = write-IsSaved env b group_size q r before.saved outcome small h;
        above = omega (arith, before.above, Advances-le b q r step);
      }

  -- From a publisher that agrees with its live group and has its sequence in the file, after any
  -- number of writes that each reach the file, the process may die: the next run's first group has a
  -- sequence above that of every group of the run. All sequences are to be below 2 ^ 64 - 2.
  pub Runs-above :
      (group_size : ℕ) (p q r : Lite m) (track : m.Track) (s : GroupStore) (window_secs : ℕ)
      (env : Env) (metrics : Metrics)
      → IsStreaming m l group_size p
      → IsSaved p
      → Runs group_size p q
      → m.sequence q.group < 2 ^ 64 - 2
      → ((k : ℕ) → s.max_seq ≡ some k → k < 2 ^ 64 - 2)
      → build_lite_publisher m track q.group_seq_file s window_secs env metrics ≡ ok r
      → (m.sequence p.group ≤ m.sequence q.group) × (m.sequence q.group < m.sequence r.group)
  Runs-above group_size p q r track s window_secs env metrics i saved runs small store_small h =
      let live = Runs-IsLive i saved runs in
      (
        live.above,
        (build_lite_publisher-above m l track q.group_seq_file s window_secs env metrics r
              (λ f e. omega (arith, small, some-injective _ f (sym live.saved ∙ e))) store_small
              h).0
            (m.sequence q.group) live.saved,
      )
