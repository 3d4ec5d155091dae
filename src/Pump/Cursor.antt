-- ===== src/Pump/Cursor.antt =====
-- The high-water mark of a run, and the cursor file from which the next run takes it.
use atmoq.Common.{
  ℕ, ◌^◌, ◌<◌, ◌≡◌, refl, sym, ap, ap₂, subst, ◌∙◌, Bool, true, false, Option, none, some, List, [],
  ◌∷◌, ◌++◌, ok, err, panic, if◌then◌else◌,
}
use atmoq.Common.Int.{ℤ, pos, negsuc, eq_ℤ}
use atmoq.Dedupe.{admit, fresh, mark_of}
use atmoq.Dedupe.Laws.{fresh-append}
use atmoq.Moq.{Moq}
use atmoq.StateFile.{StateFile, WriteOutcome, wrote, persist_cursor, load_initial_cursor}
use atmoq.StateFile.Laws.{load-persist_cursor}
use atmoq.Frame.{Cbor, Frame}
use atmoq.Publisher.{Env, Published}
use atmoq.Pump.{
  FramePublisher, Event, received, cursor_tick, gc_tick, shutdown, PumpConfig, Pump, count_error,
  passed, relayed, on_frame, pump_loop, closed, ended, pump,
}
use atmoq.Pump.Effects.{publish, calls, seq_of, then_loop, loop_step}

module _ (m : Moq) (c : Cbor) (w : FramePublisher) where
  -- A run that ends well leaves the mark `last`, and keeps the cursor file, if there is one.
  abbrev Marks : ℤ → Option StateFile → Pump m c w × Published (Unit {0}) → Type 0
  Marks last o (p, ok u) =
      (p.last_seq ≡ last)
      × ((file : StateFile) → o ≡ some file → (file' : StateFile) × (p.cursor_file ≡ some file'))
  Marks last o (p, err e) = Unit
  Marks last o (p, panic) = Unit

  abbrev AllMarks : PumpConfig → List Event → Type 0
  AllMarks cfg es =
      (p : Pump m c w)
      → Marks (mark_of seq_of p.last_seq (calls es)) p.cursor_file (pump_loop m c w cfg es p)

  persist_cursor-some :
      (o : Option StateFile) (last : ℤ) (outcome : WriteOutcome) (file : StateFile)
      → o ≡ some file
      → (file' : StateFile) × (persist_cursor o last outcome ≡ some file')
  unfolding persist_cursor
  persist_cursor-some none last outcome file h = cc
  persist_cursor-some (some f) last outcome file h = (_, refl)

  relayed-Marks :
      (cfg : PumpConfig) (es : List Event)
      → AllMarks cfg es
      → (now : ℕ) (f : Frame) (p : Pump m c w) (r : w.State × Published (Unit {0}))
      → Marks
          (mark_of seq_of p.last_seq (calls es))
          p.cursor_file
          (then_loop m c w cfg es (relayed m c w now f p r))
  unfolding then_loop relayed pump_loop
  relayed-Marks cfg es below now f p (s, ok u) = below _
  relayed-Marks cfg es below now f p (s, err e) = tt
  relayed-Marks cfg es below now f p (s, panic) = tt

  passed-Marks :
      (cfg : PumpConfig) (env : Env) (f : Frame) (es : List Event)
      → AllMarks cfg es
      → (p : Pump m c w) (o : Option ℤ)
      → Marks
          (elim o [
            | none ↦ mark_of seq_of p.last_seq (calls es)
            | some mark ↦ mark_of seq_of mark (calls es)
          ])
          p.cursor_file
          (then_loop m c w cfg es (passed m c w cfg env f p o))
  unfolding then_loop pump_loop
  passed-Marks cfg env f es below p none = below _
  passed-Marks cfg env f es below p (some mark) = relayed-Marks cfg es below _ f _ _

  frame-Marks :
      (cfg : PumpConfig) (env : Env) (f : Frame) (es : List Event)
      → AllMarks cfg es
      → (p : Pump m c w)
      → Marks
          (mark_of seq_of p.last_seq (calls (received env f ∷ es)))
          p.cursor_file
          (then_loop m c w cfg es (on_frame m c w cfg env f p))
  unfolding mark_of on_frame then_loop pump_loop
  frame-Marks cfg env f es below p = go (eq_ℤ f.op (negsuc 0))
    where
      go :
          (is_error : Bool)
          → Marks
              (mark_of seq_of p.last_seq (if is_error then calls es else publish env f ∷ calls es))
              p.cursor_file
              (then_loop m c w cfg es (
                if is_error
                then (record p { metrics = count_error m c w p.metrics }, ok tt)
                else passed m c w cfg env f p (admit f.seq p.last_seq)))
      go true = below _
      go false = passed-Marks cfg env f es below p (admit f.seq p.last_seq)

  tick-Marks :
      (cfg : PumpConfig) (outcome : WriteOutcome) (es : List Event)
      → AllMarks cfg es
      → (p : Pump m c w) (r : Pump m c w × Published (Unit {0}))
      → Marks
          (mark_of seq_of p.last_seq (calls es))
          (persist_cursor p.cursor_file p.last_seq outcome)
          r
      → Marks (mark_of seq_of p.last_seq (calls es)) p.cursor_file r
  tick-Marks cfg outcome es below p (q, ok u) (same, keeps) = (
    same,
    λ file e.
        let (file', e') = persist_cursor-some p.cursor_file p.last_seq outcome file e in
        keeps file' e',
  )
  tick-Marks cfg outcome es below p (q, err e) h = tt
  tick-Marks cfg outcome es below p (q, panic) h = tt

  pump_loop-Marks : (cfg : PumpConfig) (es : List Event) → AllMarks cfg es
  unfolding pump_loop mark_of
  pump_loop-Marks cfg [] p = (refl, λ file e. (file, e))
  pump_loop-Marks cfg (shutdown ∷ es) p = (refl, λ file e. (file, e))
  pump_loop-Marks cfg (cursor_tick outcome ∷ es) p =
      let q = record p { cursor_file = persist_cursor p.cursor_file p.last_seq outcome } in
      tick-Marks cfg outcome es (pump_loop-Marks cfg es) p (pump_loop m c w cfg es q)
        (pump_loop-Marks cfg es q)
  pump_loop-Marks cfg (gc_tick env ∷ es) p = pump_loop-Marks cfg es _
  pump_loop-Marks cfg (received env f ∷ es) p =
      subst (Marks (mark_of seq_of p.last_seq (calls (received env f ∷ es))) p.cursor_file)
        (sym (loop_step m c w cfg env f es p)) (frame-Marks cfg env f es (pump_loop-Marks cfg es) p)

  closed-file :
      (outcome : WriteOutcome) (q : Pump m c w) (r : w.State × Published (Unit {0}))
      (p' : Pump m c w)
      → closed m c w outcome q r ≡ (p', ok tt)
      → p'.cursor_file ≡ persist_cursor q.cursor_file q.last_seq outcome
  closed-file outcome q (s, ok u) p' h =
      sym (ap (λ (t : Pump m c w × Published (Unit {0})). t.0.cursor_file) h)
  closed-file outcome q (s, err e) p' h =
      absurd (no (ap (λ (t : Pump m c w × Published (Unit {0})). t.1) h))
    where
      no : ◌≡◌ {A = Published (Unit {0})} (err e) (ok tt) → ⊥
      no h = cc
  closed-file outcome q (s, panic) p' h =
      absurd (no (ap (λ (t : Pump m c w × Published (Unit {0})). t.1) h))
    where
      no : ◌≡◌ {A = Published (Unit {0})} panic (ok tt) → ⊥
      no h = cc

  ended-file :
      (env : Env) (last : ℤ) (o : Option StateFile) (file : StateFile)
      (r : Pump m c w × Published (Unit {0})) (p' : Pump m c w)
      → Marks last o r
      → o ≡ some file
      → ended m c w env r ≡ (p', ok tt)
      → (file' : StateFile) × (p'.cursor_file ≡ persist_cursor (some file') last env.file_outcome)
  ended-file env last o file (q, ok u) p' (same, keeps) e h =
      let (file', e') = keeps file e in
      (
        file',
        closed-file env.file_outcome q (w.close env q.publisher) p' h
            ∙ ap₂ (λ (x : Option StateFile) (y : ℤ). persist_cursor x y env.file_outcome) e' same,
      )
  ended-file env last o file (q, err x) p' marks e h =
      absurd (no (ap (λ (t : Pump m c w × Published (Unit {0})). t.1) h))
    where
      no : ◌≡◌ {A = Published (Unit {0})} (err x) (ok tt) → ⊥
      no h = cc
  ended-file env last o file (q, panic) p' marks e h =
      absurd (no (ap (λ (t : Pump m c w × Published (Unit {0})). t.1) h))
    where
      no : ◌≡◌ {A = Published (Unit {0})} panic (ok tt) → ⊥
      no h = cc

  -- A run with a cursor file that ends well, and whose last write of that file succeeds, leaves its
  -- high-water mark to the next run, if that is a sequence number: the next run begins at that mark,
  -- so that the two publish, of any further events, what one run over all of them would.
  pub pump-resumes :
      (cfg : PumpConfig) (env : Env) (es : List Event) (p p' : Pump m c w) (file : StateFile)
      (n : ℕ) (flag : Option ℤ) (more : List Event)
      → p.cursor_file ≡ some file
      → env.file_outcome ≡ wrote
      → mark_of seq_of p.last_seq (calls es) ≡ pos n
      → n < 2 ^ 63
      → pump m c w cfg env es p ≡ (p', ok tt)
      → (load_initial_cursor p'.cursor_file flag ≡ pos n)
        × (fresh seq_of p.last_seq (calls es ++ calls more)
            ≡ fresh seq_of p.last_seq (calls es)
              ++ fresh seq_of (load_initial_cursor p'.cursor_file flag) (calls more))
  unfolding pump
  pump-resumes cfg env es p p' file n flag more e outcome mark small h =
      let (file', e') =
        ended-file env (mark_of seq_of p.last_seq (calls es)) p.cursor_file file
          (pump_loop m c w cfg es p) p' (pump_loop-Marks cfg es p) e h in
      let saved : load_initial_cursor p'.cursor_file flag ≡ pos n =
        ap (λ x. load_initial_cursor x flag)
          (e' ∙ ap₂ (λ (y : ℤ) (o : WriteOutcome). persist_cursor (some file') y o) mark outcome)
        ∙ (load-persist_cursor file' n flag wrote none (pos 0) small tt).0 in
      (
        saved,
        fresh-append seq_of p.last_seq (calls es) (calls more)
            ∙ ap (λ y. fresh seq_of p.last_seq (calls es) ++ fresh seq_of y (calls more))
                (mark ∙ sym saved),
      )
