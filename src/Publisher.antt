-- ===== src/Publisher.antt =====
-- rust/crates/atmoq/src/main.rs, `FramePublisher::Lite`: frames go to the live group, and a full group
-- goes to the disk store. The MoQ library is the parameter `m`; an `Env` is what the world does during
-- one call: the clock, and how the writes of the store and of the sequence file end.
pub mod Steps
pub mod Stream
pub mod Restart
pub mod Sequences
mod Examples
use atmoq.Common.{
  ℕ, zero, suc, ◌+◌, ◌-◌, ◌*◌, ◌%◌, ◌^◌, max, Bool, true, false, ◌||◌, Option, none, some, List, [],
  ◌∷◌, ◌++◌, Result, ok, err, panic, ◌>>=◌, if◌then◌else◌, ltb, leb, Bytes, length,
}
use atmoq.Moq.{Moq}
use atmoq.Metrics.{Metrics, add_u64}
use atmoq.StateFile.{StateFile, WriteOutcome, persist_group_seq, load_group_seq}
use atmoq.Store.{
  GroupStore, Outcome, Stored, append, gc, Files, GroupLocation, locate, read_group_at,
  indexed_groups, total_bytes, groups_since, read,
}

pub record Env : Type 0 where
  pub now_ms : ℕ
  pub store_outcome : Outcome
  pub file_outcome : WriteOutcome

pub data PublishError : Type 0 where
  write_refused append_refused create_refused finish_refused store_unreadable : PublishError

abbrev pub Published : Type 0 → Type 0
Published A = Result PublishError A

abbrev pub sum_lengths : List Bytes → ℕ
sum_lengths [] = 0
sum_lengths (f ∷ fs) = length f + sum_lengths fs

-- `Retention` of the pump.
pub record Retention : Type 0 where
  pub window_secs : ℕ
  pub max_bytes : ℕ

-- The arms of the `match` on the result of the append.
abbrev pub count_append : Stored (Unit {0}) → ℕ → Metrics → Metrics
count_append (ok u) bytes x = record x {
  store_append_bytes_total = add_u64 x.store_append_bytes_total bytes;
}
count_append (err e) bytes x = record x {
  store_append_failures_total = add_u64 x.store_append_failures_total 1;
}
count_append panic bytes x = x

abbrev pub buffered : Option GroupStore → Bytes → List Bytes → List Bytes
buffered none b frames = frames
buffered (some s) b frames = frames ++ (b ∷ [])

abbrev pub gc_cutoff : ℕ → ℕ → ℕ
gc_cutoff window_secs now = if ltb 0 window_secs then now - window_secs * 1000 % 2 ^ 64 else 0

-- The store behind `store.gc`, if one of the two limits is on, and how many segments went.
abbrev pub gc_store : Env → Retention → GroupStore → GroupStore × ℕ
gc_store env r s =
    if ltb 0 r.window_secs || ltb 0 r.max_bytes
    then gc s (gc_cutoff r.window_secs env.now_ms) r.max_bytes
    else (s, 0)

-- The in-progress group goes to disk at a clean shutdown, if it has frames.
abbrev pub flushed_store : Env → ℕ → List Bytes → Option GroupStore → Option GroupStore
flushed_store env seq frames none = none
flushed_store env seq [] (some s) = some s
flushed_store env seq (f ∷ fs) (some s) =
    some (append s seq env.now_ms (f ∷ fs) env.store_outcome).0

abbrev pub or_unreadable : {A : Type 0} → Stored A → Published A
or_unreadable (ok a) = ok a
or_unreadable (err e) = err store_unreadable
or_unreadable panic = panic

module _ (m : Moq) where
  open m use {
    Track, Group, sequence, create_group, append_group, write_frame, finish_group, finish_track,
  }

  pub record Lite : Type 0 where
    pub track : Track
    pub group : Group
    pub count : ℕ
    pub group_seq_file : Option StateFile
    pub store : Option GroupStore
    pub group_frames : List Bytes
    pub metrics : Metrics

  -- `if let Some(store)`: the finished group goes to disk.
  abbrev pub store_group : Env → ℕ → Option GroupStore → Lite → Lite
  store_group env finished_seq none p = p
  store_group env finished_seq (some s) p =
      let (s', result) = append s finished_seq env.now_ms p.group_frames env.store_outcome in
      record p {
        store = some s';
        group_frames = [];
        metrics = count_append result (sum_lengths p.group_frames) p.metrics;
      }

  -- The end of a rotation: counters, and the new sequence to the file.
  abbrev pub note_group : Env → Lite → Lite
  note_group env p = record p {
    metrics = record p.metrics {
      groups_total = add_u64 p.metrics.groups_total 1;
      group_seq = sequence p.group;
    };
    group_seq_file = persist_group_seq p.group_seq_file (sequence p.group) env.file_outcome;
  }

  -- Behind `old.finish()?`.
  abbrev pub finished : Env → ℕ → Lite → Bool → Lite × Published (Unit {0})
  finished env finished_seq p false = (p, err finish_refused)
  finished env finished_seq p true =
      (note_group env (store_group env finished_seq p.store (record p { count = 0 })), ok tt)

  -- Behind `track.append_group()?`, which gave `track'`; the old group is the one of `p`.
  abbrev pub replaced : Env → Lite → Track × Option Group → Lite × Published (Unit {0})
  replaced env p (track', none) = (record p { track = track' }, err append_refused)
  replaced env p (track', some next) =
      finished env (sequence p.group) (record p { track = track'; group = next })
        (finish_group p.group).1

  unfoldable pub rotate_group : Env → Lite → Lite × Published (Unit {0})
  rotate_group env p = replaced env p (append_group p.track)

  -- Behind `group.write_frame(b)?`.
  abbrev pub written_frame : Env → Bytes → ℕ → Lite → Group × Bool → Lite × Published (Unit {0})
  written_frame env b group_size p (g, false) = (record p { group = g }, err write_refused)
  written_frame env b group_size p (g, true) =
      let p' = record p {
        group = g;
        group_frames = buffered p.store b p.group_frames;
        count = p.count + 1;
      } in
      if leb group_size (p.count + 1) then rotate_group env p' else (p', ok tt)

  unfoldable pub write : Env → Bytes → ℕ → Lite → Lite × Published (Unit {0})
  write env b group_size p = written_frame env b group_size p (write_frame b p.group)

  abbrev pub gc_with : Env → Retention → Option GroupStore → Lite → Lite
  gc_with env r none p = p
  gc_with env r (some s) p =
      let (s', removed) = gc_store env r s in
      record p {
        store = some s';
        metrics = record p.metrics {
          store_gc_segments_removed_total =
              add_u64 p.metrics.store_gc_segments_removed_total removed;
          store_groups_indexed = indexed_groups s';
          store_bytes = total_bytes s';
        };
      }

  unfoldable pub gc_publisher : Env → Retention → Lite → Lite
  gc_publisher env r p = gc_with env r p.store p

  -- The store that is left, and the result of the two `finish()?`.
  unfoldable pub finish : Env → Lite → Option GroupStore × Published (Unit {0})
  finish env p = (
    flushed_store env (sequence p.group) p.group_frames p.store,
    if (finish_group p.group).1
        then if (finish_track p.track).1 then ok tt else err finish_refused
        else err finish_refused,
  )

  -- `create_group(..)?` and `append_group()?`.
  abbrev pub or_refused : {A : Type 0} → PublishError → Track × Option A → Published (Track × A)
  or_refused e (t, none) = err e
  or_refused e (t, some a) = ok (t, a)

  unfoldable pub make_first_group :
      Track
      → Option ℕ
      → Option StateFile
      → WriteOutcome
      → Published (Track × Group × Option StateFile)
  make_first_group track none file outcome = do
    made ← or_refused append_refused (append_group track)
    ok (made.0, made.1, persist_group_seq file (sequence made.1) outcome)
  make_first_group track (some prev) file outcome = do
    made ← or_refused create_refused (create_group ((prev + 1) % 2 ^ 64) track)
    ok (made.0, made.1, persist_group_seq file (sequence made.1) outcome)

  -- `for f in frames { g.write_frame(f)?; }`.
  unfoldable pub write_all : List Bytes → Group → Published Group
  write_all [] g = ok g
  write_all (f ∷ fs) g =
      let rest = write_all fs (write_frame f g).0 in
      if (write_frame f g).1 then rest else err write_refused

  -- One stored group, created with its sequence, filled and finished.
  abbrev pub reload_group : Track → ℕ → Option (List Bytes) → Published Track
  reload_group track seq none = ok track
  reload_group track seq (some frames) = do
    made ← or_refused create_refused (create_group seq track)
    g ← write_all frames made.1
    if (finish_group g).1 then ok made.0 else err finish_refused

  unfoldable pub reload_groups : GroupStore → List ℕ → Track → Published Track
  unfolding write_all
  reload_groups s [] track = ok track
  reload_groups s (seq ∷ seqs) track = do
    frames ← or_unreadable (read s seq)
    track' ← reload_group track seq frames
    reload_groups s seqs track'

  unfoldable pub reload_window : Track → GroupStore → ℕ → ℕ → Published Track
  unfolding reload_groups
  reload_window track s window_secs now =
      if ltb 0 window_secs
      then reload_groups s (groups_since (now - window_secs * 1000 % 2 ^ 64) s.index) track
      else ok track

abbrev pub higher_of : Option ℕ → ℕ → ℕ
higher_of none f = f
higher_of (some m) f = max f m

-- The sequence before the first of this run: the file's, the store's, or one above the store's.
unfoldable pub seed_of : Option ℕ → Option ℕ → Option ℕ
seed_of (some f) store_max = some (higher_of store_max f)
seed_of none none = none
seed_of none (some m) = some ((m + 1) % 2 ^ 64)

module _ (m : Moq) where
  -- `build_lite_publisher` behind the opening of the store `s`; `file` is the file at the path given, or
  -- at the default path. The source that it sets for old groups is `source_group`.
  unfoldable pub build_lite_publisher :
      m.Track → Option StateFile → GroupStore → ℕ → Env → Metrics → Published (Lite m)
  unfolding reload_window make_first_group seed_of
  build_lite_publisher track file s window_secs env metrics = do
    reloaded ← reload_window m track s window_secs env.now_ms
    first ←
        make_first_group m reloaded (seed_of (load_group_seq file) s.max_seq) file env.file_outcome
    ok (record {
      track = first.0;
      group = first.1;
      count = 0;
      group_seq_file = first.2;
      store = some s;
      group_frames = [];
      metrics = metrics;
    })

abbrev pub count_missing : Metrics → Metrics
count_missing x = record x {
  backfill_groups_missing_total = add_u64 x.backfill_groups_missing_total 1;
}

abbrev pub count_served : Metrics → Metrics
count_served x = record x {
  backfill_groups_served_total = add_u64 x.backfill_groups_served_total 1;
}

abbrev pub source_read : Metrics → Stored (List Bytes) → Metrics × Stored (Option (List Bytes))
source_read x (ok frames) = (count_served x, ok (some frames))
source_read x (err e) = (count_missing x, ok none)
source_read x panic = (x, panic)

abbrev pub source_at :
    Files → ℕ → Metrics → Stored (Option GroupLocation) → Metrics × Stored (Option (List Bytes))
source_at files seq x (ok none) = (count_missing x, ok none)
source_at files seq x (ok (some loc)) = source_read x (read_group_at files loc seq)
source_at files seq x (err e) = (count_missing x, ok none)
source_at files seq x panic = (x, panic)

-- `StoreSource::group`. The file is read when the lock has gone: `files` are those of that moment.
unfoldable pub source_group :
    GroupStore → Files → ℕ → Metrics → Metrics × Stored (Option (List Bytes))
source_group s files seq x = source_at files seq x (locate s seq)
