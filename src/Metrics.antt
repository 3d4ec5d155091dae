-- ===== src/Metrics.antt =====
-- rust/crates/atmoq/src/metrics.rs: the counters and gauges. `fetch_add` wraps at 64 bits.
use atmoq.Common.{ℕ, zero, suc, ◌+◌, ◌-◌, ◌%◌, ◌^◌, Option, none, some}
use atmoq.Common.Int.{ℤ, pos}

pub record Metrics : Type 0 where
  pub frames_total : ℕ
  pub frames_rejected_total : ℕ
  pub frames_dropped_below_cursor_total : ℕ
  pub upstream_error_frames_total : ℕ
  pub upstream_connects_total : ℕ
  pub upstream_seq : ℤ
  pub last_frame_unix_ms : ℕ
  pub groups_total : ℕ
  pub group_seq : ℕ
  pub subscribers_connected_total : ℕ
  pub subscribers_disconnected_total : ℕ
  pub subscribers_rejected_total : ℕ
  pub did_tracks_opened_total : ℕ
  pub did_tracks_closed_total : ℕ
  pub did_tracks_refused_total : ℕ
  pub store_append_bytes_total : ℕ
  pub store_append_failures_total : ℕ
  pub store_groups_indexed : ℕ
  pub store_bytes : ℕ
  pub store_gc_segments_removed_total : ℕ
  pub backfill_groups_served_total : ℕ
  pub backfill_groups_missing_total : ℕ

-- `Metrics::default`.
abbrev pub no_metrics : Metrics
no_metrics = record {
  frames_total = 0;
  frames_rejected_total = 0;
  frames_dropped_below_cursor_total = 0;
  upstream_error_frames_total = 0;
  upstream_connects_total = 0;
  upstream_seq = pos 0;
  last_frame_unix_ms = 0;
  groups_total = 0;
  group_seq = 0;
  subscribers_connected_total = 0;
  subscribers_disconnected_total = 0;
  subscribers_rejected_total = 0;
  did_tracks_opened_total = 0;
  did_tracks_closed_total = 0;
  did_tracks_refused_total = 0;
  store_append_bytes_total = 0;
  store_append_failures_total = 0;
  store_groups_indexed = 0;
  store_bytes = 0;
  store_gc_segments_removed_total = 0;
  backfill_groups_served_total = 0;
  backfill_groups_missing_total = 0;
}

-- `fetch_add(n)`.
abbrev pub add_u64 : ℕ → ℕ → ℕ
add_u64 a n = (a + n) % 2 ^ 64

abbrev pub or_stored : Option ℤ → ℤ → ℤ
or_stored none old = old
or_stored (some seq) old = seq

unfoldable pub record_frame : Option ℤ → ℕ → Metrics → Metrics
record_frame seq now m = record m {
  frames_total = add_u64 m.frames_total 1;
  upstream_seq = or_stored seq m.upstream_seq;
  last_frame_unix_ms = now;
}

unfoldable pub subscribers_live : Metrics → ℕ
subscribers_live m = m.subscribers_connected_total - m.subscribers_disconnected_total

unfoldable pub did_tracks_live : Metrics → ℕ
did_tracks_live m = m.did_tracks_opened_total - m.did_tracks_closed_total

-- `now_ms().saturating_sub(ms)`, where a frame was relayed.
unfoldable pub frame_age_ms : ℕ → Metrics → Option ℕ
frame_age_ms now m = elim m.last_frame_unix_ms [ zero ↦ none | suc n ↦ some (now - suc n) ]
