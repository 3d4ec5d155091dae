-- ===== src/Moq/Examples.antt =====
-- A library of tracks that keeps what is written, for the examples of the modules that use one.
use atmoq.Common.{ℕ, ◌≡◌, sym, ap, ◌∙◌, Bool, true, Option, some, List, [], ◌∷◌, ◌++◌, Bytes}
use mathlib.Core.Option.{some-injective}
use atmoq.Moq.{Moq, next_of, highest, IsMoq}

abbrev pub ToyGroup : Type 0
ToyGroup = ℕ × List Bytes

abbrev pub toy : Moq
toy = record {
  Track = Option ℕ;
  Group = ToyGroup;
  sequence = λ g. g.0;
  create_group = λ n t. (some (highest t n), some (n, []));
  append_group = λ t. (some (next_of t), some (next_of t, []));
  write_frame = λ b g. ((g.0, g.1 ++ (b ∷ [])), true);
  finish_group = λ g. (g, true);
  finish_track = λ t. (t, true);
  set_max_group_age = λ secs t. (t, true);
}

abbrev pub Made : Type 0
Made = Option ℕ × Option ToyGroup

pub made_group :
    (t t' : Option ℕ) (g g' : ToyGroup) → ◌≡◌ {A = Made} (t, some g) (t', some g') → g ≡ g'
made_group t t' g g' h = some-injective g g' (ap (λ (x : Made). x.1) h)

pub made_track :
    (t t' : Option ℕ) (g g' : ToyGroup) → ◌≡◌ {A = Made} (t, some g) (t', some g') → t ≡ t'
made_track t t' g g' h = ap (λ (x : Made). x.0) h

unfoldable pub toy-IsMoq : IsMoq toy
toy-IsMoq = record {
  written = λ g. g.1;
  last = λ t. t;
  create_law = λ n t t' g h. (
    sym (ap (λ (x : ToyGroup). x.0) (made_group _ _ _ _ h)),
    sym (ap (λ (x : ToyGroup). x.1) (made_group _ _ _ _ h)),
    sym (made_track _ _ _ _ h),
  );
  append_law = λ t t' g h. (
    sym (ap (λ (x : ToyGroup). x.0) (made_group _ _ _ _ h)),
    sym (ap (λ (x : ToyGroup). x.1) (made_group _ _ _ _ h)),
    sym (made_track _ _ _ _ h) ∙ ap (λ (x : ToyGroup). some x.0) (made_group _ _ _ _ h),
  );
  write_law = λ b g g' h.
      (sym (ap (λ (x : ToyGroup × Bool). x.0.0) h), sym (ap (λ (x : ToyGroup × Bool). x.0.1) h));
}
