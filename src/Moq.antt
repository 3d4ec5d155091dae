-- ===== src/Moq.antt =====
-- What the program calls of the MoQ library (rust/vendor/moq-net): tracks and their groups. A call
-- gives the handle back and whether it succeeded.
pub mod Examples
use atmoq.Common.{ℕ, suc, max, ◌≡◌, Bool, true, Option, none, some, List, [], ◌∷◌, ◌++◌, Bytes}

pub record Moq : Type 1 where
  pub Track : Type 0
  pub Group : Type 0
  pub sequence : Group → ℕ
  pub create_group : ℕ → Track → Track × Option Group
  pub append_group : Track → Track × Option Group
  pub write_frame : Bytes → Group → Group × Bool
  pub finish_group : Group → Group × Bool
  pub finish_track : Track → Track × Bool
  pub set_max_group_age : ℕ → Track → Track × Bool

-- The next sequence behind the highest.
abbrev pub next_of : Option ℕ → ℕ
next_of none = 0
next_of (some n) = suc n

abbrev pub highest : Option ℕ → ℕ → ℕ
highest none n = n
highest (some m) n = max m n

-- What the library documents: a group holds the frames written to it, a track knows the highest
-- sequence it has had, and `append_group` takes the next.
pub record IsMoq (m : Moq) : Type 0 where
  pub written : m.Group → List Bytes
  pub last : m.Track → Option ℕ
  pub create_law :
      (n : ℕ) (t t' : m.Track) (g : m.Group)
      → m.create_group n t ≡ (t', some g)
      → (m.sequence g ≡ n) × (written g ≡ []) × (last t' ≡ some (highest (last t) n))
  pub append_law :
      (t t' : m.Track) (g : m.Group)
      → m.append_group t ≡ (t', some g)
      → (m.sequence g ≡ next_of (last t)) × (written g ≡ []) × (last t' ≡ some (m.sequence g))
  pub write_law :
      (b : Bytes) (g g' : m.Group)
      → m.write_frame b g ≡ (g', true)
      → (m.sequence g' ≡ m.sequence g) × (written g' ≡ written g ++ (b ∷ []))
