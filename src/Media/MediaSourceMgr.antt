-- ===== src/Media/MediaSourceMgr.antt =====
-- media/base/MediaSourceMgr.cpp: the registry of sources by the key that app and stream make.
--
-- `m_sources` is an association list without an order that matters; a source is known by its
-- pointer, and `created` is the pointer that the next make_shared gives. A call is one step: the
-- mutex orders them.
pub mod Registry
use omega_streamer.Prelude.{ℕ, suc, Option, none, some, List, [], ◌∷◌, ◌++◌, if◌then◌else◌, length}
use omega_streamer.Prelude.Strings.{same_string}

pub record MediaSourceMgr : Type 0 where
  pub sources : List (List ℕ × ℕ)
  pub created : ℕ

unfoldable pub make_key : List ℕ → List ℕ → List ℕ
make_key app stream = app ++ (47 ∷ stream)

-- m_sources.find(key)
unfoldable pub lookup : List (List ℕ × ℕ) → List ℕ → Option ℕ
lookup [] key = none
lookup ((k, source) ∷ rest) key = if same_string k key then some source else lookup rest key

-- m_sources.erase of what find has found.
unfoldable pub erase_key : List (List ℕ × ℕ) → List ℕ → List (List ℕ × ℕ)
erase_key [] key = []
erase_key ((k, source) ∷ rest) key =
    let others = erase_key rest key in if same_string k key then rest else (k, source) ∷ others

unfoldable pub find : MediaSourceMgr → List ℕ → List ℕ → Option ℕ
find m app stream = lookup m.sources (make_key app stream)

unfoldable pub create_unless : MediaSourceMgr → List ℕ → Option ℕ → ℕ × MediaSourceMgr
create_unless m key (some source) = (source, m)
create_unless m key none =
    (m.created, record { sources = (key, m.created) ∷ m.sources; created = suc m.created })

unfoldable pub find_or_create : MediaSourceMgr → List ℕ → List ℕ → ℕ × MediaSourceMgr
unfolding create_unless find
find_or_create m app stream = create_unless m (make_key app stream) (find m app stream)

unfoldable pub remove : MediaSourceMgr → List ℕ → List ℕ → MediaSourceMgr
remove m app stream = record m { sources = erase_key m.sources (make_key app stream) }

unfoldable pub source_count : MediaSourceMgr → ℕ
source_count m = length m.sources
