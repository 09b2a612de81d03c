-- ===== src/Media/MediaSourceMgr/Registry.antt =====
-- The registry as a map from keys to sources.
use omega_streamer.Prelude.{
  ℕ, ◌≡◌, ◌∙◌, sym, ap, refl, Bool, true, false, true≢false, none, some, List, [], ◌∷◌,
  if◌then◌else◌, Bool-cases, Option-cases, inl, inr,
}
use omega_streamer.Prelude.Strings.{same_string, same_string-eq, same_string_self}
use omega_streamer.Media.MediaSourceMgr.{
  MediaSourceMgr, make_key, lookup, erase_key, find, create_unless, find_or_create, remove,
}

-- Two different keys do not become the same when one of them is replaced by its equal.
different :
    (k key other : List ℕ)
    → same_string k key ≡ false
    → same_string k other ≡ true
    → same_string key other ≡ false
different k key other apart equal = elim (Bool-cases (same_string key other)) [
  | inl e ↦
      let same : k ≡ key = same_string-eq k other equal ∙ sym (same_string-eq key other e) in
      absurd
        (true≢false (sym (same_string_self key) ∙ ap (λ l. same_string l key) (sym same) ∙ apart))
  | inr e ↦ e
]

-- Each key stands once.
abbrev pub IsUnique : List (List ℕ × ℕ) → Type 0
IsUnique [] = Unit
IsUnique ((k, source) ∷ rest) = (lookup rest k ≡ none) × IsUnique rest

if_same : {A : Type 0} (b : Bool) (x : A) → x ≡ (if b then x else x)
if_same true x = refl
if_same false x = refl

lookup-erase_key :
    (l : List (List ℕ × ℕ)) (key other : List ℕ)
    → IsUnique l
    → lookup (erase_key l key) other ≡ (if same_string key other then none else lookup l other)
unfolding lookup erase_key
lookup-erase_key [] key other u = if_same (same_string key other) none
lookup-erase_key ((k, source) ∷ rest) key other (absent, u) =
    elim (Bool-cases (same_string k key)) [
      | inl found ↦
          let same = same_string-eq k key found in
          elim (Bool-cases (same_string key other)) [
            | inl e ↦
                rw (found, e) (ap (lookup rest) (sym (same ∙ same_string-eq key other e)) ∙ absent)
            | inr e ↦ rw (found, e, ap (λ l. same_string l other) same ∙ e) refl
          ]
      | inr further ↦ elim (Bool-cases (same_string k other)) [
        | inl e ↦ rw (further, e, different k key other further e) refl
        | inr e ↦ rw (further, e) (lookup-erase_key rest key other u)
      ]
    ]

-- Removing a key keeps the keys unique.
erase_key-IsUnique :
    (l : List (List ℕ × ℕ)) (key : List ℕ) → IsUnique l → IsUnique (erase_key l key)
unfolding erase_key
erase_key-IsUnique [] key u = u
erase_key-IsUnique ((k, source) ∷ rest) key (absent, u) = elim (Bool-cases (same_string k key)) [
  | inl found ↦ rw found u
  | inr further ↦ rw further (
    lookup-erase_key rest key k u
        ∙ ap (λ o. if same_string key k then none else o) absent
        ∙ sym (if_same (same_string key k) none),
    erase_key-IsUnique rest key u,
  )
]

-- What is under a key is under each equal key.
lookup-present :
    (l : List (List ℕ × ℕ)) (mine key : List ℕ) (source : ℕ)
    → lookup l mine ≡ some source
    → lookup l key ≡ (if same_string mine key then some source else lookup l key)
lookup-present l mine key source there = elim (Bool-cases (same_string mine key)) [
  | inl e ↦ rw e (ap (lookup l) (sym (same_string-eq mine key e)) ∙ there)
  | inr e ↦ rw e refl
]

-- What FindOrCreate and Remove promise of a registry in which each key stands once.
pub record Registered (m : MediaSourceMgr) (app stream : List ℕ) (key : List ℕ) : Type 0 where
  pub created_unique : IsUnique (find_or_create m app stream).1.sources
  pub created_found :
      find (find_or_create m app stream).1 app stream ≡ some (find_or_create m app stream).0
  pub created_others : lookup (find_or_create m app stream).1.sources key ≡ (
      if same_string (make_key app stream) key
      then some (find_or_create m app stream).0
      else lookup m.sources key)
  pub removed_unique : IsUnique (remove m app stream).sources
  pub removed_others :
      lookup (remove m app stream).sources key
      ≡ (if same_string (make_key app stream) key then none else lookup m.sources key)

pub IsUnique-Registered :
    (m : MediaSourceMgr) (app stream key : List ℕ)
    → IsUnique m.sources
    → Registered m app stream key
unfolding find_or_create create_unless find remove lookup
IsUnique-Registered m app stream key u =
    let mine = make_key app stream in
    elim (Option-cases (lookup m.sources mine)) [
      | inl absent ↦ record {
        created_unique = rw absent (absent, u);
        created_found = rw (absent, same_string_self mine) refl;
        created_others = rw absent refl;
        removed_unique = erase_key-IsUnique m.sources mine u;
        removed_others = lookup-erase_key m.sources mine key u;
      }
      | inr (source, there) ↦ record {
        created_unique = rw there u;
        created_found = rw there there;
        created_others = rw there (lookup-present m.sources mine key source there);
        removed_unique = erase_key-IsUnique m.sources mine u;
        removed_others = lookup-erase_key m.sources mine key u;
      }
    ]
