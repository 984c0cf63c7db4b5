-- ===== src/Favorites.antt =====
-- The customer's favourite shops, resources/js/Hooks/useFavorites.ts. A toggle runs up to its
-- `await` and waits in `toggles` for the event of its answer. A set is the list of its elements.
pub mod Toggling
mod Scenarios
use fleximo_oss.Base.{
  ℕ, Bool, true, false, not, Option, none, some, String, List, [], ◌∷◌, ◌++◌, includes, filter_by,
  get_elem?, remove_at, truthy, if◌then◌else◌, ◌==◌, nat_eq,
}

-- a toggle whose request waits
pub record Toggle : Type 0 where
  pub tenant_id : ℕ
  pub previous_ids : List ℕ

pub record Favorites : Type 0 where
  pub favorite_ids : List ℕ
  pub is_toggling : Bool
  pub toggles : List Toggle

-- what `api.post` answers
pub record ToggleReply : Type 0 where
  pub error : Option String
  pub is_favorited : Option Bool

unfoldable pub init_favorites : List ℕ → Favorites
init_favorites ids = record { favorite_ids = ids; is_toggling = false; toggles = [] }

-- `set.add(id)`
unfoldable pub add_id : ℕ → List ℕ → List ℕ
add_id id ids = if includes ids id then ids else ids ++ id ∷ []

-- `set.delete(id)`
unfoldable pub delete_id : ℕ → List ℕ → List ℕ
delete_id id ids = filter_by (λ k. not (k == id)) ids

unfoldable pub flip_id : ℕ → List ℕ → List ℕ
flip_id id ids = if includes ids id then delete_id id ids else add_id id ids

unfoldable pub is_favorited : Favorites → ℕ → Bool
is_favorited s tenant_id = includes s.favorite_ids tenant_id

-- `toggleFavorite` up to its request
unfoldable pub toggle_favorite : ℕ → Favorites → Favorites
toggle_favorite tenant_id s = record {
  favorite_ids = flip_id tenant_id s.favorite_ids;
  is_toggling = true;
  toggles = s.toggles ++ record { tenant_id = tenant_id; previous_ids = s.favorite_ids } ∷ [];
}

-- the set after the answer
unfoldable pub synced : Toggle → ToggleReply → List ℕ → List ℕ
synced t reply ids = if truthy reply.error then t.previous_ids else elim reply.is_favorited [
  | none ↦ t.previous_ids
  | some true ↦ add_id t.tenant_id ids
  | some false ↦ delete_id t.tenant_id ids
]

-- the rest of `toggleFavorite`, for the `i`-th toggle that waits
unfoldable pub on_toggle_reply : ℕ → ToggleReply → Favorites → Favorites
on_toggle_reply i reply s = elim (get_elem? s.toggles i) [
  | none ↦ s
  | some t ↦ record {
    favorite_ids = synced t reply s.favorite_ids;
    is_toggling = false;
    toggles = remove_at s.toggles i;
  }
]
