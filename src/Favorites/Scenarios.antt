-- ===== src/Favorites/Scenarios.antt =====
-- Toggles of favourite shops (resources/js/Hooks/useFavorites.ts).
use fleximo_oss.Base.{true, false, none, some, [], ◌∷◌, ◌≡◌, refl, nat_eq}
use fleximo_oss.Favorites.{
  ToggleReply, init_favorites, is_favorited, toggle_favorite, on_toggle_reply, synced, add_id,
  delete_id, flip_id,
}
use fleximo_oss.Favorites.Toggling.{toggle_favorite-on_toggle_reply, overlapping_toggles}

abbrev refusal : ToggleReply
refusal = record { error = some "500"; is_favorited = none }

refused_toggle :
    (on_toggle_reply 0 refusal (toggle_favorite 3 (init_favorites (2 ∷ [])))).favorite_ids ≡ 2 ∷ []
unfolding init_favorites toggle_favorite on_toggle_reply synced flip_id add_id delete_id
refused_toggle = refl

toggle_favorite-on_toggle_reply_example :
    (is_favorited (toggle_favorite 3 (init_favorites (2 ∷ []))) 3 ≡ true)
    × (is_favorited (on_toggle_reply 0 refusal (toggle_favorite 3 (init_favorites (2 ∷ [])))) 3
        ≡ false)
unfolding init_favorites is_favorited
toggle_favorite-on_toggle_reply_example = toggle_favorite-on_toggle_reply (2 ∷ []) 3 3 refusal

overlapping_toggles_example :
    let started = toggle_favorite 4 (toggle_favorite 3 (init_favorites (2 ∷ []))) in
    let confirmed = on_toggle_reply 1 (record { error = none; is_favorited = some true }) started in
    (is_favorited confirmed 4 ≡ true)
    × (is_favorited (on_toggle_reply 0 refusal confirmed) 4 ≡ false)
overlapping_toggles_example = overlapping_toggles (2 ∷ []) 3 4 refusal refl
