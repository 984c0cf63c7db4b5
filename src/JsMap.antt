-- ===== src/JsMap.antt =====
-- JavaScript's `Map` (and `Record<number, T>`) as the list of its entries in insertion order.
-- `set` on a key that is present keeps the entry's place, as the language prescribes.
pub mod Laws
use fleximo_oss.Base.{
  ℕ, Bool, true, false, Option, none, some, List, [], ◌∷◌, map, length, is_some, Eq, ◌==◌,
  if◌then◌else◌, ◌≢◌, filter_by, not,
}

abbrev pub JsMap {ℓ κ} : Type ℓ → Type κ → Type (ℓ ⊔ κ)
JsMap K V = List (K × V)

module _ {ℓ κ} {K : Type ℓ} {V : Type κ} where
  abbrev pub keys : JsMap K V → List K
  keys = map (λ e. e.0)

  abbrev pub values : JsMap K V → List V
  values = map (λ e. e.1)

  -- No entry has the key.
  abbrev pub Absent : K → JsMap K V → Type ℓ
  Absent k [] = Unit
  Absent k ((j, v) ∷ m) = (j ≢ k) × Absent k m

  -- What the language guarantees of a map: no key occurs twice.
  abbrev pub IsMap : JsMap K V → Type ℓ
  IsMap [] = Unit
  IsMap ((k, v) ∷ m) = Absent k m × IsMap m

module _ {ℓ κ} {K : Type ℓ} {V : Type κ} ⦃e : Eq K⦄ where
  unfoldable pub get : JsMap K V → K → Option V
  get [] k = none
  get ((j, v) ∷ m) k = if j == k then some v else get m k

  unfoldable pub has : JsMap K V → K → Bool
  unfolding get
  has m k = is_some (get m k)

  unfoldable pub put : JsMap K V → K → V → JsMap K V
  put [] k v = (k, v) ∷ []
  put ((j, w) ∷ m) k v = let rest = put m k v in if j == k then (j, v) ∷ m else (j, w) ∷ rest

  unfoldable pub delete : JsMap K V → K → JsMap K V
  delete [] k = []
  delete ((j, w) ∷ m) k = let rest = delete m k in if j == k then rest else (j, w) ∷ rest
