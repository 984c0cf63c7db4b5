-- ===== src/JsMap/Laws.antt =====
-- The laws of `Map` that the clients use.
use fleximo_oss.Base.{
  ◌≤◌, none, some, [], ◌∷◌, length, Eq, ◌==◌, if◌then◌else◌, ◌≢◌, ◌≡◌, refl, arith, Bool-cases, inl,
  inr,
}
use fleximo_oss.JsMap.{JsMap, Absent, IsMap, get, put, delete}

module _ {ℓ κ} {K : Type ℓ} {V : Type κ} ⦃e : Eq K⦄ where
  pub get-put :
      (m : JsMap K V) (k j : K) (v : V) → get (put m k v) j ≡ (if k == j then some v else get m j)
  unfolding get put
  get-put [] k j v = refl
  get-put ((i, w) ∷ m) k j v =
      ground (arith, get-put m k j v, e.beq_iff i k, e.beq_iff i j, e.beq_iff k j)

  pub get-delete :
      (m : JsMap K V) (k j : K) → get (delete m k) j ≡ (if k == j then none else get m j)
  unfolding get delete
  get-delete [] k j = ground arith
  get-delete ((i, w) ∷ m) k j =
      ground (arith, get-delete m k j, e.beq_iff i k, e.beq_iff i j, e.beq_iff k j)

  pub Absent-delete : (m : JsMap K V) (k j : K) → Absent j m → Absent j (delete m k)
  unfolding delete
  Absent-delete [] k j h = tt
  Absent-delete ((i, w) ∷ m) k j h = ground (arith, Absent-delete m k j h.1)

  pub Absent-delete_self : (m : JsMap K V) (k : K) → Absent k (delete m k)
  unfolding delete
  Absent-delete_self [] k = tt
  Absent-delete_self ((i, w) ∷ m) k = ground (arith, Absent-delete_self m k, e.beq_iff i k)

  pub Absent-put : (m : JsMap K V) (k j : K) (v : V) → k ≢ j → Absent j m → Absent j (put m k v)
  unfolding put
  Absent-put [] k j v n h = (n, tt)
  Absent-put ((i, w) ∷ m) k j v n h = ground (arith, Absent-put m k j v n h.1)

  pub IsMap-delete : (m : JsMap K V) (k : K) → IsMap m → IsMap (delete m k)
  unfolding delete
  IsMap-delete [] k h = tt
  IsMap-delete ((i, w) ∷ m) k h = ground (arith, IsMap-delete m k h.1, Absent-delete m k i h.0)

  pub IsMap-put : (m : JsMap K V) (k : K) (v : V) → IsMap m → IsMap (put m k v)
  unfolding put
  IsMap-put [] k v h = (tt, tt)
  IsMap-put ((i, w) ∷ m) k v h = elim (Bool-cases (i == k)) [
    | inl same ↦ rw same h
    | inr other ↦
        rw other (Absent-put m k i v (λ p. ground (arith, e.beq_iff i k)) h.0, IsMap-put m k v h.1)
  ]

  pub get_of_Absent : (m : JsMap K V) (k : K) → Absent k m → get m k ≡ none
  unfolding get
  get_of_Absent [] k h = refl
  get_of_Absent ((i, w) ∷ m) k h = ground (arith, get_of_Absent m k h.1, e.beq_iff i k)

  pub delete_of_Absent : (m : JsMap K V) (k : K) → Absent k m → delete m k ≡ m
  unfolding delete
  delete_of_Absent [] k h = refl
  delete_of_Absent ((i, w) ∷ m) k h = ground (arith, delete_of_Absent m k h.1, e.beq_iff i k)

  pub length-delete : (m : JsMap K V) (k : K) → length (delete m k) ≤ length m
  unfolding delete
  length-delete [] k = omega arith
  length-delete ((i, w) ∷ m) k = ground (arith, length-delete m k)
