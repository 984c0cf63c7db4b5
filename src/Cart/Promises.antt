-- ===== src/Cart/Promises.antt =====
-- Where promises stand in the store of resources/js/stores/cartStore.ts.
use fleximo_oss.Base.{
  ℕ, zero, suc, ◌+◌, Bool, Option, none, some, List, [], ◌∷◌, ◌++◌, map, set, get_elem?, remove_at,
  if◌then◌else◌, ◌≡◌, refl, arith, inl, inr, ◌==◌, nat_eq, Option-cases,
}
use fleximo_oss.JsMap.{JsMap, values, get, put}
use fleximo_oss.Cart.Optimistic.{QuantityRollbackContext}
use fleximo_oss.Cart.State.{PendingQuantityUpdate, CartStore, Outcome, success}
use fleximo_oss.Cart.Flushing.{all_resolvers}
use fleximo_oss.Cart.Store.{merge_pending, queue_update}

-- how often a promise occurs
unfoldable pub count : ℕ → List ℕ → ℕ
count p [] = 0
count p (x ∷ xs) = (if x == p then 1 else 0) + count p xs

unfoldable pub in_firsts {ℓ} : {A : Type ℓ} → ℕ → List (ℕ × A) → ℕ
in_firsts p [] = 0
in_firsts p ((x, _) ∷ xs) = (if x == p then 1 else 0) + in_firsts p xs

pub count-append : (p : ℕ) (xs ys : List ℕ) → count p (xs ++ ys) ≡ count p xs + count p ys
unfolding count
count-append p [] ys = omega arith
count-append p (x ∷ xs) ys = omega (arith, count-append p xs ys)

pub in_firsts-append {ℓ} :
    {A : Type ℓ} (p : ℕ) (xs ys : List (ℕ × A))
    → in_firsts p (xs ++ ys) ≡ in_firsts p xs + in_firsts p ys
unfolding in_firsts
in_firsts-append p [] ys = omega arith
in_firsts-append p ((x, _) ∷ xs) ys = omega (arith, in_firsts-append p xs ys)

pub in_firsts-remove_at {ℓ} :
    {A : Type ℓ} (p : ℕ) (xs : List (ℕ × A)) (i q : ℕ) (a : A)
    → get_elem? xs i ≡ some (q, a)
    → in_firsts p xs ≡ (if q == p then 1 else 0) + in_firsts p (remove_at xs i)
unfolding in_firsts
in_firsts-remove_at p [] i q a h = cc
in_firsts-remove_at p ((x, b) ∷ xs) zero q a h = ground arith
in_firsts-remove_at p ((x, b) ∷ xs) (suc i) q a h = omega (arith, in_firsts-remove_at p xs i q a h)

pub in_firsts-success :
    (N : Type 0) (p : ℕ) (ids : List ℕ) (b : Bool)
    → in_firsts p (map {B = ℕ × Outcome N} (λ x. (x, success b)) ids) ≡ count p ids
unfolding in_firsts count
in_firsts-success N p [] b = refl
in_firsts-success N p (x ∷ ids) b = omega (arith, in_firsts-success N p ids b)

module _ {N : Type 0} where
  unfoldable pub in_updates : ℕ → List (PendingQuantityUpdate N) → ℕ
  in_updates p [] = 0
  in_updates p (u ∷ us) = count p u.resolvers + in_updates p us

  unfoldable pub in_loops : ℕ → List (List (PendingQuantityUpdate N)) → ℕ
  in_loops p [] = 0
  in_loops p (l ∷ ls) = in_updates p l + in_loops p ls

  -- How often a promise occurs in the queue, in the loops, among the calls that wait and among
  -- the promises resolved.
  unfoldable pub owed : ℕ → CartStore N → ℕ
  owed p s =
      in_updates p (values s.pending_quantity_updates)
      + in_loops p s.loops
      + in_firsts p s.calls
      + in_firsts p s.settled

  pub count-all_resolvers :
      (p : ℕ) (us : List (PendingQuantityUpdate N)) → count p (all_resolvers us) ≡ in_updates p us
  unfolding in_updates count
  count-all_resolvers p [] = refl
  count-all_resolvers p (u ∷ us) =
      omega (arith, count-append p u.resolvers (all_resolvers us), count-all_resolvers p us)

  pub in_updates-remove_at :
      (p : ℕ) (us : List (PendingQuantityUpdate N)) (j : ℕ) (u : PendingQuantityUpdate N)
      → get_elem? us j ≡ some u
      → in_updates p us ≡ count p u.resolvers + in_updates p (remove_at us j)
  unfolding in_updates
  in_updates-remove_at p [] j u h = cc
  in_updates-remove_at p (x ∷ us) zero u h = ground arith
  in_updates-remove_at p (x ∷ us) (suc j) u h = omega (arith, in_updates-remove_at p us j u h)

  pub in_loops-append :
      (p : ℕ) (ls : List (List (PendingQuantityUpdate N))) (l : List (PendingQuantityUpdate N))
      → in_loops p (ls ++ l ∷ []) ≡ in_loops p ls + in_updates p l
  unfolding in_loops
  in_loops-append p [] l = omega arith
  in_loops-append p (x ∷ ls) l = omega (arith, in_loops-append p ls l)

  pub in_loops-set :
      (p : ℕ) (ls : List (List (PendingQuantityUpdate N))) (i : ℕ)
      (l l' : List (PendingQuantityUpdate N))
      → get_elem? ls i ≡ some l
      → in_loops p (set ls i l') + in_updates p l ≡ in_loops p ls + in_updates p l'
  unfolding in_loops
  in_loops-set p [] i l l' h = cc
  in_loops-set p (x ∷ ls) zero l l' h = ground arith
  in_loops-set p (x ∷ ls) (suc i) l l' h = omega (arith, in_loops-set p ls i l l' h)

  pub in_loops-remove_at :
      (p : ℕ) (ls : List (List (PendingQuantityUpdate N))) (i : ℕ)
      (l : List (PendingQuantityUpdate N))
      → get_elem? ls i ≡ some l
      → in_loops p ls ≡ in_updates p l + in_loops p (remove_at ls i)
  unfolding in_loops
  in_loops-remove_at p [] i l h = cc
  in_loops-remove_at p (x ∷ ls) zero l h = ground arith
  in_loops-remove_at p (x ∷ ls) (suc i) l h = omega (arith, in_loops-remove_at p ls i l h)

  -- writing an entry of the queue exchanges its resolvers
  pub in_updates-put :
      (p k : ℕ) (m : JsMap ℕ (PendingQuantityUpdate N)) (u v : PendingQuantityUpdate N)
      → get m k ≡ some u
      → in_updates p (values (put m k v)) + count p u.resolvers
        ≡ in_updates p (values m) + count p v.resolvers
  unfolding in_updates get put
  in_updates-put p k [] u v h = cc
  in_updates-put p k ((j, w) ∷ m) u v h = ground (arith, in_updates-put p k m u v)

  pub in_updates-put_new :
      (p k : ℕ) (m : JsMap ℕ (PendingQuantityUpdate N)) (v : PendingQuantityUpdate N)
      → get m k ≡ none
      → in_updates p (values (put m k v)) ≡ in_updates p (values m) + count p v.resolvers
  unfolding in_updates get put
  in_updates-put_new p k [] v h = omega arith
  in_updates-put_new p k ((j, w) ∷ m) v h = ground (arith, in_updates-put_new p k m v)

  -- queueing a change adds its promise, and keeps those that wait for the same item
  pub in_updates-queue_update :
      (p k q op : ℕ) (ctx : Option (QuantityRollbackContext N)) (promise : ℕ)
      (m : JsMap ℕ (PendingQuantityUpdate N))
      → in_updates p (values (queue_update k q op ctx promise m))
        ≡ in_updates p (values m) + (if promise == p then 1 else 0)
  unfolding queue_update merge_pending count
  in_updates-queue_update p k q op ctx promise m = elim (Option-cases (get m k)) [
    | inl new ↦ rw (new, queue_update) (omega (arith, in_updates-put_new p k m _ new))
    | inr (u, old) ↦
        rw (old, queue_update)
          (omega (
            arith,
            in_updates-put p k m u (merge_pending u q op ctx promise) old,
            count-append p u.resolvers (promise ∷ []),
          ))
  ]
