-- ===== src/Kds/Columns.antt =====
-- The columns of the board: the `switch` of resources/js/Hooks/useKdsOrders.ts.
use fleximo_oss.Base.{List, [], ◌∷◌, ◌++◌, filter_by, if◌then◌else◌, ◌==◌, ◌≡◌, refl, ap, ◌∙◌}
use fleximo_oss.Order.{
  OrderStatus, pending_payment, paid, accepted, in_progress, ready, completed, cancelled,
  payment_failed, refunded, status_eq,
}
use fleximo_oss.Kds.{KdsOrder, Buckets, add_to_bucket, sort_orders, no_buckets}

abbrev pub column : OrderStatus → List KdsOrder → List KdsOrder
column status orders = filter_by (λ o. o.status == status) orders

-- The buckets `b` after the orders, each at the end of its own.
abbrev Sorted : Buckets → List KdsOrder → Type 0
Sorted b orders =
    ((sort_orders b orders).paid_orders ≡ b.paid_orders ++ column paid orders)
    × ((sort_orders b orders).accepted_orders ≡ b.accepted_orders ++ column accepted orders)
    × ((sort_orders b orders).in_progress_orders
        ≡ b.in_progress_orders ++ column in_progress orders)
    × ((sort_orders b orders).ready_orders ≡ b.ready_orders ++ column ready orders)

append_nil : (xs : List KdsOrder) → xs ≡ xs ++ []
append_nil [] = refl
append_nil (x ∷ xs) = ap (λ l. x ∷ l) (append_nil xs)

push_append : (xs ys : List KdsOrder) (o : KdsOrder) → (xs ++ o ∷ []) ++ ys ≡ xs ++ o ∷ ys
push_append [] ys o = refl
push_append (x ∷ xs) ys o = ap (λ l. x ∷ l) (push_append xs ys o)

-- the orders of a column, with one more in front if its status is the column's
abbrev joined : OrderStatus → OrderStatus → KdsOrder → List KdsOrder → List KdsOrder
joined own status o orders =
    if own == status then o ∷ column status orders else column status orders

added :
    (own : OrderStatus) (o : KdsOrder) (b : Buckets) (orders : List KdsOrder)
    → Sorted (add_to_bucket own o b) orders
    → ((sort_orders (add_to_bucket own o b) orders).paid_orders
        ≡ b.paid_orders ++ joined own paid o orders)
      × ((sort_orders (add_to_bucket own o b) orders).accepted_orders
          ≡ b.accepted_orders ++ joined own accepted o orders)
      × ((sort_orders (add_to_bucket own o b) orders).in_progress_orders
          ≡ b.in_progress_orders ++ joined own in_progress o orders)
      × ((sort_orders (add_to_bucket own o b) orders).ready_orders
          ≡ b.ready_orders ++ joined own ready o orders)
unfolding add_to_bucket
added paid o b orders (p, a, i, r) = (p ∙ push_append b.paid_orders (column paid orders) o, a, i, r)
added accepted o b orders (p, a, i, r) =
    (p, a ∙ push_append b.accepted_orders (column accepted orders) o, i, r)
added in_progress o b orders (p, a, i, r) =
    (p, a, i ∙ push_append b.in_progress_orders (column in_progress orders) o, r)
added ready o b orders (p, a, i, r) =
    (p, a, i, r ∙ push_append b.ready_orders (column ready orders) o)
added pending_payment o b orders h = h
added completed o b orders h = h
added cancelled o b orders h = h
added payment_failed o b orders h = h
added refunded o b orders h = h

sort_orders-Sorted : (orders : List KdsOrder) (b : Buckets) → Sorted b orders
unfolding sort_orders
sort_orders-Sorted [] b = (append_nil _, append_nil _, append_nil _, append_nil _)
sort_orders-Sorted (o ∷ orders) b =
    added o.status o b orders (sort_orders-Sorted orders (add_to_bucket o.status o b))

-- Each column of the board holds the orders of its status, in their order.
pub sort_orders-columns :
    (orders : List KdsOrder)
    → (sort_orders no_buckets orders).paid_orders ≡ column paid orders
      × (sort_orders no_buckets orders).accepted_orders ≡ column accepted orders
      × (sort_orders no_buckets orders).in_progress_orders ≡ column in_progress orders
      × (sort_orders no_buckets orders).ready_orders ≡ column ready orders
sort_orders-columns orders = sort_orders-Sorted orders no_buckets
