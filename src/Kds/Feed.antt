-- ===== src/Kds/Feed.antt =====
-- The board as a view of the server's orders, over any number of incremental answers: `mergeOrders`
-- and `upsertActiveOrder` of resources/js/Hooks/kdsOrderHelpers.ts.
use fleximo_oss.Base.{
  ℕ, Option, none, some, List, [], ◌∷◌, ◌++◌, if◌then◌else◌, ◌==◌, nat_eq, ◌≡◌, refl, sym, ap, ◌∙◌,
  Bool-cases, inl, inr,
}
use fleximo_oss.Kds.{KdsOrder, is_active_kds_order, merge_orders}
use fleximo_oss.Kds.Merge.{latest, settle, merge_orders-settle}

-- What the kitchen sees of an order of the server: it, if it is active.
abbrev pub seen : Option KdsOrder → Option KdsOrder
seen none = none
seen (some o) = if is_active_kds_order o then some o else none

-- The board has, for every id, what the kitchen sees of the server's last version of the order.
-- The history lists all versions, the oldest first.
abbrev pub Shows : List KdsOrder → List KdsOrder → Type 0
Shows board history = (k : ℕ) → latest k none board ≡ seen (latest k none history)

-- the board after the answers in turn
abbrev pub merge_all : List KdsOrder → List (List KdsOrder) → List KdsOrder
merge_all board [] = board
merge_all board (answer ∷ answers) = merge_all (merge_orders board answer).0 answers

abbrev pub history_of : List KdsOrder → List (List KdsOrder) → List KdsOrder
history_of history [] = history
history_of history (answer ∷ answers) = history_of (history ++ answer) answers

latest-append :
    (k : ℕ) (cur : Option KdsOrder) (xs ys : List KdsOrder)
    → latest k cur (xs ++ ys) ≡ latest k (latest k cur xs) ys
unfolding latest
latest-append k cur [] ys = refl
latest-append k cur (o ∷ xs) ys = latest-append k (if o.id == k then some o else cur) xs ys

settle-seen :
    (k : ℕ) (cur : Option KdsOrder) (incoming : List KdsOrder)
    → settle k (seen cur) incoming ≡ seen (latest k cur incoming)
unfolding settle latest
settle-seen k cur [] = refl
settle-seen k cur (o ∷ incoming) = elim (Bool-cases (o.id == k)) [
  | inl same ↦ rw (settle, latest, same) (settle-seen k (some o) incoming)
  | inr other ↦ rw (settle, latest, other) (settle-seen k cur incoming)
]

merge_orders-Shows :
    (board history incoming : List KdsOrder)
    → Shows board history
    → Shows (merge_orders board incoming).0 (history ++ incoming)
merge_orders-Shows board history incoming h k =
    (merge_orders-settle board incoming).0 k
    ∙ ap (λ c. settle k c incoming) (h k)
    ∙ settle-seen k (latest k none history) incoming
    ∙ sym (ap seen (latest-append k none history incoming))

-- If the board shows the active orders among the server's, in their last versions, it does so after
-- any incremental answers, in whatever way the server's changes are cut into answers: an order
-- that has become inactive is gone, and no order is shown in an old version.
pub merge_all-Shows :
    (board history : List KdsOrder) (answers : List (List KdsOrder))
    → Shows board history
    → Shows (merge_all board answers) (history_of history answers)
merge_all-Shows board history [] h = h
merge_all-Shows board history (answer ∷ answers) h =
    merge_all-Shows (merge_orders board answer).0 (history ++ answer) answers
      (merge_orders-Shows board history answer h)
