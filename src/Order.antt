-- ===== src/Order.antt =====
-- Order statuses: resources/js/types/order.ts, constants/orderStatus.ts.
use fleximo_oss.Base.{ℕ, Bool, true, String, List, [], ◌∷◌, ◌≡◌, ◌↔◌, arith, Eq, nat_beq, includes}

pub data OrderStatus : Type 0 where
  pending_payment paid accepted in_progress ready completed cancelled payment_failed refunded :
      OrderStatus

abbrev pub status_code : OrderStatus → ℕ
status_code pending_payment = 0
status_code paid = 1
status_code accepted = 2
status_code in_progress = 3
status_code ready = 4
status_code completed = 5
status_code cancelled = 6
status_code payment_failed = 7
status_code refunded = 8

abbrev pub status_beq : OrderStatus → OrderStatus → Bool
status_beq a b = nat_beq (status_code a) (status_code b)

pub status_beq_iff : (a b : OrderStatus) → (status_beq a b ≡ true) ↔ (a ≡ b)
status_beq_iff pending_payment b = ground arith
status_beq_iff _ b = ground arith

instance abbrev pub status_eq : Eq OrderStatus
status_eq = record { beq = status_beq; beq_iff = status_beq_iff }

abbrev pub order_status_label : OrderStatus → String
order_status_label pending_payment = "決済待ち"
order_status_label paid = "決済完了"
order_status_label accepted = "受付済み"
order_status_label in_progress = "調理中"
order_status_label ready = "準備完了"
order_status_label completed = "完了"
order_status_label cancelled = "キャンセル"
order_status_label payment_failed = "決済失敗"
order_status_label refunded = "返金済み"

abbrev pub polling_inactive_order_statuses : List OrderStatus
polling_inactive_order_statuses = completed ∷ cancelled ∷ payment_failed ∷ refunded ∷ []

abbrev pub cancelled_order_statuses : List OrderStatus
cancelled_order_statuses = cancelled ∷ refunded ∷ []

abbrev pub payment_failed_order_statuses : List OrderStatus
payment_failed_order_statuses = payment_failed ∷ []

unfoldable pub is_polling_inactive_order_status : OrderStatus → Bool
is_polling_inactive_order_status status = includes polling_inactive_order_statuses status

unfoldable pub is_cancelled_order_status : OrderStatus → Bool
is_cancelled_order_status status = includes cancelled_order_statuses status

unfoldable pub is_payment_failed_order_status : OrderStatus → Bool
is_payment_failed_order_status status = includes payment_failed_order_statuses status
