-- ===== src/Cart.antt =====
-- The data of the customer's carts (resources/js/types/cart.ts, and the business hours of
-- resources/js/types/tenant.ts), and the arithmetic on amounts of money.
--
-- A JavaScript amount is a double, and an item's unit price is a quotient of two of them. The
-- type of amounts is therefore a parameter, with the operations that the store uses. Quantities,
-- counts and ids are whole numbers and natural numbers here.
pub mod Optimistic
pub mod Entries
pub mod Rollback
pub mod Totals
pub mod State
pub mod Flushing
pub mod Store
pub mod Flush
pub mod Promises
pub mod Settling
pub mod Stale
mod Scenarios
use fleximo_oss.Base.{ℕ, ◌*◌, ◌/◌, ◌+◌, ◌<◌, ◌≡◌, Bool, Option, List, String, arith}

-- The operations on `number` that the store applies to amounts.
pub record Amount (N : Type 0) : Type 0 where
  pub of_nat : ℕ → N
  pub add : N → N → N
  pub mul : N → N → N
  pub div : N → N → N

pub record CartOption (N : Type 0) : Type 0 where
  pub id : ℕ
  pub name : String
  pub price : N

pub record CartMenuItemInfo (N : Type 0) : Type 0 where
  pub id : ℕ
  pub name : String
  pub description : Option String
  pub price : N
  pub is_sold_out : Bool

pub record CartItem (N : Type 0) : Type 0 where
  pub id : ℕ
  pub menu_item : CartMenuItemInfo N
  pub quantity : ℕ
  pub options : List (CartOption N)
  pub subtotal : N

pub record BusinessHourRange : Type 0 where
  pub open_time : String
  pub close_time : String

pub record CartTenant : Type 0 where
  pub id : ℕ
  pub name : String
  pub slug : String
  pub is_open : Bool
  pub is_order_paused : Option Bool
  pub today_business_hours : List BusinessHourRange

pub record Cart (N : Type 0) : Type 0 where
  pub id : ℕ
  pub user_id : ℕ
  pub tenant_id : ℕ
  pub tenant : Option CartTenant
  pub items : List (CartItem N)
  pub total : N
  pub item_count : ℕ
  pub is_empty : Bool

-- Whole yen, for the examples: quotients of multiples are exact.
instance abbrev pub yen : Amount ℕ
yen = record { of_nat = λ n. n; add = ◌+◌; mul = ◌*◌; div = ◌/◌ }
