-- ===== src/Lib.antt =====
-- The browser client of Fleximo, a mobile ordering service: the customer's carts, the HTTP layer
-- with its response cache, the kitchen display, the polling that feeds the display and the
-- customer's view of an order, the checkout with the card form and the saved cards, the menu list,
-- the options of an item, the customer's favourite shops, charts, the shop's business hours, the
-- submission of forms, and the notices on the screen.
--
-- Parts. The cart store changes the carts on the screen at once, queues changes of quantities, and
-- sends them when a timer fires; a request that fails is taken back. All requests go through
-- `apiRequest`, reads also through the response cache. The kitchen display polls for orders,
-- merges what has changed into its board, and changes the status of orders in advance of the
-- server. The polling timer decides when the display and the customer's page ask again. A checkout
-- takes the card from its form, places the order, asks the card form for a token where one is
-- needed, confirms the payment and leaves the page. The menu list cuts categories into rows, and
-- its tabs scroll to the rows of their categories.
--
-- Which file is about which code:
--   Cart            resources/js/types/cart.ts, and BusinessHourRange of types/tenant.ts
--   Cart.Optimistic resources/js/stores/cartStore.ts: applyOptimistic... and rollbackOptimistic...
--   Cart.State      the module's variables and the store of cartStore.ts
--   Cart.Flushing   flushQuantityUpdates, scheduleQuantityUpdatesFlush, resetModuleState, reset
--   Cart.Store      the actions, what follows each await, and the step function
--   Api             the response of resources/js/api/client.ts, and JSON values
--   Api.Cache       resources/js/api/cache.ts
--   Api.CachedGet   resources/js/api/cachedGet.ts
--   Api.Client      resources/js/api/client.ts
--   Errors          resources/js/Utils/errorHelpers.ts
--   Order           resources/js/types/order.ts and resources/js/constants/orderStatus.ts
--   Kds             resources/js/types/kds.ts, Hooks/kdsOrderHelpers.ts, Utils/kdsHelpers.ts, and
--                   the columns of Hooks/useKdsOrders.ts
--   Kds.Board       resources/js/Hooks/useKdsPolling.ts, useKdsOrderActions.ts, useKdsOrders.ts
--   Kds.AutoComplete  resources/js/Hooks/useReadyAutoComplete.ts
--   Polling         resources/js/Hooks/usePollingTimer.ts
--   Polling.OrderStatus  resources/js/Hooks/useOrderStatusPolling.ts
--   Favorites       resources/js/Hooks/useFavorites.ts
--   Toast           resources/js/Hooks/useToast.ts
--   Checkout        resources/js/types/checkout.ts and cards.ts, and the effects of a checkout
--   Checkout.Flow   resources/js/Hooks/useCheckoutPayment.ts, in the style of Checkout.Effects
--   Checkout.Fincode  resources/js/Hooks/useFincode.ts
--   Checkout.Form   resources/js/Hooks/useCheckoutForm.ts and useCheckout.ts
--   Cards           resources/js/Hooks/useCardManagement.ts
--   Menu            resources/js/Hooks/useVirtualizedMenu.ts, useVirtualizedMenuController.ts
--   Menu.Tabs       resources/js/Hooks/useMenuCategorySync.ts
--   ItemDetail      resources/js/Hooks/useItemDetailForm.ts
--   Hours           resources/js/Hooks/useBusinessHours.ts
--   Submission      resources/js/Hooks/useErrorHandler.ts and useApiFormSubmission.ts
--   Charts          resources/js/Components/Dashboard/useKeyboardChartNavigation.ts
-- Base and JsMap have what these share: tests, arrays and JavaScript's Map. The other files under
-- a part hold its theorems, and its Scenarios the examples.
--
-- Stateful code is a record and a function per operation; `step` runs one event, `run` a list of
-- them. Code runs to completion between events. An `await` ends an operation: what comes after it
-- is an operation of its own, run by the event of the answer, and answers come in any order.
-- Timers fire as events. A checkout is one run instead, with the answers given in advance: its
-- effects in their order with a result or an exception. Names are those of the source in this
-- language's spelling.
--
-- Parameters. Amounts of money are JavaScript numbers, given as the interface `Amount`; a theorem
-- that needs more of them than the operations says what. The clock, random factors, the answers of
-- the server, the path and the protocol of an address, dates read from texts, fresh keys, `fetch`
-- and the calls of the payment provider are arguments. Loops are structural recursion: that of the
-- retries on the attempts left, that over pending changes on the list, so no bound has to be
-- chosen. Only the loop that cuts a category into rows takes a bound, the number of its items,
-- which is enough for any number of columns but 0.
--
-- Not modelled: rendering, pages and components, logging, cookies, the other hooks, the payment
-- provider's library, and the backend in PHP. A callback of a hook is the list of what it was
-- called with; the options of the polling timer do not change while it runs.
pub mod Base
pub mod JsMap
pub mod Cart
pub mod Api
pub mod Errors
pub mod Order
pub mod Kds
pub mod Polling
pub mod Favorites
pub mod Toast
pub mod Checkout
pub mod Cards
pub mod Menu
pub mod Charts
pub mod Hours
pub mod Submission
pub mod ItemDetail
