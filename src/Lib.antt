-- ===== src/Lib.antt =====
-- The trading core of the AI trading bot: the configuration, the event bus, the circuit breaker, the
-- idempotency table and the retry policy (core/), the order manager, the order router, the executor,
-- the limiter of rates and the risk manager (execution/), the signal validator and the ensemble scorer
-- (engine/), the candles and validators of ticks (data_ingestion/), the checks of health
-- (monitoring/), and the web handlers with the manager of websockets (interface/), as definitions with
-- their theorems.
--
-- How the parts interact. A strategy publishes trading signals. The executor of an exchange
-- (execution/cex_executor.py, `_handle_signal`) asks the risk manager (`approve_signal`) and opens a
-- position for an approved signal. Prices come in by `update_prices`, which moves the stops and
-- publishes the closing of a position; the kill switch closes them all. The order manager places,
-- confirms, fills and cancels orders; it asks a circuit breaker before it places one, and an
-- idempotency table makes the placing of a client order id happen once. For automatic routing it
-- asks the smart order router, which scores the venues by their order books. The signal validator
-- grades the signals of the models and follows them in paper trades. The parts send each other events
-- over the event bus. The web handlers (interface/routes) call the order manager and the risk manager
-- of this library, and change the configuration; the manager of websockets sends to the clients what
-- they subscribed to; the health checker asks the other parts for their state.
--
-- Files and code:
--   CircuitBreaker  core/circuit_breaker.py, class CircuitBreaker
--   Idempotency     core/idempotency.py, class IdempotencyManager
--   Retry           core/retry.py, class RetryPolicy
--   Order           execution/order_manager.py, the data classes
--   OrderManager    execution/order_manager.py, class OrderManager; the methods are in
--                   OrderManager.Methods
--   RiskBreaker     execution/risk_manager.py, class CircuitBreaker
--   Position        execution/risk_manager.py, class Position and manage_position;
--                   engine/signal_generator.py, class TradingSignal
--   RiskManager     execution/risk_manager.py, class RiskManager, with its methods in
--                   RiskManager.Methods and RiskManager.Reports; RiskManager.Trading has the
--                   handlers of execution/cex_executor.py, where nothing comes
--                   between the approval of a signal and the opening
--   CexExecutor     execution/cex_executor.py, the live path `_live_execute`
--   SmartOrderRouter  execution/smart_order_router.py; the methods are in SmartOrderRouter.Methods
--   SignalValidator engine/signal_validator.py; the paper trades, the decay test and the statistics
--                   are in SignalValidator.Trades
--   Ticks           data_ingestion/tick_processor.py and data_ingestion/validators.py
--   EnsembleScorer  engine/ensemble_scorer.py: predicting in EnsembleScorer.Scoring, learning in
--                   EnsembleScorer.Learning, statistics in EnsembleScorer.Reports
--   Config          core/config.py: the interpolation, reading and writing of values
--   EventBus        core/event_bus.py
--   RateLimiter     execution/rate_limiter.py
--   HealthChecker   monitoring/health_checks.py; the built-in checks in HealthChecker.Builtin
--   WebsocketManager  interface/websocket_manager.py
--   OrderRoutes, RiskRoutes, PositionRoutes, ConfigRoutes  the handlers of interface/routes, the rest of
--                   them in OrderRoutes.Changes, RiskRoutes.Reading, ConfigRoutes.Settings; Http has
--                   what they share: a response, and the try block that makes an error a 500
--   Prelude         dictionaries, sets, lists, numbers and texts, as the code uses them
-- The child modules of a part hold its theorems, and its Tests the runs at concrete inputs.
--
-- State and operations. The state of an object is a record with the fields of the class, and a
-- method is a function from the old state to the new one and the result, under the name of the
-- method without the leading underscore. A dictionary is an association list in the order of
-- insertion. Where the program shares `Order` objects between dictionaries, one of them is the store
-- and the others hold ids. A method that holds the lock of its object, or does not await, is one
-- step; where the code gives up control in between, the parts are separate steps.
--
-- Numbers and time. The floats of the code are a type with the arithmetic of the interface
-- Prelude.Number; theorems ask for no more than the laws of the order, and for what they name. The
-- examples run on numbers with eight decimals. A clock reading is a natural number of milliseconds,
-- one for each call of a method, and `now - t >= d` is written `t + d <= now`. Counters are natural
-- numbers, as the integers of Python have no bound. Two definitions run on fuel: the loop of
-- Config.substitute, which is given the length of the text, each pass taking at least a character; and
-- EventBus.dispatch, whose loop a subscribing handler can lengthen, and for which a fuel above the number
-- of the subscribers is enough where they leave the list alone. All other loops run over lists.
--
-- Outside the model: log messages; the texts of ids, and of reasons beyond their kinds; the list of
-- routes inside the metadata of a routed order; the clients of exchanges, the data feeds, the making of
-- features and model training, storage, the dashboard with its login, the chat bot, metrics and tracing;
-- the start of the processes; the programs in Rust and TypeScript.
-- Arguments are: numpy's percentile, mean and deviation; the answers of exchanges, with the order
-- books of the venues; the router's answer to the order manager; the answers of the models and of
-- calibr8; which sockets take what is sent; how the checks of the components end; what the handlers of
-- events do; the clock; and fresh ids.
pub mod Prelude
pub mod CircuitBreaker
pub mod Idempotency
pub mod Order
pub mod OrderManager
pub mod RiskBreaker
pub mod Position
pub mod RiskManager
pub mod SignalValidator
pub mod SmartOrderRouter
pub mod Ticks
pub mod WebsocketManager
pub mod HealthChecker
pub mod RateLimiter
pub mod EnsembleScorer
pub mod EventBus
pub mod Config
pub mod Http
pub mod OrderRoutes
pub mod RiskRoutes
pub mod PositionRoutes
pub mod ConfigRoutes
pub mod CexExecutor
pub mod Retry
