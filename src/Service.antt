-- ===== src/Service.antt =====
-- internal/service: the services of the daemon. The engine turns events into sessions, the receiver
-- tells the drivers which events are wanted, the operator prepares the calls of functions, and each
-- service keeps the drivers it has loaded and passes their messages on.
pub mod Rules
pub mod Index
pub mod Receiver
pub mod Operator
pub mod Drivers
pub mod Features
pub mod Loads
pub mod Boot
pub mod Messages
