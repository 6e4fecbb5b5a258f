-- ===== src/Startup.antt =====
-- What main in src/asyd/asyd.c does first: the options and the daemon's key pair.
pub mod Options
pub mod Keys
pub mod Stored
pub mod Persistence
pub mod Main
pub mod Serving
pub mod Lifetime
