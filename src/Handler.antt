-- ===== src/Handler.antt =====
-- cpp/vae_db_handler.h and cpp/vae_db_handler.cpp: the calls of the service `VaeDb`. A call is one
-- step here: calls that run at once on other threads are not interleaved.
pub mod State
pub mod Sites
pub mod Threads
pub mod Sessions
pub mod Caches
pub mod Examples
