-- ===== src/HttpApi.antt =====
-- internal/httpapi: the routes, the handlers, and what they write.
pub mod Defs
pub mod Written
pub mod Handler
pub mod Routes
pub mod Dispatch
pub mod Total
pub mod Served
