-- ===== src/Http.antt =====
-- src/http: the tables of src/http/http_macro.h, and the requests and responses that use them.
pub mod Table
pub mod Method
pub mod Status
pub mod Fields
pub mod Request
pub mod Responce
mod Tests
