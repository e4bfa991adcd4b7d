-- ===== src/Headers.antt =====
-- web/restinio/restinio/http_headers.hpp.
pub mod FieldId
pub mod Caseless
pub mod FieldName
pub mod Fields
pub mod Message
pub mod Text
