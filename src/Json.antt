-- ===== src/Json.antt =====
-- src/json.c: the JSON parser behind `Json.parse`.
pub mod Utf8
pub mod Text
pub mod Parser
