-- ===== src/Http.antt =====
-- net/http: the request parser and the response.
pub mod Headers
pub mod Request
pub mod Response
pub mod Context
pub mod Server
