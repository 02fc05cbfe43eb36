-- ===== src/Net/Http.antt =====
-- The HTTP server of LALI/net: HttpRequst.h, HttpContext, HttpRespond and HttpServer.
pub mod Request
pub mod Context
pub mod Respond
pub mod Server
pub mod Progress
pub mod Fields
pub mod RequestLine
pub mod RoundTrip
pub mod Answer
mod Tests
