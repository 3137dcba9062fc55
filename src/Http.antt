-- ===== src/Http.antt =====
-- The HTTP that raled/src/raled_rest_api.c serves and ralectrl/src/ralectrl_http_client.c speaks.
pub mod Search
pub mod Server
pub mod Rest
pub mod Client
pub mod Responses
pub mod Lines
pub mod Requests
pub mod Replies
pub mod Reading
pub mod Health
pub mod Address
pub mod Exchange
pub mod Locked
