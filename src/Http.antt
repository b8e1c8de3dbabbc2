-- ===== src/Http.antt =====
-- http: the nonces and the authorization of requests.
pub mod Mem
pub mod Auth
mod Examples
