-- ===== src/Oidc.antt =====
-- src/oidc: the OpenID Connect layer. A `str` is the list of its code points. Each call of
-- `get_timestamp` and of `generate_random_string` is an argument: what the clock showed, and what
-- was drawn.
pub mod RefreshStore
pub mod AuthCode
pub mod Jwt
pub mod SessionBinding
pub mod Token
pub mod Resource
pub mod Jwks
