-- ===== src/Pairing.antt =====
-- aiosendspin/noise/pairing_code.py and aiosendspin/noise/pairing_token.py: pairing codes, the
-- commitment to a nonce, and the tokens.
pub mod Base64
pub mod Code
pub mod Presentation
pub mod Derivation
pub mod Token
pub mod Tokens
pub mod Spelling
mod Examples
