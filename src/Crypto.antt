-- ===== src/Crypto.antt =====
-- src/common/crypto: the code that p2pnet itself has around Botan's primitives.
pub mod Hash
pub mod Base58
pub mod MathString
pub mod Keys
pub mod Ciphers
