-- ===== src/Crypto.antt =====
-- authlab/crypto: the codecs of the package.
pub mod Bytes
pub mod Cbor
