-- ===== src/Crypto/Hash/Order.antt =====
-- `Hash::operator<` is a strict order fit for std::map, and its equivalence is `operator==`.
use p2pnet.Crypto.Hash.{Hash}
