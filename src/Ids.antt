-- ===== src/Ids.antt =====
-- The identities and sequence numbers of shared/include/chathub/contracts/ids.hpp. The types
-- `UuidId` and `DecimalSeq` have a tag, which only tells their instances apart.
pub mod Ascii
pub mod AccountName
pub mod UuidId
pub mod DecimalSeq
