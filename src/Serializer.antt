-- ===== src/Serializer.antt =====
-- ext/serializer.cpp and ext/serializer.h: Ruby values written to and read from a Thrift protocol.
pub mod Ruby
pub mod Outcome
pub mod Fields
pub mod Protocol
pub mod Write
pub mod Read
pub mod FieldMap
pub mod FieldLookup
pub mod RoundTrip
pub mod Terminates
pub mod Accepts
