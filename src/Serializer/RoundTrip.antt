-- ===== src/Serializer/RoundTrip.antt =====
-- What is written is read back: a value that writeAny accepts comes out of readAny as Ruby rebuilds
-- it from the same field map.
pub mod Revive
pub mod Gives
pub mod Convert
pub mod Containers
pub mod Structs
pub mod Scalars
pub mod Bodies
pub mod Main
pub mod SetFields
pub mod Results
pub mod UnionSteps
pub mod Union
