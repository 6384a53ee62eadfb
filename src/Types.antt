-- ===== src/Types.antt =====
-- src/core/types.rs: the vocabulary of the managed client (`Basic`) and the traits that an
-- application implements, as records of functions over their state.
pub mod Basic
pub mod Endpoint
pub mod Strategy
pub mod Defaults
pub mod Delegated
pub mod Ingress
