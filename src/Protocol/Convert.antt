-- ===== src/Protocol/Convert.antt =====
-- The conversions between the typed values and the wire's, at the end of
-- crates/netplan/src/protocol/mod.rs.
mod Values
mod Reports
unfoldable pub use Values.*
unfoldable pub use Reports.*
