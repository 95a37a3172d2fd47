-- ===== src/Xdr.antt =====
-- src/protocol/xdr/mod.rs and utils.rs: the basic types of XDR.
pub mod Word
pub mod Opaque
pub mod Array
pub mod Rpc
pub mod Nfs3
pub mod Portmap
