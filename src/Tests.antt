-- ===== src/Tests.antt =====
-- The theorems at concrete inputs, one module for each part of the server.
mod Demo
mod Xdr
mod Wire
mod Tracker
mod Calls
mod Vfs
mod Programs
mod Nfs
mod Listing
mod Mirror
mod Memory
