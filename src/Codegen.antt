-- ===== src/Codegen.antt =====
-- protoc-gen-psrpc: how the generator names packages, files and identifiers.
pub mod Texts
pub mod Names
pub mod Packages
pub mod Agreement
pub mod Camel
pub mod Params
pub mod Pairs
pub mod Typemap
pub mod Qualified
pub mod Registered
mod Tests
mod TypemapTests
