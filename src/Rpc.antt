-- ===== src/Rpc.antt =====
-- The client of the data transfer service, src/grpc_client.h and src/grpc_client.cpp.
pub mod Recv
pub mod Client
pub mod Flush
pub mod Pipe
pub mod Metadata
pub mod Finish
pub mod Pull
mod Tests
