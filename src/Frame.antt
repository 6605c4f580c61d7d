-- ===== src/Frame.antt =====
-- src/rpc_frame.rs: the decoder that reassembles chunked RPC frames.
pub mod Json
pub mod Chunk
pub mod Decoder
pub mod Bounds
pub mod Reassembly
