-- ===== src/Rpc.antt =====
-- communication/rpc: services, whose requests are forwarded to servers and whose replies find their
-- way back to the client.
pub mod Registry
pub mod RpcBridge
pub mod Transmit
pub mod Exchange
pub mod Bounded
pub mod Servers
