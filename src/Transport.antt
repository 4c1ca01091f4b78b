-- ===== src/Transport.antt =====
-- crates/intranet-transport: the three guards that bound what a node spends on others. The network
-- itself (swarm, connections, framing) is not modelled.
pub mod MediaRelay
pub mod Relay
pub mod DirectMeter
pub mod Tests
