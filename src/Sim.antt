-- ===== src/Sim.antt =====
-- sim/systemc/src: the SystemC model of the NIC, the process at the other end of the bridge's
-- socket. A SystemC process is a function for one activation, from one `wait` to the next.
pub mod Protocol
pub mod RegBlock
pub mod DmaEngine
pub mod Host
pub mod PktProc
pub mod Nic
pub mod PcieBridge
pub mod NetIf
pub mod Main
pub mod Samples
mod Tests
