-- ===== src/Examples.antt =====
-- Concrete inputs: a backend in memory, claims and bridges, and runs of the code on them.
pub mod Memory
pub mod FullDisk
mod Configs
mod Claims
mod Prepared
mod Bridges
mod Plugins
mod Nodes
mod Watchers
mod Connections
mod Starts
mod Kubelet
mod Interfaces
mod Sockets
