-- ===== src/Driver.antt =====
-- pkg/driver: the kubelet's calls. The device state and the API server are interfaces over a state `S`.
pub mod Status
pub mod Claims
pub mod Publish
