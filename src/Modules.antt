-- ===== src/Modules.antt =====
-- app/modules: the client of the host's firewall agent, and the monitor of exposed ports.
pub mod SocketClient
pub mod PortMonitor
