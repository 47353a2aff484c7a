-- ===== src/Proxy.antt =====
-- app/proxy: what the console writes for nginx, what it checks before writing, and the forwarding
-- of logs.
pub mod SyslogForwarder
pub mod SyslogWorker
pub mod CustomRules
pub mod SecurityHeaders
pub mod NginxExtra
pub mod Ingest
