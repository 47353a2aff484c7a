-- ===== src/Ddos.antt =====
-- app/ddos: the guards on a ban and the calls that apply it.
pub mod Safety
pub mod Ingest
