-- ===== src/HostAgent/Requests.antt =====
-- What a client can make the agent run.
use wardnode.Json.{Json, Fields}
use wardnode.HostAgent.{◌>>◌}
