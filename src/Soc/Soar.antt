-- ===== src/Soc/Soar.antt =====
-- app/soc/soar.py: the automatic block of the sources of incidents. The engine reads the settings,
-- asks `is_ban_safe`, the incidents and the audit log, calls CrowdSec or the firewall agent, and
-- marks the incident. Times are microseconds. What CrowdSec answers to a ban and whether a commit
-- succeeds are parameters.
pub mod Duration
pub mod Safe
pub mod Spacing
pub mod Marks
pub mod Tests
use Duration.{hour, Expiry, until, unknown, overflow, is_duration, parse_duration_to_dt}
use wardnode.Base.{
  ℕ, suc, ◌+◌, ◌-◌, ◌*◌, String, Bool, true, false, not, ◌&&◌, ◌||◌, Option, none, some, List, [],
  ◌∷◌, ltb, leb, ◌=?◌, ◌==◌, if◌then◌else◌, any, keep, or_else,
}
use wardnode.Config.{Table, setting, is_on}
use wardnode.Ip.{IpLibrary, is_special}
use wardnode.Ddos.Safety.{HostNetwork, Verdict, safe, refused, member, norm_set, is_ban_safe}
use wardnode.Modules.SocketClient.{Agent, deny_ip, ufw_is_operational, valid_ip}
use wardnode.Soc.Detect.{sev_order}

-- The columns of `SocIncident` that the engine reads or writes.
pub record Incident : Type 0 where
  pub id : ℕ
  pub source_ip : String
  pub severity : String
  pub blocked : Bool
  pub blocked_at : Option ℕ
  pub blocked_method : Option String
  pub blocked_until : Option ℕ

-- The columns of `AuditLog` that the engine reads or writes.
pub record AuditRow : Type 0 where
  pub action : String
  pub status : String
  pub ip_address : Option String
  pub created_at : ℕ

-- A call that left the console, with its outcome.
pub data Call : Type 0 where
  crowdsec_ban : String → String → ℕ → Bool → Call
  ufw_deny : String → Bool → Call

pub record World : Type 0 where
  pub incidents : List Incident
  pub audit : List AuditRow
  pub calls : List Call

-- `SOAR_BLOCK_LOOKBACK`, and the 24 hours of `_recent_admin_login_ips`.
abbrev pub block_lookback : ℕ
block_lookback = 6 * hour

abbrev pub login_lookback : ℕ
login_lookback = 24 * hour

-- What the outside answers: the sockets of the host, the firewall agent, `ban_ip` by its
-- arguments, and whether the commit that marks an incident succeeds.
pub record Outside : Type 0 where
  pub network : HostNetwork
  pub agent : Agent
  pub ban_ip : String → String → ℕ → Bool
  pub commits : ℕ → Bool

-- The settings of one run.
pub record Run : Type 0 where
  pub method : String
  pub min_severity : String
  pub duration : String
  pub now : ℕ
  pub recent_admin_ips : List String

-- The attributes that a block writes.
abbrev pub blocked_by : Run → Option ℕ → Incident → Incident
blocked_by run blocked_until i = record i {
  blocked = true;
  blocked_at = some run.now;
  blocked_method = some run.method;
  blocked_until = blocked_until;
}

-- The row with this key, rewritten.
unfoldable pub update : ℕ → (Incident → Incident) → List Incident → List Incident
update id f [] = []
update id f (i ∷ rest) = (if i.id =? id then f i else i) ∷ update id f rest

-- The filter of the query for an earlier block of the same address.
unfoldable pub blocks_again : Incident → ℕ → Incident → Bool
blocks_again incident now other =
    other.source_ip == incident.source_ip
    && not (other.id =? incident.id)
    && other.blocked
    && elim other.blocked_at [ none ↦ false | some t ↦ leb (now - block_lookback) t ]

abbrev until_of : Expiry → Option ℕ
until_of (until t) = some t
until_of _ = none

abbrev logged : Call → World → World
logged call w = record w { calls = call ∷ w.calls }

-- The end of a block that succeeded: the attributes, the commit and the audit entry. A commit
-- that fails is rolled back by the caller, so only the call remains.
unfoldable pub persist : Outside → Run → Incident → Option ℕ → World → World
unfolding update
persist out run incident blocked_until w =
    if out.commits incident.id
    then record w {
      incidents = update incident.id (blocked_by run blocked_until) w.incidents;
      audit =
          record {
            action = "soc.incident.blocked";
            status = "success";
            ip_address = none;
            created_at = run.now;
          }
          ∷ w.audit;
    }
    else w

abbrev after_ban : Outside → Run → Incident → Expiry → World → World
after_ban out run incident overflow w = w
after_ban out run incident expiry w = persist out run incident (until_of expiry) w

-- The block itself, by method; any other method goes straight on to the marking.
unfoldable pub execute_block : Outside → Run → Incident → World → World
execute_block out run incident w =
    let ip = incident.source_ip in
    let banned = out.ban_ip ip run.duration incident.id in
    let denied = (out.agent (deny_ip ip)).ok in
    if run.method == "crowdsec"
    then (if banned
        then after_ban out run incident (parse_duration_to_dt run.now run.duration)
            (logged (crowdsec_ban ip run.duration incident.id true) w)
        else logged (crowdsec_ban ip run.duration incident.id false) w)
    else if run.method == "ufw"
    then (if not (valid_ip ip)
        then w
        else if denied
        then persist out run incident none (logged (ufw_deny ip true) w)
        else logged (ufw_deny ip false) w)
    else persist out run incident none w

unfoldable pub is_recent_login : ℕ → AuditRow → Bool
is_recent_login now row =
    row.action == "auth.login"
    && row.status == "success"
    && leb (now - login_lookback) row.created_at

unfoldable pub login_texts : List AuditRow → List String
login_texts [] = []
login_texts (row ∷ rest) = elim row.ip_address [
  | none ↦ login_texts rest
  | some ip ↦ ip ∷ login_texts rest
]

-- The gate on the method's module.
unfoldable pub is_method_available : Table → Agent → String → Bool
is_method_available config agent method =
    if method == "crowdsec"
    then is_on config "module_ddos_enabled"
    else if method == "ufw"
    then is_on config "module_wf_enabled" && ufw_is_operational agent
    else false

abbrev duration_setting : Table → String
duration_setting config =
    let d = or_else (setting config "soc_soar_duration") "24h" in if is_duration d then d else "24h"

module _ (lib : IpLibrary) where
  open lib use {Address, ip_address, to_text}

  abbrev public : Option Address → Bool
  public none = false
  public (some a) = not (is_special lib a)

  -- `is_public_ip` of app/soc/enrich.py; the text is not stripped here.
  unfoldable pub is_public_ip : String → Bool
  is_public_ip ip = public (ip_address ip)

  abbrev canonical_or : String → Option Address → String
  canonical_or ip none = ip
  canonical_or ip (some a) = to_text a

  abbrev passed : Verdict → Bool
  passed safe = true
  passed (refused _) = false

  -- The guards of `_evaluate_and_block`, in order.
  unfoldable pub is_eligible : Table → Outside → Run → World → Incident → Bool
  is_eligible config out run w incident =
      let ip = incident.source_ip in
      if ltb (sev_order incident.severity 0) (sev_order run.min_severity 2)
      then false
      else if not (is_public_ip ip)
      then false
      else if not (passed (is_ban_safe lib config out.network ip ""))
      then false
      else if member (canonical_or ip (ip_address ip)) run.recent_admin_ips
      then false
      else not (any (blocks_again incident run.now) w.incidents)

  -- `_evaluate_and_block`, with the handler of its caller: an exception leaves the calls made.
  unfoldable pub evaluate_and_block : Table → Outside → Run → Incident → World → World
  evaluate_and_block config out run incident w =
      if is_eligible config out run w incident then execute_block out run incident w else w

  unfoldable pub block_each : Table → Outside → Run → List Incident → World → World
  block_each config out run [] w = w
  block_each config out run (i ∷ rest) w =
      block_each config out run rest (evaluate_and_block config out run i w)

  -- `_recent_admin_login_ips`
  unfoldable pub recent_admin_login_ips : ℕ → List AuditRow → List String
  recent_admin_login_ips now audit = norm_set lib (login_texts (keep (is_recent_login now) audit))

  unfoldable pub run_settings : Table → ℕ → World → Run
  run_settings config now w = record {
    method = or_else (setting config "soc_soar_method") "crowdsec";
    min_severity = or_else (setting config "soc_soar_min_severity") "high";
    duration = duration_setting config;
    now = now;
    recent_admin_ips = recent_admin_login_ips now w.audit;
  }

  -- `maybe_block_incidents`
  unfoldable pub maybe_block_incidents : Table → Outside → ℕ → List Incident → World → World
  maybe_block_incidents config out now created w =
      let run = run_settings config now w in
      if not (is_on config "soc_soar_enabled")
      then w
      else if not (is_method_available config out.agent run.method)
      then w
      else block_each config out run created w
