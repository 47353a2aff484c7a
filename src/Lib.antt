-- ===== src/Lib.antt =====
-- WardNode: a console for a web application firewall, with intrusion detection, automatic
-- blocking and backups (Python, Flask). The parts that decide something are modelled here, and
-- what they decide is proved.
--
-- How the parts interact. The detection cycle (app/soc/services.py) scores the source addresses
-- of recent attacks (app/soc/detect.py), raises or creates incidents, and hands the created ones
-- to the block engine (app/soc/soar.py). The engine bans an address only if the guards of
-- app/ddos/safety.py find that safe, through CrowdSec or through the firewall agent
-- (app/modules/socket_client.py). That agent (host-agent/wardnode-wf-agent.py) checks each
-- request again and runs ufw and iptables; the monitor of open ports
-- (app/modules/port_monitor.py) asks it for the ports of the containers. A language model's
-- answer on an incident is normalised (app/soc/schema.py) with the techniques that were
-- downloaded (app/soc/mitre_cti.py). What an operator adds to a site, headers
-- (app/proxy/security_headers.py) and directives (app/proxy/nginx_extra.py), is checked and
-- written for nginx. The console forwards its logs to a collector
-- (app/proxy/syslog_forwarder.py, app/proxy/syslog_worker.py), checks the WAF rules that an
-- operator writes (app/proxy/custom_rules.py) and the backups that are uploaded
-- (app/backup/service.py). It stores the bans that CrowdSec reports (app/ddos/ingest.py) and
-- resets passwords by a mailed token (app/auth). All settings are rows of one table
-- (app/models.py, AppConfig).
--
-- Which file models which part:
--   Base, Text          shared helpers: lists, Boolean tests, Python's text operations
--   Json                what json.loads returns, and Python's operations on it
--   Ip, Float           the interfaces of Python's `ipaddress` and `float`, each with an
--                       implementation on which the theorems are evaluated (Ip/Samples, Float/Samples)
--   Config              app/models.py: AppConfig.get, get_secret, set
--   Ddos/Safety         app/ddos/safety.py: is_ban_safe and its helpers, one function for each
--   Ddos/Ingest         app/ddos/ingest.py: _parse_alert, _poll_once
--   Auth/PasswordPolicy  app/auth/password_policy.py: the requirements, is_valid_password
--   Auth/ResetTokens    app/auth/services.py: the tokens that reset a password, and is_usable of
--                       app/models.py
--   Soc/Detect          app/soc/detect.py: score_candidate, resolve_severity_thresholds,
--                       severity_for_score; a Candidate is a result of find_candidates
--   Soc/Cycle           app/soc/services.py: the loop of run_detection_cycle; take_in is one turn;
--                       Settings: what it reads first
--   Soc/Soar            app/soc/soar.py: maybe_block_incidents, _evaluate_and_block (is_eligible,
--                       execute_block and persist are its parts); Soc/Soar/Duration its durations
--   Soc/Alerts          app/soc/alerts.py: notify_incidents, _in_cooldown
--   Modules/SocketClient  app/modules/socket_client.py: valid_ip, get_ufw_state, ufw_is_operational;
--                       Fields: valid_port, valid_proto, valid_rule_num; Frames: send_command and
--                       the reading of serve in host-agent/wardnode-wf-agent.py
--   Modules/PortMonitor  app/modules/port_monitor.py: a Tick is what one turn of the loop meets
--   HostAgent           host-agent/wardnode-wf-agent.py: commands run on a Host; Ports: the rules that
--                       close a port; Docker: _list_docker_ports; Handle: handle and its actions;
--                       Chain: the interface of iptables
--   Soc/Schema          app/soc/schema.py; Salvage: the text around the JSON
--   Soc/MitreCti        app/soc/mitre_cti.py
--   Proxy/SecurityHeaders  app/proxy/security_headers.py; Render: _render_security_headers and
--                       _escape_nginx_header_value of app/proxy/services.py
--   Proxy/NginxExtra    app/proxy/nginx_extra.py
--   Proxy/Ingest        app/proxy/ingest.py: _parse_line, _categorize
--   Proxy/SyslogForwarder  app/proxy/syslog_forwarder.py: build_rfc5424, the severities, the target
--   Proxy/SyslogWorker  app/proxy/syslog_worker.py: _run_tick; forward is its body for one table
--   Proxy/CustomRules   app/proxy/custom_rules.py: validate_custom_rule (Rule), _statements,
--                       validate_rule_exclusion (Exclusions); Shown: what its regular expressions
--                       look for
--   Backup              app/backup/service.py: _entry_allowed, validate_backup_zip
--   Backup/Schedule     app/backup/worker.py: is_backup_due, the run under the lock
--
-- State is a record that each step takes and returns: the incidents, the audit log and the calls
-- made (Soc/Soar, Soc/Cycle), the tables with their cursors and what was sent (SyslogWorker).
-- Exceptions are values. What is outside the repository is a parameter: Python's `ipaddress` and
-- `float` with their documented laws, the answers of the network, of the firewall agent and of
-- name resolution, of ufw and iptables (HostAgent.Chain has the laws of a chain, with an
-- implementation in HostAgent/Tests), of `nginx -t`, the archive that pyzipper opens, JSON,
-- SHA-256, `strptime` and the hashes of werkzeug. What the reputation service and the trained
-- model answer are functions as well. Every function recurses on its input, so no fuel is
-- needed, but for the decimals of a number (Proxy/SyslogForwarder), whose fuel is above the
-- number, and the client's loop of reads (Modules/SocketClient/Frames), whose fuel is the number
-- of bytes that it wants: every read gives one at least or ends the loop.
--
-- Bounds of the model. Letters outside ASCII have no case and digits outside ASCII are no
-- digits, but where the decimal digits are a parameter (Auth/PasswordPolicy, Soc/Schema,
-- Soc/MitreCti); Python's limit of 4300 digits for `int` is left out. Times are natural numbers of
-- microseconds. Rows are read from the tables without errors of the database; logging, the
-- notice of a block and the texts of messages and mails are left out. The redaction and the
-- format of the forwarded messages, the threads, the advisory locks but for those of the backup
-- and the port monitor, the calls of the language models, the other files that are written for
-- nginx, Docker and the views are not modelled: they are input and output around the parts
-- above.
pub mod Base
pub mod Text
pub mod Ip
pub mod Float
pub mod Json
pub mod Config
pub mod Ddos
pub mod HostAgent
pub mod Modules
pub mod Soc
pub mod Proxy
pub mod Backup
pub mod Auth
