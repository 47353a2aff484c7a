-- ===== src/Soc/Soar/Tests.antt =====
-- The engine run on samples, and the theorems at those inputs.
use wardnode.Base.{
  any, keep, ℕ, ◌≤◌, ap, ◌≡◌, refl, inl, inr, String, true, false, none, some, List, [], ◌∷◌, All,
}
use wardnode.Text.{strip, split, int}
use wardnode.Config.{Row, Table, setting, is_on}
use wardnode.Ip.{is_special}
use wardnode.Ip.Samples.{samples, parse, spell}
use wardnode.Ddos.Safety.{is_ban_safe}
use wardnode.Soc.Detect.{sev_order}
use wardnode.Soc.Soar.Duration.{is_duration, parse_duration_to_dt}
use wardnode.Soc.Soar.{
  Incident, AuditRow, crowdsec_ban, World, Outside, is_recent_login, login_texts, persist,
  execute_block, is_eligible, is_public_ip, blocks_again, evaluate_and_block, block_each,
  is_method_available, recent_admin_login_ips, run_settings, maybe_block_incidents,
}
use wardnode.Soc.Soar.Safe.{IsTarget, maybe_block_incidents-IsTarget, AmongIncidents}
use wardnode.Soc.Soar.Spacing.{IsSpaced, maybe_block_incidents-IsSpaced}
use wardnode.Soc.Soar.Marks.{Keeps, maybe_block_incidents-Keeps}

abbrev entry : String → String → Row
entry key value = record { key = key; value = some value; encrypted = false }

abbrev config : Table
config = entry "soc_soar_enabled" "1" ∷ entry "module_ddos_enabled" "1" ∷ []

abbrev outside : Outside
outside = record {
  network = record { outbound = []; resolved = none };
  agent = λ r. record { ok = false; output = "" };
  ban_ip = λ ip duration id. true;
  commits = λ id. true;
}

abbrev incident : ℕ → String → String → Incident
incident id ip severity = record {
  id = id;
  source_ip = ip;
  severity = severity;
  blocked = false;
  blocked_at = none;
  blocked_method = none;
  blocked_until = none;
}

abbrev first : Incident
first = incident 1 "8.8.8.8" "high"

abbrev again : Incident
again = incident 2 "8.8.8.8" "critical"

abbrev admin_source : Incident
admin_source = incident 3 "9.9.9.9" "critical"

abbrev login : AuditRow
login = record {
  action = "auth.login";
  status = "success";
  ip_address = some "9.9.9.9";
  created_at = 400_000_000_000;
}

abbrev batch : List Incident
batch = first ∷ again ∷ admin_source ∷ []

abbrev start : World
start = record { incidents = batch; audit = login ∷ []; calls = [] }

-- One call: the second incident has the same source, the third is an administrator's address.
one_call :
    (maybe_block_incidents samples config outside 450_000_000_000 batch start).calls
    ≡ crowdsec_ban "8.8.8.8" "24h" 1 true ∷ []
unfolding maybe_block_incidents run_settings block_each evaluate_and_block execute_block persist
    is_eligible is_public_ip is_special is_ban_safe is_method_available recent_admin_login_ips
    is_recent_login login_texts keep blocks_again any is_on setting is_duration parse_duration_to_dt
    sev_order parse spell strip split int
one_call = refl

maybe_block_incidents-IsTarget_example :
    All
      (IsTarget samples config outside 450_000_000_000 batch start)
      (maybe_block_incidents samples config outside 450_000_000_000 batch start).calls
maybe_block_incidents-IsTarget_example =
    maybe_block_incidents-IsTarget samples config outside 450_000_000_000 batch start tt

abbrev single : World
single = record { incidents = first ∷ []; audit = []; calls = [] }

single_rows :
    (i k : Incident)
    → AmongIncidents i (first ∷ [])
    → AmongIncidents k (first ∷ [])
    → k.source_ip ≡ i.source_ip
single_rows i k (inl e) (inl f) =
    cc (ap (λ (x : Incident). x.source_ip) e, ap (λ (x : Incident). x.source_ip) f)
single_rows i k (inl e) (inr m) = absurd m
single_rows i k (inr m) n = absurd m

single_ids :
    (i k : Incident) → AmongIncidents i (first ∷ []) → AmongIncidents k (first ∷ []) → i.id ≡ k.id
single_ids i k (inl e) (inl f) = cc (ap (λ (x : Incident). x.id) e, ap (λ (x : Incident). x.id) f)
single_ids i k (inl e) (inr m) = absurd m
single_ids i k (inr m) n = absurd m

single_unmarked :
    (i : Incident) (t : ℕ)
    → AmongIncidents i (first ∷ [])
    → i.blocked_at ≡ some t
    → t ≤ 450_000_000_000
single_unmarked i t (inl e) at = cc (ap (λ (x : Incident). x.blocked_at) e)
single_unmarked i t (inr m) at = absurd m

single-IsSpaced : IsSpaced 450_000_000_000 (first ∷ [])
single-IsSpaced = record {
  apart = λ i j s t mi mj ids _ _ _ _ _. absurd (ids (single_ids i j mi mj));
  past = single_unmarked;
}

maybe_block_incidents-IsSpaced_example :
    IsSpaced 450_000_000_000
      (maybe_block_incidents samples config outside 450_000_000_000 (first ∷ []) single).incidents
maybe_block_incidents-IsSpaced_example =
    maybe_block_incidents-IsSpaced samples config outside 450_000_000_000 (first ∷ []) single
      (λ i mi k mk _. single_rows i k mi mk) single-IsSpaced

maybe_block_incidents-Keeps_example :
    let w = maybe_block_incidents samples config outside 450_000_000_000 batch start in
    Keeps 450_000_000_000 batch w.calls batch w.incidents
maybe_block_incidents-Keeps_example =
    maybe_block_incidents-Keeps samples config outside 450_000_000_000 batch start
