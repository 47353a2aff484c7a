-- ===== src/Ddos/Safety/Tests.antt =====
-- `is_ban_safe` run on samples, and the theorems at those inputs.
use wardnode.Base.{◌≡◌, ◌≢◌, ◌↔◌, refl, inl, inr, none, some, false, [], ◌∷◌}
use wardnode.Text.{strip, split}
use wardnode.Config.{Table, put, setting}
use wardnode.Ip.Samples.{Sample, google, cloudflare_v6, samples, parse, spell}
use wardnode.Ddos.Safety.{
  HostNetwork, safe, refused, own_address, protected_range, host_interface, safe_listed,
  is_ban_safe,
}
use wardnode.Ddos.Safety.Guards.{IsBannable, is_ban_safe_iff}
use wardnode.Ddos.Safety.Allowlist.{unquoted, is_ban_safe-spelling, safe_list_protects}

abbrev net : HostNetwork
net = record { outbound = some "9.9.9.9" ∷ none ∷ []; resolved = some ("127.0.0.1" ∷ []) }

abbrev listed : Table
listed =
    record {
      key = "ddos_safe_ips";
      value = some "10.0.0.7, 2606:4700:4700:0:0:0:0:1111";
      encrypted = false;
    }
    ∷ []

verdicts :
    (is_ban_safe samples listed net " 8.8.8.8" "9.9.9.9" ≡ safe)
    × (is_ban_safe samples listed net "8.8.8.8" "8.8.8.8 " ≡ refused own_address)
    × (is_ban_safe samples listed net "10.0.0.7" "" ≡ refused (protected_range "10.0.0.7"))
    × (is_ban_safe samples listed net "9.9.9.9" "" ≡ refused (host_interface "9.9.9.9"))
    × (is_ban_safe samples listed net "2606:4700:4700::1111" ""
        ≡ refused (safe_listed "2606:4700:4700::1111"))
unfolding is_ban_safe parse spell strip split setting
verdicts = (refl, refl, refl, refl, refl)

is_ban_safe_iff_example :
    (is_ban_safe samples listed net "8.8.8.8" "9.9.9.9" ≡ safe)
    ↔ ((a : Sample) × IsBannable samples listed net "8.8.8.8" "9.9.9.9" a)
is_ban_safe_iff_example = is_ban_safe_iff samples listed net "8.8.8.8" "9.9.9.9"

is_ban_safe-spelling_example :
    unquoted (is_ban_safe samples listed net "2606:4700:4700::1111" "")
    ≡ unquoted (is_ban_safe samples listed net " 2606:4700:4700:0:0:0:0:1111" "")
unfolding parse strip
is_ban_safe-spelling_example =
    is_ban_safe-spelling samples listed net "2606:4700:4700::1111" " 2606:4700:4700:0:0:0:0:1111" ""
      cloudflare_v6 refl refl

safe_list_protects_example :
    is_ban_safe samples (put [] "ddos_safe_ips" (some "10.0.0.7, 8.8.8.8") false) net "8.8.8.8" ""
    ≢ safe
unfolding parse strip split
safe_list_protects_example =
    safe_list_protects samples [] net "8.8.8.8" "" "10.0.0.7, 8.8.8.8" " 8.8.8.8" google refl
      (inr (inl refl)) refl
