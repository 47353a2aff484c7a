-- ===== src/Ddos/Safety/Allowlist.antt =====
-- The verdict depends on the address and not on its spelling, and what the operator lists in
-- `ddos_safe_ips` is protected.
use wardnode.Base.{
  String, ◌≡◌, ◌≢◌, ◌⊎◌, some, List, [], ◌∷◌, arith, or_else, ap, sym, ◌∙◌, false, eq_iff,
}
use wardnode.Text.{strip, split}
use wardnode.Config.{Table, setting, put}
use wardnode.Config.Laws.{get-put}
use wardnode.Ip.{IpLibrary}
use wardnode.Ddos.Safety.{
  HostNetwork, invalid_address, own_address, protected_range, host_interface, ssh_host, safe_listed,
  Verdict, safe, refused, guards, is_ban_safe,
}
use wardnode.Ddos.Safety.Guards.{Names, NoneNames, is_ban_safe_iff}

-- The verdict without the text that its message quotes.
abbrev pub unquoted : Verdict → Verdict
unquoted safe = safe
unquoted (refused invalid_address) = refused invalid_address
unquoted (refused own_address) = refused own_address
unquoted (refused (protected_range _)) = refused (protected_range "")
unquoted (refused (host_interface _)) = refused (host_interface "")
unquoted (refused (ssh_host _)) = refused (ssh_host "")
unquoted (refused (safe_listed _)) = refused (safe_listed "")

abbrev pub Among : String → List String → Type 0
Among s [] = ⊥
Among s (x ∷ xs) = (s ≡ x) ⊎ Among s xs

-- Reading the list back gives what was written.
written_list :
    (config : Table) (v : String)
    → or_else (setting (put config "ddos_safe_ips" (some v) false) "ddos_safe_ips") "" ≡ v
unfolding setting
written_list config v =
    rw (get-put config "ddos_safe_ips" "ddos_safe_ips" (some v) false) (ground (arith, eq_iff v ""))

module _ (lib : IpLibrary) where
  open lib use {Address, ip_address}

  guards-unquoted :
      (config : Table) (net : HostNetwork) (s t request_ip : String) (a : Address)
      → unquoted (guards lib config net s request_ip a)
        ≡ unquoted (guards lib config net t request_ip a)
  unfolding guards
  guards-unquoted config net s t request_ip a = ground arith

  -- Two spellings of one address get the same verdict, up to the text that the message quotes.
  pub is_ban_safe-spelling :
      (config : Table) (net : HostNetwork) (s t request_ip : String) (a : Address)
      → Names lib s a
      → Names lib t a
      → unquoted (is_ban_safe lib config net s request_ip)
        ≡ unquoted (is_ban_safe lib config net t request_ip)
  unfolding is_ban_safe
  is_ban_safe-spelling config net s t request_ip a hs ht =
      rw (hs, ht) (guards-unquoted config net (strip s) (strip t) (strip request_ip) a)

  NoneNames-Among :
      (a : Address) (s : String) (xs : List String)
      → Among s xs
      → NoneNames lib a xs
      → ¬ Names lib s a
  NoneNames-Among a s [] m h = absurd m
  NoneNames-Among a s (x ∷ xs) m h = ground (arith, NoneNames-Among a s xs)

  -- Once `ddos_safe_ips` is written, no spelling of an address that one of its comma-separated
  -- items names can be banned, whatever the other settings, the host and the requester are.
  pub safe_list_protects :
      (config : Table) (net : HostNetwork) (ip request_ip v s : String) (a : Address)
      → Names lib ip a
      → Among s (split b',' v)
      → Names lib s a
      → is_ban_safe lib (put config "ddos_safe_ips" (some v) false) net ip request_ip ≢ safe
  safe_list_protects config net ip request_ip v s a hip m hs verdict =
      let after = put config "ddos_safe_ips" (some v) false in
      let (b, k) = (is_ban_safe_iff lib after net ip request_ip).0 verdict in
      let same_address : b ≡ a = ground (arith, hip, k.parsed) in
      let written : or_else (setting after "ddos_safe_ips") "" ≡ v = written_list config v in
      NoneNames-Among b s (split b',' v) m (rw written at k.not_listed)
        (hs ∙ ap some (sym same_address))
