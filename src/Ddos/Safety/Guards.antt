-- ===== src/Ddos/Safety/Guards.antt =====
-- What `is_ban_safe` lets through, in terms of addresses and not of their spellings.
use wardnode.Base.{
  String, ◌≡◌, ◌↔◌, inl, inr, refl, ap, subst, true, false, Option, none, some, List, [], ◌∷◌, ◌++◌,
  arith, ◌==◌, eq_iff, or_else, All, Bool-cases, Option-cases,
}
use wardnode.Text.{strip, split}
use wardnode.Text.Laws.{strip-empty}
use wardnode.Config.{Table, setting}
use wardnode.Ip.{IpLibrary, is_special, to_text_injective}
use wardnode.Ddos.Safety.{
  HostNetwork, safe, member, same, norm, norm_set, outbound_ips, host_ips, is_ssh_host,
  present_items, is_safe_listed, guards, is_ban_safe,
}

module _ (lib : IpLibrary) where
  open lib use {Address, ip_address, to_text, ip_address-empty}

  -- The text, with white space around it or not, is a spelling of the address.
  abbrev pub Names : String → Address → Type 0
  Names s a = ip_address (strip s) ≡ some a

  -- No text of the list is a spelling of the address.
  abbrev pub NoneNames : Address → List String → Type 0
  NoneNames a xs = All (λ s. ¬ Names s a) xs

  abbrev outbound_texts : List (Option String) → List String
  outbound_texts [] = []
  outbound_texts (none ∷ rest) = outbound_texts rest
  outbound_texts (some raw ∷ rest) = raw ∷ outbound_texts rest

  same-norm : (a : Address) (s : String) → (same (to_text a) (norm lib s) ≡ true) ↔ Names s a
  unfolding norm
  same-norm a s = elim (Option-cases (ip_address (strip s))) [
    | inl e ↦ ground (arith, e)
    | inr (b, e) ↦ ground (arith, e, eq_iff (to_text a) (to_text b), to_text_injective lib a b)
  ]

  pub member-norm_set :
      (a : Address) (xs : List String)
      → (member (to_text a) (norm_set lib xs) ≡ false) ↔ NoneNames a xs
  unfolding member norm_set norm
  member-norm_set a [] = (λ h. tt, λ h. refl)
  member-norm_set a (s ∷ xs) = elim (Option-cases (ip_address (strip s))) [
    | inl e ↦ ground (arith, e, member-norm_set a xs)
    | inr (b, e) ↦
        ground (
          arith,
          e,
          eq_iff (to_text b) (to_text a),
          to_text_injective lib b a,
          member-norm_set a xs,
        )
  ]

  member-append :
      (a : String) (xs ys : List String)
      → (member a (xs ++ ys) ≡ false) ↔ ((member a xs ≡ false) × (member a ys ≡ false))
  unfolding member
  member-append a [] ys = (λ h. (refl, h), λ h. h.1)
  member-append a (x ∷ xs) ys = ground (arith, member-append a xs ys)

  member-outbound_ips :
      (a : Address) (xs : List (Option String))
      → (member (to_text a) (outbound_ips lib xs) ≡ false) ↔ NoneNames a (outbound_texts xs)
  unfolding member outbound_ips norm
  member-outbound_ips a [] = (λ h. tt, λ h. refl)
  member-outbound_ips a (none ∷ xs) = member-outbound_ips a xs
  member-outbound_ips a (some s ∷ xs) = elim (Option-cases (ip_address (strip s))) [
    | inl e ↦ ground (arith, e, member-outbound_ips a xs)
    | inr (b, e) ↦ ground (
      arith,
      e,
      eq_iff (to_text b) (to_text a),
      to_text_injective lib b a,
      member-outbound_ips a xs,
    )
  ]

  -- A blank item names no address, so leaving it out loses none.
  NoneNames-present_items :
      (a : Address) (xs : List String) → NoneNames a (present_items xs) ↔ NoneNames a xs
  NoneNames-present_items a [] = (λ h. h, λ h. h)
  NoneNames-present_items a (s ∷ xs) = elim (Bool-cases (strip s == "")) [
    | inl e ↦ ground (
      arith,
      e,
      (eq_iff (strip s) "").0 e,
      ap ip_address ((eq_iff (strip s) "").0 e),
      ip_address-empty,
      NoneNames-present_items a xs,
    )
    | inr e ↦ ground (arith, e, NoneNames-present_items a xs)
  ]

  is_ssh_host-Names :
      (config : Table) (a : Address)
      → (is_ssh_host lib config (to_text a) ≡ true)
        ↔ Names (strip (or_else (setting config "wf_ssh_host") "")) a
  unfolding is_ssh_host
  is_ssh_host-Names config a =
      let host = strip (or_else (setting config "wf_ssh_host") "") in
      elim (Bool-cases (host == "")) [
        | inl e ↦
            let empty : host ≡ "" = (eq_iff host "").0 e in
            ground (
              arith,
              e,
              ap (λ (h : String). ip_address (strip h)) empty,
              ap ip_address strip-empty,
              ip_address-empty,
            )
        | inr e ↦ rw e (same-norm a host)
      ]

  -- The guards of the program, told of addresses: the text is an address, and that address is
  -- not the administrator's, not special, no interface of the host, not the SSH host and not in
  -- the list of safe addresses, however those are spelled.
  pub record IsBannable (config : Table) (net : HostNetwork) (ip request_ip : String) (a : Address)
      : Type 0 where
    pub parsed : Names ip a
    pub not_own : ¬ Names (strip request_ip) a
    pub not_special : is_special lib a ≡ false
    pub not_outbound : NoneNames a (outbound_texts net.outbound)
    pub not_resolved : NoneNames a (or_else net.resolved [])
    pub not_ssh_host : ¬ Names (strip (or_else (setting config "wf_ssh_host") "")) a
    pub not_listed : NoneNames a (split b',' (or_else (setting config "ddos_safe_ips") ""))

  guards-safe_iff :
      (config : Table) (net : HostNetwork) (ip request_ip : String) (a : Address)
      → Names ip a
      → (guards lib config net (strip ip) (strip request_ip) a ≡ safe)
        ↔ IsBannable config net ip request_ip a
  unfolding guards host_ips is_safe_listed
  guards-safe_iff config net ip request_ip a h =
      let key = to_text a in
      let items = split b',' (or_else (setting config "ddos_safe_ips") "") in
      let own = same-norm a (strip request_ip) in
      let outbound = member-outbound_ips a net.outbound in
      let resolved = member-norm_set a (or_else net.resolved []) in
      let host =
        member-append key (outbound_ips lib net.outbound)
          (norm_set lib (or_else net.resolved [])) in
      let ssh = is_ssh_host-Names config a in
      let listed = member-norm_set a (present_items items) in
      let blanks = NoneNames-present_items a items in
      ground (arith, own, outbound, resolved, host, ssh, listed, blanks)

  -- A ban is found safe exactly when the text is an address that all five guards let through,
  -- each told of addresses: no other spelling of a protected address gets past one.
  pub is_ban_safe_iff :
      (config : Table) (net : HostNetwork) (ip request_ip : String)
      → (is_ban_safe lib config net ip request_ip ≡ safe)
        ↔ ((a : Address) × IsBannable config net ip request_ip a)
  unfolding is_ban_safe
  is_ban_safe_iff config net ip request_ip = elim (Option-cases (ip_address (strip ip))) [
    | inl e ↦ (λ h. absurd (ground (arith, e)), λ (a, b). absurd (ground (arith, e, b.parsed)))
    | inr (a, e) ↦
        let at_a = guards-safe_iff config net ip request_ip a e in
        (
          λ h. (a, at_a.0 (rw e at h)),
          λ (b, k).
              let same_address : b ≡ a = ground (arith, e, k.parsed) in
              rw e (at_a.1 (subst (λ c. IsBannable config net ip request_ip c) same_address k)),
        )
  ]
