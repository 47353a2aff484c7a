-- ===== src/HostAgent/Commands.antt =====
-- What the agent runs on behalf of a client: fixed words, and checked fields between them.
use wardnode.Base.{
  ℕ, String, Bool, true, ◌||◌, ◌≡◌, refl, Option, none, some, List, [], ◌∷◌, ◌++◌, any, all, ◌==◌,
  ◌=?◌, All, All-append, arith,
}
use wardnode.Text.{codes}
use wardnode.Modules.SocketClient.Characters.{is_plain, IsPlain}
use wardnode.HostAgent.{
  Arg, Call, ufw, iptables, set_ipv6_script, docker_ps, Exit, exited, timed_out, not_found, Host,
  World, M, and_then, ◌>>=◌, finish, run, ufw_answer, run_ufw, iptables_done, run_iptables,
}
use wardnode.HostAgent.Ports.{words}

abbrev pub vocabulary : List String
vocabulary =
    "status" ∷ "numbered" ∷ "verbose" ∷ "allow" ∷ "deny" ∷ "from" ∷ "to" ∷ "any" ∷ "port" ∷ "proto"
    ∷ "tcp" ∷ "limit" ∷ "delete" ∷ "--force" ∷ "enable" ∷ "default" ∷ "incoming" ∷ "outgoing"
    ∷ "logging" ∷ "medium" ∷ "80/tcp" ∷ "443/tcp" ∷ "172.16.0.0/12" ∷ "8081" ∷ "-t" ∷ "raw" ∷ "-D"
    ∷ "-I" ∷ "-C" ∷ "PREROUTING" ∷ "INPUT" ∷ "1" ∷ "5000" ∷ "-i" ∷ "lo" ∷ "-p" ∷ "--dport" ∷ "-j"
    ∷ "ACCEPT" ∷ "DROP" ∷ "!" ∷ "-s" ∷ "yes" ∷ "no" ∷ []

unfoldable pub in_vocabulary : String → Bool
unfolding any
in_vocabulary s = any (λ v. v == s) vocabulary

-- A character of an address, a port or a protocol; no dash, space or quote is one.
unfoldable pub is_harmless : ℕ → Bool
is_harmless c = is_plain c || c =? b't' || c =? b'p' || c =? b'u' || c =? b'n' || c =? b'y'

-- An argument is a fixed word, or consists of harmless characters.
pub data IsArgument (a : Arg) : Type 0 where
  constant : (s : String) → a ≡ codes s → in_vocabulary s ≡ true → IsArgument a
  checked : All (λ c. is_harmless c ≡ true) a → IsArgument a

abbrev pub IsPermitted : Call → Type 0
IsPermitted (ufw args) = All IsArgument args
IsPermitted (iptables args) = All IsArgument args
IsPermitted (set_ipv6_script arg) = IsArgument arg
IsPermitted (docker_ps program) = Unit

pub words-IsArgument : (ws : List String) → all in_vocabulary ws ≡ true → All IsArgument (words ws)
unfolding all
words-IsArgument [] h = tt
words-IsArgument (s ∷ ws) h =
    (constant s refl (ground (arith, h)), words-IsArgument ws (ground (arith, h)))

pub word-IsArgument : (s : String) → in_vocabulary s ≡ true → IsArgument (codes s)
word-IsArgument s h = constant s refl h

pub IsPlain-harmless : (s : Arg) → IsPlain s → All (λ c. is_harmless c ≡ true) s
unfolding is_harmless
IsPlain-harmless [] h = tt
IsPlain-harmless (c ∷ s) h = (ground (arith, h.0), IsPlain-harmless s h.1)

-- Around a checked argument stand fixed words.
pub around-IsArgument :
    (before after : List String) (a : Arg)
    → all in_vocabulary before ≡ true
    → all in_vocabulary after ≡ true
    → IsArgument a
    → All IsArgument (words before ++ (a ∷ words after))
around-IsArgument before after a p q h =
    All-append IsArgument (words before) (a ∷ words after) (words-IsArgument before p)
      (h, words-IsArgument after q)

module _ (host : Host) where
  -- If only permitted calls were made before, only such were made after.
  abbrev pub Issues : {A : Type 0} → M host A → Type 0
  Issues m = (w : World host) → All IsPermitted w.calls → All IsPermitted (m w).1.calls

  pub and_then-Issues :
      {A B : Type 0} (r : Option A × World host) (f : A → M host B)
      → All IsPermitted r.1.calls
      → ((a : A) → Issues (f a))
      → All IsPermitted (and_then r f).1.calls
  and_then-Issues (none, w) f h k = h
  and_then-Issues (some a, w) f h k = k a w h

  pub bind-Issues :
      {A B : Type 0} (m : M host A) (f : A → M host B)
      → Issues m
      → ((a : A) → Issues (f a))
      → Issues (m >>= f)
  bind-Issues m f h k w c = and_then-Issues (m w) f (h w c) k

  finish-Issues :
      (c : Call) (w : World host) (r : Exit × host.System)
      → IsPermitted c
      → All IsPermitted w.calls
      → All IsPermitted (finish host c w r).1.calls
  finish-Issues c w (e, s) h k = (h, k)

  pub run-Issues : (c : Call) → IsPermitted c → Issues (run host c)
  unfolding run
  run-Issues c h w k = finish-Issues c w (host.run c w.system) h k

  ufw_answer-Issues : (e : Exit) → Issues (ufw_answer host e)
  ufw_answer-Issues (exited ok output) w h = h
  ufw_answer-Issues timed_out w h = h
  ufw_answer-Issues not_found w h = h

  pub run_ufw-Issues : (args : List Arg) → All IsArgument args → Issues (run_ufw host args)
  unfolding run_ufw
  run_ufw-Issues args h =
      bind-Issues (run host (ufw args)) (ufw_answer host) (run-Issues (ufw args) h)
        ufw_answer-Issues

  iptables_done-Issues : (e : Exit) → Issues (iptables_done host e)
  iptables_done-Issues (exited ok output) w h = h
  iptables_done-Issues timed_out w h = h
  iptables_done-Issues not_found w h = h

  pub run_iptables-Issues :
      (args : List Arg) → All IsArgument args → Issues (run_iptables host args)
  unfolding run_iptables
  run_iptables-Issues args h =
      bind-Issues (run host (iptables args)) (iptables_done host) (run-Issues (iptables args) h)
        iptables_done-Issues
