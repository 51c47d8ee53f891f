-- ===== src/Windows/Services.antt =====
-- crates/netpland/src/platform/windows/apply.rs: the firewall's profiles, services, with the loop
-- that waits for a state, and the registry key of an adapter.
use netplan.Base.{
  ℕ, zero, suc, ◌+◌, ◌==◌, leb, ltb, Bool, true, false, not, ◌&&◌, Option, none, some, [], ◌∷◌,
  ◌++◌, Text, codes, trim_matches, eq_ignore_ascii_case, if◌then◌else◌, ok, err,
}
use netplan.Config.Smb.{is_some_and}
use netplan.Plan.{decimal}
use netplan.Platform.{PlatformError, PlatformResult, platform_error, not_found}
use netplan.Windows.{Call, System}
use netplan.Windows.Calls.{pure, fail, ◌>>=◌, ◌>>◌, when}
use netplan.Windows.Tools.{internal_error, words, run_netsh}
use netplan.Windows.Restore.{same}

pub record FirewallRestore : Type 0 where
  pub domain : Bool
  pub private : Bool
  pub public : Bool

unfoldable pub all_equal : FirewallRestore → Bool → Bool
all_equal restore enabled =
    same restore.domain enabled && same restore.private enabled && same restore.public enabled

abbrev pub service_stopped : ℕ
service_stopped = 1

abbrev pub service_running : ℕ
service_running = 4

-- `SERVICE_WAIT_TIMEOUT`, in milliseconds
abbrev pub service_wait_timeout : ℕ
service_wait_timeout = 30000

module _ {S : Type 0} (system : System S) where
  -- A round of the loop below, after the query: what `again` does follows the sleep.
  abbrev pub judged :
      ℕ
      → PlatformError
      → (S → Option (PlatformResult (Unit {0})) × S)
      → PlatformResult Bool × S
      → Option (PlatformResult (Unit {0})) × S
  judged deadline late again (err error, s) = (some (err error), s)
  judged deadline late again (ok true, s) = (some (ok tt), s)
  judged deadline late again (ok false, s) =
      if leb deadline (system.now s) then (some (err late), s) else again s

  -- `loop { if reached { return Ok(()) } if now >= deadline { return Err(…) } sleep(pause) }`, `none`
  -- when the fuel is spent.
  unfoldable pub poll :
      (fuel deadline pause : ℕ)
      → PlatformError
      → Call S Bool
      → S
      → Option (PlatformResult (Unit {0})) × S
  poll zero deadline pause late reached s = (none, s)
  poll (suc fuel) deadline pause late reached s =
      judged deadline late (λ t. poll fuel deadline pause late reached (system.sleep pause t))
        (reached s)

  -- The fuel is not spent on a clock that `sleep` advances: then this is the loop's answer.
  abbrev pub answered :
      PlatformError → Option (PlatformResult (Unit {0})) × S → PlatformResult (Unit {0}) × S
  answered late (some answer, s) = (answer, s)
  answered late (none, s) = (err late, s)

  abbrev pub service_late : ℕ → PlatformError
  service_late desired =
      internal_error
        (codes "service did not reach state " ++ decimal desired ++ codes " within 30 seconds")

  abbrev pub service_reached : Text → ℕ → Call S Bool
  service_reached name desired = system.query_service name >>= λ current. pure (current == desired)

  -- A sleep is of 100 milliseconds: 300 of them reach the deadline.
  unfoldable pub wait_for_service_state : Text → ℕ → Call S (Unit {0})
  wait_for_service_state name desired s = answered (service_late desired) (
      poll 301 (system.now s + service_wait_timeout) 100 (service_late desired)
        (service_reached name desired) s)

  unfoldable pub service_is_running : Text → Call S Bool
  service_is_running name = service_reached name service_running

  unfoldable pub set_service_running : Text → Bool → Call S (Unit {0})
  set_service_running name running = do
    current ← system.query_service name
    if running && not (current == service_running)
        then system.start_service name >> wait_for_service_state name service_running
        else when (not running && not (current == service_stopped))
            (system.stop_service name >> wait_for_service_state name service_stopped)

  abbrev pub firewall_policy : Text
  firewall_policy =
      codes "SYSTEM\\CurrentControlSet\\Services\\SharedAccess\\Parameters\\FirewallPolicy"

  unfoldable pub capture_firewall : Call S FirewallRestore
  capture_firewall = do
    domain ←
        system.read_registry_dword (firewall_policy ++ codes "\\DomainProfile")
          (codes "EnableFirewall")
    private ←
        system.read_registry_dword (firewall_policy ++ codes "\\StandardProfile")
          (codes "EnableFirewall")
    public ←
        system.read_registry_dword (firewall_policy ++ codes "\\PublicProfile")
          (codes "EnableFirewall")
    pure record {
      domain = not (domain == 0);
      private = not (private == 0);
      public = not (public == 0);
    }

  unfoldable pub set_firewall_profile : Text → Bool → Call S (Unit {0})
  set_firewall_profile profile enabled = run_netsh system (
      words ("advfirewall" ∷ "set" ∷ [])
      ++ profile ∷ codes "state" ∷ (if enabled then codes "on" else codes "off") ∷ [])

  unfoldable pub restore_firewall : FirewallRestore → Call S (Unit {0})
  restore_firewall restore = do
    set_firewall_profile (codes "domainprofile") restore.domain
    set_firewall_profile (codes "privateprofile") restore.private
    set_firewall_profile (codes "publicprofile") restore.public

  -- `{index:04}`, for an index below 10,000
  abbrev pub four_digits : ℕ → Text
  four_digits index =
      (if ltb index 10
        then codes "000"
        else if ltb index 100
        then codes "00"
        else if ltb index 1000
        then codes "0"
        else [])
      ++ decimal index

  abbrev pub class_key : ℕ → Text
  class_key index =
      codes "SYSTEM\\CurrentControlSet\\Control\\Class\\{4D36E972-E325-11CE-BFC1-08002BE10318}\\"
      ++ four_digits index

  -- `for index in 0..10_000`: how many indexes are left, and the next one
  unfoldable pub find_class_key : ℕ → ℕ → Text → Call S Text
  find_class_key zero index guid = fail (
      platform_error not_found
        (codes "adapter registry class key was not found for GUID " ++ system.debug guid))
  find_class_key (suc left) index guid =
      system.read_registry_text (class_key index) (codes "NetCfgInstanceId") >>= λ value.
      let rest = find_class_key left (suc index) guid in
      if is_some_and
        (λ value.
          eq_ignore_ascii_case (trim_matches (codes "{}") value) (trim_matches (codes "{}") guid))
        value
      then pure (class_key index)
      else rest

  abbrev pub find_adapter_class_key : Text → Call S Text
  find_adapter_class_key guid = find_class_key 10000 0 guid
