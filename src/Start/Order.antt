-- ===== src/Start/Order.antt =====
-- src/main.rs and src/leader.rs: what each outcome of the start means.
use zfs_evacuation_controlle.Base.{
  ℕ, String, Bool, true, false, Option, none, some, List, ◌≡◌, refl, contains, map_option,
  if◌then◌else◌,
}
use zfs_evacuation_controlle.Controller.Context.{Config}
use zfs_evacuation_controlle.Leader.{Attempted, Tenure, acquire}
use zfs_evacuation_controlle.Leader.Fencing.{
  IsSpaced, IsBounded, IsElected, last_time, one_leads, acquire-IsElected,
}
use zfs_evacuation_controlle.Start.{
  Environment, with_ip, config_of, identity_of, Startup, printed, unconfigured, unconnected,
  waiting, working, lead, start,
}

module _ (gap begin : ℕ) (args : List String) (env : Environment) (pid : ℕ) (connects : Bool)
    (rounds : List (Attempted × ℕ)) where
  -- What has to hold for each outcome.
  abbrev pub IsOrderly : Startup → Type 0
  IsOrderly printed = contains "--print-crds" args ≡ true
  IsOrderly unconfigured = env "POD_IP" ≡ none
  IsOrderly unconnected = connects ≡ false
  IsOrderly (waiting cfg identity) = (env "POD_IP" ≡ some cfg.pod_ip) × (one_leads rounds ≡ false)
  IsOrderly (working cfg identity tenure) =
      (env "POD_IP" ≡ some cfg.pod_ip)
      × (one_leads rounds ≡ true)
      × IsBounded gap (last_time begin rounds) tenure

  lead-IsOrderly :
      (cfg : Config) (tenure : Option Tenure)
      → env "POD_IP" ≡ some cfg.pod_ip
      → IsElected gap (last_time begin rounds) (one_leads rounds) tenure
      → IsOrderly (lead cfg (identity_of env pid) tenure)
  lead-IsOrderly cfg none set h = (set, h)
  lead-IsOrderly cfg (some tenure) set h = (set, h.0, h.1)

  -- Where the process does not only print: with or without an address, with or without a client.
  configured-IsOrderly :
      (ip : Option String) (b : Bool)
      → env "POD_IP" ≡ ip
      → connects ≡ b
      → IsElected gap (last_time begin rounds) (one_leads rounds) (acquire rounds)
      → IsOrderly (elim (map_option (with_ip env) ip) [
        | none ↦ unconfigured
        | some cfg ↦ if b then lead cfg (identity_of env pid) (acquire rounds) else unconnected
      ])
  configured-IsOrderly none b set c h = set
  configured-IsOrderly (some ip) false set c h = c
  configured-IsOrderly (some ip) true set c h =
      lead-IsOrderly (with_ip env ip) (acquire rounds) set h

  -- For rounds of the election that end at most `gap` seconds apart: the start prints only when asked
  -- to, and otherwise fails only without POD_IP or without a client; it waits while no round leads;
  -- and the trigger and the reconciler run only with the address of POD_IP and after a round that
  -- leads. From then on, as long as the lease is held, its last renewal is at most 30 seconds old; the
  -- process exits, because another holds the lease or because it cannot renew, at most `gap` seconds
  -- after that; and when it is because it cannot renew, the lease that it last wrote has then expired.
  pub start-IsOrderly : IsSpaced gap begin rounds → IsOrderly (start args env pid connects rounds)
  unfolding start config_of
  start-IsOrderly spaced = by_args (contains "--print-crds" args) refl
    where
      by_args :
          (b : Bool)
          → contains "--print-crds" args ≡ b
          → IsOrderly (
              if b then printed else elim (map_option (with_ip env) (env "POD_IP")) [
                | none ↦ unconfigured
                | some cfg ↦
                    if connects
                    then lead cfg (identity_of env pid) (acquire rounds)
                    else unconnected
              ])
      by_args true asked = asked
      by_args false asked =
          configured-IsOrderly (env "POD_IP") connects refl refl
            (acquire-IsElected gap begin rounds spaced)
