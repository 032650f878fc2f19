-- ===== src/Relay/Peers.antt =====
-- src/transfer/relay.rs, the task of `Relay::spawn`: whose bytes it passes on, and to whom.
use mathlib.Core.List.{append-nil}
use zfs_evacuation_controlle.Base.{
  Bool, true, false, Option, some, List, [], ◌++◌, ◌≡◌, ◌⊎◌, inl, inr, refl, ◌∙◌, Bool-cases,
  if_elim,
}
use zfs_evacuation_controlle.Effect.{IpAddr, IpNet}
use zfs_evacuation_controlle.Relay.{admits}
use zfs_evacuation_controlle.Relay.Splice.{
  Writer, receiving, writing, Reader, unstarted, reading, sending, ended, Splice, Step,
  source_comes, source_lost, target_comes, target_lost, reads, reads_end, read_fails, sends,
  send_fails, receives, writes, write_fails, closes, aborts, Reachable, starts, steps,
}

-- The peer of an open stream is one of those allowed.
abbrev pub IsAdmitted : List IpNet → Option IpAddr → Type 0
IsAdmitted allowed o = (peer : IpAddr) × (o ≡ some peer) × (admits allowed peer ≡ true)

abbrev is_idle : Reader → Bool
is_idle unstarted = true
is_idle (ended _) = true
is_idle _ = false

abbrev has_target : Writer → Bool
has_target receiving = true
has_target (writing _) = true
has_target _ = false

abbrev Sourced : List IpNet → Splice → Type 0
Sourced allowed s = IsAdmitted allowed s.src ⊎ ((s.consumed ≡ []) × (is_idle s.reader ≡ true))

abbrev Targeted : List IpNet → Splice → Type 0
Targeted allowed s = IsAdmitted allowed s.dst ⊎ ((s.delivered ≡ []) × (has_target s.writer ≡ false))

module _ (backup_peers restore_peers : List IpNet) where
  busy :
      {P : Type 0} (s : Splice) (r : Reader)
      → s.reader ≡ r
      → is_idle r ≡ false
      → is_idle s.reader ≡ true
      → P
  busy s r e b i = cc

  Step-Sourced :
      {s t : Splice}
      → Step backup_peers restore_peers s t
      → Sourced backup_peers s
      → Sourced backup_peers t
  Step-Sourced {s} (source_comes peer now e) h = elim (Bool-cases (admits backup_peers peer)) [
    | inl yes' ↦ rw yes' (inl (peer, refl, yes'))
    | inr no' ↦ rw no' h
  ]
  Step-Sourced (source_lost e) h = h
  Step-Sourced {s} (target_comes peer now e) h =
      if_elim (Sourced backup_peers) (admits restore_peers peer) _ _ (λ _. h) (λ _. h)
  Step-Sourced (target_lost e) h = h
  Step-Sourced (reads chunk now e _ _) (inl a) = inl a
  Step-Sourced {s} (reads chunk now e _ _) (inr a) = busy s reading e refl a.1
  Step-Sourced (reads_end e) (inl a) = inl a
  Step-Sourced (reads_end e) (inr a) = inr (a.0, refl)
  Step-Sourced (read_fails e) (inl a) = inl a
  Step-Sourced (read_fails e) (inr a) = inr (a.0, refl)
  Step-Sourced (sends chunk e _ _) (inl a) = inl a
  Step-Sourced {s} (sends chunk e _ _) (inr a) = busy s (sending chunk) e refl a.1
  Step-Sourced (send_fails chunk e _) (inl a) = inl a
  Step-Sourced (send_fails chunk e _) (inr a) = inr (a.0, refl)
  Step-Sourced (receives chunk rest e q) h = h
  Step-Sourced (writes chunk now e) h = h
  Step-Sourced (write_fails part rest e) h = h
  Step-Sourced (closes well e q r) h = h
  Step-Sourced (aborts e) (inl a) = inl a
  Step-Sourced (aborts e) (inr a) = inr (a.0, refl)

  early :
      {P : Type 0} (s : Splice) (w : Writer)
      → s.writer ≡ w
      → has_target w ≡ true
      → has_target s.writer ≡ false
      → P
  early s w e b i = cc

  Step-Targeted :
      {s t : Splice}
      → Step backup_peers restore_peers s t
      → Targeted restore_peers s
      → Targeted restore_peers t
  Step-Targeted {s} (source_comes peer now e) (inl a) =
      if_elim (Targeted restore_peers) (admits backup_peers peer) _ _ (λ _. inl a) (λ _. inl a)
  Step-Targeted {s} (source_comes peer now e) (inr a) =
      if_elim (Targeted restore_peers) (admits backup_peers peer) _ _ (λ _. inr (a.0, refl))
        (λ _. inr a)
  Step-Targeted (source_lost e) (inl a) = inl a
  Step-Targeted (source_lost e) (inr a) = inr (append-nil _ ∙ a.0, refl)
  Step-Targeted {s} (target_comes peer now e) h = elim (Bool-cases (admits restore_peers peer)) [
    | inl yes' ↦ rw yes' (inl (peer, refl, yes'))
    | inr no' ↦ rw no' h
  ]
  Step-Targeted (target_lost e) (inl a) = inl a
  Step-Targeted (target_lost e) (inr a) = inr (append-nil _ ∙ a.0, refl)
  Step-Targeted (reads chunk now e _ _) h = h
  Step-Targeted (reads_end e) h = h
  Step-Targeted (read_fails e) h = h
  Step-Targeted (sends chunk e _ _) h = h
  Step-Targeted (send_fails chunk e _) h = h
  Step-Targeted (receives chunk rest e q) (inl a) = inl a
  Step-Targeted {s} (receives chunk rest e q) (inr a) = early s receiving e refl a.1
  Step-Targeted (writes chunk now e) (inl a) = inl a
  Step-Targeted {s} (writes chunk now e) (inr a) = early s (writing chunk) e refl a.1
  Step-Targeted (write_fails part rest e) (inl a) = inl a
  Step-Targeted {s} (write_fails part rest e) (inr a) = early s (writing (part ++ rest)) e refl a.1
  Step-Targeted (closes well e q r) (inl a) = inl a
  Step-Targeted {s} (closes well e q r) (inr a) = inr (a.0, refl)
  Step-Targeted (aborts e) h = h

  Reachable-Sourced :
      {s : Splice}
      → Reachable backup_peers restore_peers s
      → Sourced backup_peers s × Targeted restore_peers s
  Reachable-Sourced (starts now) = (inr (refl, refl), inr (refl, refl))
  Reachable-Sourced (steps r step) =
      let h = Reachable-Sourced r in (Step-Sourced step h.0, Step-Targeted step h.1)

  -- In every state that the task can reach, bytes were read only if the source's stream is that of a
  -- peer that the backup ranges admit, and written only if the target's is that of a peer that the
  -- restore ranges admit.
  pub only-IsAdmitted :
      (s : Splice)
      → Reachable backup_peers restore_peers s
      → ((s.consumed ≡ []) ⊎ IsAdmitted backup_peers s.src)
        × ((s.delivered ≡ []) ⊎ IsAdmitted restore_peers s.dst)
  only-IsAdmitted s r = let h = Reachable-Sourced r in (vouched h.0, vouched h.1)
    where
      vouched : {P A B : Type 0} → P ⊎ (A × B) → A ⊎ P
      vouched (inl p) = inr p
      vouched (inr a) = inl a.0
