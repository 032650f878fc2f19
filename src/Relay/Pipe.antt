-- ===== src/Relay/Pipe.antt =====
-- src/transfer/relay.rs, the task of `Relay::spawn`, as a pipe that loses nothing.
use mathlib.Core.List.{append-nil, append_assoc}
use zfs_evacuation_controlle.Base.{
  ℕ, ◌%◌, ◌^◌, Bool, true, false, Option, none, some, List, [], ◌++◌, ◌≡◌, ◌≢◌, refl, ap, ◌∙◌,
  subst, length, if_elim,
}
use zfs_evacuation_controlle.Effect.{IpNet}
use zfs_evacuation_controlle.Relay.{admits}
use zfs_evacuation_controlle.Relay.Splice.{
  Writer, accepting_source, accepting_target, receiving, writing, finished, reading, Splice,
  on_failure, on_closed, result_of, Step, source_comes, source_lost, target_comes, target_lost,
  reads, reads_end, read_fails, sends, send_fails, receives, writes, write_fails, closes, aborts,
  Reachable,
}
use zfs_evacuation_controlle.Relay.Stream.{
  concat, pending, held, Balanced, Kept, IsWhole, IsCutShort, at_writer, closed_Kept,
  Reachable-Kept,
}

-- The specification: bytes are taken at one end and given at the other, in order and unchanged.
pub record Pipe : Type 0 where
  pub taken : List ℕ
  pub given : List ℕ
  pub outcome : Option (Option ℕ)

abbrev pub is_whole : Option (Option ℕ) → Bool
is_whole (some (some _)) = true
is_whole _ = false

pub data Moves (p : Pipe) : Pipe → Type 0 where
  rests : Moves p p
  takes :
      (bytes : List ℕ)
      → is_whole p.outcome ≡ false
      → Moves p (record p { taken = p.taken ++ bytes })
  gives :
      (bytes rest : List ℕ)
      → p.outcome ≡ none
      → p.taken ≡ p.given ++ (bytes ++ rest)
      → Moves p (record { taken = p.taken; given = p.given ++ bytes; outcome = none })
  succeeds :
      (n : ℕ)
      → p.outcome ≡ none
      → p.given ≡ p.taken
      → n ≡ length p.given % 2 ^ 64
      → n ≢ 0
      → Moves p (record p { outcome = some (some n) })
  fails :
      (part rest : List ℕ)
      → p.outcome ≡ none
      → p.taken ≡ p.given ++ (part ++ rest)
      → Moves p (record p { given = p.given ++ part; outcome = some none })

abbrev pub outcome_of : Writer → Option (Option ℕ)
outcome_of (finished o) = some o
outcome_of _ = none

abbrev pub pipe_of : Splice → Pipe
pipe_of s = record { taken = s.consumed; given = s.delivered; outcome = outcome_of s.writer }

module _ (s : Splice) where
  running : (w : Writer) → s.writer ≡ w → outcome_of s.writer ≡ outcome_of w
  running w e = ap outcome_of e

  -- A change of the writer alone, while the task runs.
  turned :
      (w v : Writer)
      → s.writer ≡ w
      → outcome_of w ≡ outcome_of v
      → Moves
          (pipe_of s)
          (record { taken = s.consumed; given = s.delivered; outcome = outcome_of v })
  turned w v e same =
      subst
        (λ o. Moves (pipe_of s) (record { taken = s.consumed; given = s.delivered; outcome = o }))
        (running w e ∙ same) rests

  not_whole : (w : Writer) → Kept w s → s.reader ≡ reading → is_whole (outcome_of w) ≡ false
  not_whole (finished (some n)) k e = cc
  not_whole (finished none) k e = refl
  not_whole accepting_source k e = refl
  not_whole accepting_target k e = refl
  not_whole receiving k e = refl
  not_whole (writing c) k e = refl

  cut_short :
      (w : Writer)
      → s.writer ≡ w
      → outcome_of w ≡ none
      → Balanced w s
      → Moves (pipe_of s) (pipe_of (on_failure [] s))
  cut_short w e running' b = fails [] (pending w s.queue s.reader) (running w e ∙ running') b.0

  closing :
      (well : Bool)
      → s.writer ≡ receiving
      → (o : Option ℕ) → result_of well s.total ≡ o
      → Kept (finished o) (on_closed well s)
      → Moves (pipe_of s) (record { taken = s.consumed; given = s.delivered; outcome = some o })
  closing well e none r k =
      let cut : IsCutShort (on_closed well s) = k in
      subst (λ g. Moves (pipe_of s) (record { taken = s.consumed; given = g; outcome = some none }))
        (append-nil s.delivered) (fails [] cut.0 (running receiving e) cut.1)
  closing well e (some n) r k = succeeds n (running receiving e) k.1 k.2 k.3

module _ (backup_peers restore_peers : List IpNet) where
  -- In every state that the task can reach, each of its steps is a step of the pipe or leaves the
  -- pipe as it is.
  pub Step-Moves :
      {s t : Splice}
      → Reachable backup_peers restore_peers s
      → Step backup_peers restore_peers s t
      → Moves (pipe_of s) (pipe_of t)
  Step-Moves {s} r step = moved step (Reachable-Kept backup_peers restore_peers r)
    where
      moved :
          {t : Splice}
          → Step backup_peers restore_peers s t
          → Kept s.writer s
          → Moves (pipe_of s) (pipe_of t)
      moved (source_comes peer now e) k =
          if_elim (λ (t : Splice). Moves (pipe_of s) (pipe_of t)) (admits backup_peers peer) _ _
            (λ _. turned s accepting_source accepting_target e refl) (λ _. rests)
      moved (source_lost e) k =
          cut_short s accepting_source e refl (at_writer s accepting_source e k).1
      moved (target_comes peer now e) k =
          if_elim (λ (t : Splice). Moves (pipe_of s) (pipe_of t)) (admits restore_peers peer) _ _
            (λ _. turned s accepting_target receiving e refl) (λ _. rests)
      moved (target_lost e) k =
          cut_short s accepting_target e refl (at_writer s accepting_target e k)
      moved (reads chunk now e _ _) k = takes chunk (not_whole s s.writer k e)
      moved (reads_end e) k = rests
      moved (read_fails e) k = rests
      moved (sends chunk e o _) k = rests
      moved (send_fails chunk e o) k = rests
      moved (receives chunk rest e q) k = turned s receiving (writing chunk) e refl
      moved (writes chunk now e) k =
          gives chunk (concat s.queue ++ held s.reader) (running s (writing chunk) e)
            (at_writer s (writing chunk) e k).0
      moved (write_fails part rest e) k =
          fails part (rest ++ (concat s.queue ++ held s.reader))
            (running s (writing (part ++ rest)) e)
            ((at_writer s (writing (part ++ rest)) e k).0 ∙ simp (append_assoc))
      moved (closes well e q x) k =
          closing s well e (result_of well s.total) refl
            (closed_Kept s well q x (at_writer s receiving e k))
      moved (aborts e) k = rests

  -- What an outcome says of the stream.
  abbrev pub Reported : Option ℕ → Splice → Type 0
  Reported (some n) s = IsWhole n s
  Reported none s = IsCutShort s

  -- In every state that the task can reach, when it has ended with `Ok(n)`, the source was read to
  -- its end, all of it was written in order, and `n` is its length as a u64 and not zero; when it has
  -- ended with an error, what was written is the beginning of what was read.
  pub whole_or_failed :
      (s : Splice) (o : Option ℕ)
      → Reachable backup_peers restore_peers s
      → s.writer ≡ finished o
      → Reported o s
  whole_or_failed s (some n) r e =
      at_writer s (finished (some n)) e (Reachable-Kept backup_peers restore_peers r)
  whole_or_failed s none r e =
      at_writer s (finished none) e (Reachable-Kept backup_peers restore_peers r)
