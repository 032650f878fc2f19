-- ===== src/Relay/Buffer.antt =====
-- src/transfer/relay.rs, the task of `Relay::spawn`: how much it holds in memory.
use zfs_evacuation_controlle.Base.{
  ℕ, ◌+◌, ◌*◌, ◌≤◌, List, [], ◌∷◌, ◌++◌, ◌≡◌, refl, subst, arith, length, if_elim,
}
use zfs_evacuation_controlle.Effect.{IpNet}
use zfs_evacuation_controlle.Relay.{admits}
use zfs_evacuation_controlle.Relay.Splice.{
  chunk_size, buffer_chunks, Writer, Reader, receiving, Splice, Step, source_comes, source_lost,
  target_comes, target_lost, reads, reads_end, read_fails, sends, send_fails, receives, writes,
  write_fails, closes, aborts, Reachable, starts, steps,
}
use zfs_evacuation_controlle.Relay.Stream.{concat, in_hand, held, pending, length-append}

abbrev AllFit : List (List ℕ) → Type 0
AllFit [] = Unit
AllFit (chunk ∷ rest) = (length chunk ≤ chunk_size) × AllFit rest

AllFit-snoc :
    (q : List (List ℕ)) (c : List ℕ) → AllFit q → length c ≤ chunk_size → AllFit (q ++ c ∷ [])
AllFit-snoc [] c h f = (f, tt)
AllFit-snoc (x ∷ q) c h f = (h.0, AllFit-snoc q c h.1 f)

length-concat : (q : List (List ℕ)) → AllFit q → length (concat q) ≤ length q * chunk_size
length-concat [] h = omega arith
length-concat (c ∷ q) h =
    let fits = h.0 in omega (arith, length-append c (concat q), length-concat q h.1)

length-snoc : (q : List (List ℕ)) (c : List ℕ) → length (q ++ c ∷ []) ≡ length q + 1
length-snoc [] c = omega arith
length-snoc (x ∷ q) c = omega (arith, length-snoc q c)

record Fits (w : Writer) (q : List (List ℕ)) (r : Reader) : Type 0 where
  few : length q ≤ buffer_chunks
  chunks : AllFit q
  writers : length (in_hand w) ≤ chunk_size
  readers : length (held r) ≤ chunk_size

-- The writer or the reader lets go of what it holds.
emptied : (w v : Writer) (q : List (List ℕ)) (r : Reader) → in_hand v ≡ [] → Fits w q r → Fits v q r
emptied w v q r e f = record {
  few = f.few;
  chunks = f.chunks;
  writers = rw e (omega arith);
  readers = f.readers;
}

let_go : (w : Writer) (q : List (List ℕ)) (r x : Reader) → held x ≡ [] → Fits w q r → Fits w q x
let_go w q r x e f = record {
  few = f.few;
  chunks = f.chunks;
  writers = f.writers;
  readers = rw e (omega arith);
}

abbrev FitsAll : Splice → Type 0
FitsAll s = Fits s.writer s.queue s.reader

module _ (backup_peers restore_peers : List IpNet) where
  Step-Fits : {s t : Splice} → Step backup_peers restore_peers s t → FitsAll s → FitsAll t
  Step-Fits {s} (source_comes peer now e) f =
      if_elim FitsAll (admits backup_peers peer) _ _
        (λ _. let_go _ _ _ Reader.reading refl (emptied _ Writer.accepting_target _ _ refl f))
        (λ _. f)
  Step-Fits (source_lost e) f = emptied _ _ _ _ refl f
  Step-Fits (target_comes peer now e) f =
      if_elim FitsAll (admits restore_peers peer) _ _ (λ _. emptied _ receiving _ _ refl f) (λ _. f)
  Step-Fits (target_lost e) f = emptied _ _ _ _ refl f
  Step-Fits (reads chunk now e _ small) f = record {
    few = f.few;
    chunks = f.chunks;
    writers = f.writers;
    readers = small;
  }
  Step-Fits (reads_end e) f = let_go _ _ _ _ refl f
  Step-Fits (read_fails e) f = let_go _ _ _ _ refl f
  Step-Fits {s} (sends chunk e o room) f = record {
    few = omega (arith, length-snoc s.queue chunk);
    chunks =
        AllFit-snoc s.queue chunk f.chunks (subst (λ r. length (held r) ≤ chunk_size) e f.readers);
    writers = f.writers;
    readers = omega arith;
  }
  Step-Fits (send_fails chunk e _) f = let_go _ _ _ _ refl f
  Step-Fits {s} (receives chunk rest e q) f =
      let all = subst AllFit q f.chunks in
      let few = subst (λ x. length x ≤ buffer_chunks) q f.few in
      record { few = omega arith; chunks = all.1; writers = all.0; readers = f.readers }
  Step-Fits (writes chunk now e) f = emptied _ _ _ _ refl f
  Step-Fits (write_fails part rest e) f = emptied _ _ _ _ refl f
  Step-Fits (closes well e q r) f = emptied _ _ _ _ refl f
  Step-Fits (aborts e) f = let_go _ _ _ _ refl f

  Reachable-Fits : {s : Splice} → Reachable backup_peers restore_peers s → FitsAll s
  Reachable-Fits (starts now) = record {
    few = omega arith;
    chunks = tt;
    writers = omega arith;
    readers = omega arith;
  }
  Reachable-Fits (steps r step) = Step-Fits step (Reachable-Fits r)

  -- In every state that the task can reach, at most 256 chunks are queued, and what was read and is
  -- not yet written is at most 258 chunks of 256 KiB: the queue, and one chunk on either side.
  pub pending_bound :
      (s : Splice)
      → Reachable backup_peers restore_peers s
      → (length s.queue ≤ buffer_chunks)
        × (length (pending s.writer s.queue s.reader) ≤ (buffer_chunks + 2) * chunk_size)
  pending_bound s r =
      let f = Reachable-Fits r in
      let few = f.few in
      let writers = f.writers in
      let readers = f.readers in
      (
        few,
        omega (
          arith,
          length-append (in_hand s.writer) (concat s.queue ++ held s.reader),
          length-append (concat s.queue) (held s.reader),
          length-concat s.queue f.chunks,
        ),
      )
