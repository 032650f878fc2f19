-- ===== src/Relay/Stream.antt =====
-- src/transfer/relay.rs, the task of `Relay::spawn`: where the bytes of the stream are at each moment.
use mathlib.Core.List.{append-nil, append_assoc}
use zfs_evacuation_controlle.Base.{
  ℕ, ◌+◌, ◌%◌, ◌^◌, Bool, true, false, none, some, List, [], ◌∷◌, ◌++◌, ◌≡◌, ◌≢◌, refl, sym, ap,
  ◌∙◌, subst, arith, length, ◌==◌, if_elim, if◌then◌else◌,
}
use zfs_evacuation_controlle.Effect.{IpNet}
use zfs_evacuation_controlle.Relay.{admits}
use zfs_evacuation_controlle.Relay.Splice.{
  Writer, accepting_source, accepting_target, receiving, writing, finished, Reader, unstarted,
  reading, sending, ended, Splice, on_read, on_sent, on_reader_end, on_received, on_written,
  on_failure, on_closed, result_of, Step, source_comes, source_lost, target_comes, target_lost,
  reads, reads_end, read_fails, sends, send_fails, receives, writes, write_fails, closes, aborts,
  Reachable, starts, steps, is_open,
}

abbrev pub concat : List (List ℕ) → List ℕ
concat [] = []
concat (xs ∷ xss) = xs ++ concat xss

concat-snoc : (xss : List (List ℕ)) (xs : List ℕ) → concat (xss ++ xs ∷ []) ≡ concat xss ++ xs
concat-snoc [] xs = append-nil xs
concat-snoc (ys ∷ yss) xs = rw (concat-snoc yss xs) (sym (append_assoc ys (concat yss) xs))

pub length-append : (xs ys : List ℕ) → length (xs ++ ys) ≡ length xs + length ys
length-append [] ys = omega arith
length-append (x ∷ xs) ys = omega (arith, length-append xs ys)

abbrev pub in_hand : Writer → List ℕ
in_hand (writing chunk) = chunk
in_hand _ = []

abbrev pub held : Reader → List ℕ
held (sending chunk) = chunk
held _ = []

-- What has been read and not yet written, in order.
abbrev pub pending : Writer → List (List ℕ) → Reader → List ℕ
pending w q r = in_hand w ++ (concat q ++ held r)

-- The books while the task runs.
abbrev pub Balanced : Writer → Splice → Type 0
Balanced w s =
    (s.consumed ≡ s.delivered ++ pending w s.queue s.reader)
    × (s.total ≡ length s.delivered % 2 ^ 64)

-- The whole stream was read to its end, and written.
abbrev pub IsWhole : ℕ → Splice → Type 0
IsWhole n s =
    (s.reader ≡ ended true)
    × (s.delivered ≡ s.consumed)
    × (n ≡ length s.delivered % 2 ^ 64)
    × (n ≢ 0)

-- What was written is the beginning of what was read.
abbrev pub IsCutShort : Splice → Type 0
IsCutShort s = (rest : List ℕ) × (s.consumed ≡ s.delivered ++ rest)

abbrev pub Kept : Writer → Splice → Type 0
Kept accepting_source s = (s.reader ≡ unstarted) × Balanced accepting_source s
Kept (finished none) s = IsCutShort s
Kept (finished (some n)) s = IsWhole n s
Kept w s = Balanced w s

-- The books of each step, on lists alone.
module _ (d h q c : List ℕ) where
  read_books : (x : List ℕ) → x ≡ d ++ (h ++ (q ++ [])) → x ++ c ≡ d ++ (h ++ (q ++ c))
  read_books x e = rw e (simp (append_assoc, append-nil))

  written_books : (x : List ℕ) → x ≡ d ++ (c ++ (q ++ h)) → x ≡ (d ++ c) ++ (q ++ h)
  written_books x e = e ∙ sym (append_assoc d c (q ++ h))

counted :
    (t : ℕ) (d c : List ℕ)
    → t ≡ length d % 2 ^ 64
    → (t + length c) % 2 ^ 64 ≡ length (d ++ c) % 2 ^ 64
counted t d c e = omega (arith, length-append d c)

module _ (s : Splice) where
  -- The books under what is known of the writer and the reader.
  pub at_writer : (w : Writer) → s.writer ≡ w → Kept s.writer s → Kept w s
  at_writer w e k = subst (λ x. Kept x s) e k

  read_Kept :
      (w : Writer) (chunk : List ℕ) (now : ℕ)
      → s.reader ≡ reading
      → Kept w s
      → Kept w (on_read chunk now s)
  read_Kept accepting_source chunk now e k = cc
  read_Kept accepting_target chunk now e k =
      (read_books s.delivered [] (concat s.queue) chunk s.consumed (rw e at k.0), k.1)
  read_Kept receiving chunk now e k =
      (read_books s.delivered [] (concat s.queue) chunk s.consumed (rw e at k.0), k.1)
  read_Kept (writing c) chunk now e k =
      (read_books s.delivered c (concat s.queue) chunk s.consumed (rw e at k.0), k.1)
  read_Kept (finished none) chunk now e k =
      (k.0 ++ chunk, rw k.1 (append_assoc s.delivered k.0 chunk))
  read_Kept (finished (some n)) chunk now e k = cc

  sent_books :
      (h chunk : List ℕ)
      → s.consumed ≡ s.delivered ++ (h ++ (concat s.queue ++ chunk))
      → s.consumed ≡ s.delivered ++ (h ++ (concat (s.queue ++ chunk ∷ []) ++ []))
  sent_books h chunk b = rw (concat-snoc s.queue chunk, append-nil (concat s.queue ++ chunk)) b

  sent_Kept :
      (w : Writer) (chunk : List ℕ)
      → s.reader ≡ sending chunk
      → is_open w ≡ true
      → Kept w s
      → Kept w (on_sent chunk s)
  sent_Kept accepting_source chunk e o k = cc
  sent_Kept accepting_target chunk e o k = (sent_books [] chunk (rw e at k.0), k.1)
  sent_Kept receiving chunk e o k = (sent_books [] chunk (rw e at k.0), k.1)
  sent_Kept (writing c) chunk e o k = (sent_books c chunk (rw e at k.0), k.1)
  sent_Kept (finished n) chunk e o k = cc

  -- The reader held nothing, or the writer has failed: its end changes no books.
  ended_Kept :
      (w : Writer) (well : Bool) → s.reader ≡ reading → Kept w s → Kept w (on_reader_end well s)
  ended_Kept accepting_source well e k = cc
  ended_Kept accepting_target well e k = (rw e at k.0, k.1)
  ended_Kept receiving well e k = (rw e at k.0, k.1)
  ended_Kept (writing c) well e k = (rw e at k.0, k.1)
  ended_Kept (finished none) well e k = k
  ended_Kept (finished (some n)) well e k = cc

  refused_Kept :
      (w : Writer) (chunk : List ℕ)
      → s.reader ≡ sending chunk
      → is_open w ≡ false
      → Kept w s
      → Kept w (on_reader_end false s)
  refused_Kept accepting_source chunk e o k = cc
  refused_Kept accepting_target chunk e o k = cc
  refused_Kept receiving chunk e o k = cc
  refused_Kept (writing c) chunk e o k = cc
  refused_Kept (finished none) chunk e o k = k
  refused_Kept (finished (some n)) chunk e o k = cc

  received_Kept :
      (chunk : List ℕ) (rest : List (List ℕ))
      → s.queue ≡ chunk ∷ rest
      → Kept receiving s
      → Kept (writing chunk) (on_received chunk rest s)
  received_Kept chunk rest e k = (
    (rw e at k.0) ∙ ap (◌++◌ s.delivered) (append_assoc chunk (concat rest) (held s.reader)),
    k.1,
  )

  written_Kept :
      (chunk : List ℕ) (now : ℕ) → Kept (writing chunk) s → Kept receiving (on_written chunk now s)
  written_Kept chunk now k = (
    written_books s.delivered (held s.reader) (concat s.queue) chunk s.consumed k.0,
    counted s.total s.delivered chunk k.1,
  )

  failed_Kept :
      (part rest : List ℕ)
      → Kept (writing (part ++ rest)) s
      → Kept (finished none) (on_failure part s)
  failed_Kept part rest k =
      let tail = concat s.queue ++ held s.reader in (rest ++ tail, k.0 ∙ simp (append_assoc))

  -- A failed accept: nothing is lost but what waits.
  lost_Kept : (w : Writer) → Balanced w s → Kept (finished none) (on_failure [] s)
  lost_Kept w k = (pending w s.queue s.reader, k.0 ∙ simp (append-nil))

  pub closed_Kept :
      (well : Bool)
      → s.queue ≡ []
      → s.reader ≡ ended well
      → Kept receiving s
      → Kept (finished (result_of well s.total)) (on_closed well s)
  closed_Kept well q e k = by_end well e
    where
      whole : s.consumed ≡ s.delivered
      whole = (rw (q, e) at k.0) ∙ append-nil s.delivered

      by_total :
          (b : Bool)
          → s.reader ≡ ended true
          → (s.total == 0) ≡ b
          → Kept (finished (if b then none else some s.total)) (on_closed well s)
      by_total true e' z = ([], whole ∙ sym (append-nil s.delivered))
      by_total false e' z = (e', sym whole, k.1, λ n. ground arith)

      by_end :
          (v : Bool) → s.reader ≡ ended v → Kept (finished (result_of v s.total)) (on_closed well s)
      by_end false e' = ([], whole ∙ sym (append-nil s.delivered))
      by_end true e' = by_total (s.total == 0) e' refl

module _ (backup_peers restore_peers : List IpNet) where
  Step-Kept :
      {s t : Splice} → Step backup_peers restore_peers s t → Kept s.writer s → Kept t.writer t
  Step-Kept {s} (source_comes peer now e) k =
      if_elim (λ (t : Splice). Kept t.writer t) (admits backup_peers peer) _ _
        (λ _. let b = at_writer s accepting_source e k in ((rw b.0 at b.1.0), b.1.1)) (λ _. k)
  Step-Kept {s} (source_lost e) k =
      lost_Kept s accepting_source (at_writer s accepting_source e k).1
  Step-Kept {s} (target_comes peer now e) k =
      if_elim (λ (t : Splice). Kept t.writer t) (admits restore_peers peer) _ _
        (λ _. at_writer s accepting_target e k) (λ _. k)
  Step-Kept {s} (target_lost e) k = lost_Kept s accepting_target (at_writer s accepting_target e k)
  Step-Kept {s} (reads chunk now e _ _) k = read_Kept s s.writer chunk now e k
  Step-Kept {s} (reads_end e) k = ended_Kept s s.writer true e k
  Step-Kept {s} (read_fails e) k = ended_Kept s s.writer false e k
  Step-Kept {s} (sends chunk e o _) k = sent_Kept s s.writer chunk e o k
  Step-Kept {s} (send_fails chunk e o) k = refused_Kept s s.writer chunk e o k
  Step-Kept {s} (receives chunk rest e q) k =
      received_Kept s chunk rest q (at_writer s receiving e k)
  Step-Kept {s} (writes chunk now e) k = written_Kept s chunk now (at_writer s (writing chunk) e k)
  Step-Kept {s} (write_fails part rest e) k =
      failed_Kept s part rest (at_writer s (writing (part ++ rest)) e k)
  Step-Kept {s} (closes well e q r) k = closed_Kept s well q r (at_writer s receiving e k)
  Step-Kept {s} (aborts e) k =
      subst (λ w. Kept w (on_reader_end false s)) (sym e) (at_writer s (finished none) e k)

  pub Reachable-Kept : {s : Splice} → Reachable backup_peers restore_peers s → Kept s.writer s
  Reachable-Kept (starts now) = (refl, (refl, refl))
  Reachable-Kept (steps r step) = Step-Kept step (Reachable-Kept r)
