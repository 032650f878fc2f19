-- ===== src/Relay/Splice.antt =====
-- src/transfer/relay.rs, the task of `Relay::spawn`: the writer, which accepts both connections and
-- writes to the target, and the reader that it starts, with the bounded queue between them. Every
-- wait of either is a point where the other may go on. Bytes are numbers; the clock is arbitrary.
use zfs_evacuation_controlle.Base.{
  ℕ, ◌+◌, ◌*◌, ◌%◌, ◌^◌, ◌≤◌, ◌<◌, Bool, true, false, Option, none, some, List, [], ◌∷◌, ◌++◌, ◌≡◌,
  length, ◌==◌, if◌then◌else◌,
}
use zfs_evacuation_controlle.Effect.{IpAddr, IpNet}
use zfs_evacuation_controlle.Relay.{admits}

abbrev pub chunk_size : ℕ
chunk_size = 256 * 1024

abbrev pub buffer_chunks : ℕ
buffer_chunks = 256

-- `finished none` is an error, `finished (some total)` is `Ok(total)`.
pub data Writer : Type 0 where
  accepting_source accepting_target receiving : Writer
  writing : List ℕ → Writer
  finished : Option ℕ → Writer

-- `ended true` is `Ok(())`.
pub data Reader : Type 0 where
  unstarted reading : Reader
  sending : List ℕ → Reader
  ended : Bool → Reader

-- `src` and `dst`: the peers of the open streams. `consumed` is what has been read from the source,
-- and `delivered` what has been written to the target.
pub record Splice : Type 0 where
  pub writer : Writer
  pub reader : Reader
  pub queue : List (List ℕ)
  pub src : Option IpAddr
  pub dst : Option IpAddr
  pub total : ℕ
  pub bytes : ℕ
  pub last_activity : ℕ
  pub source_connected : Bool
  pub consumed : List ℕ
  pub delivered : List ℕ

abbrev pub spawned : ℕ → Splice
spawned now = record {
  writer = accepting_source;
  reader = unstarted;
  queue = [];
  src = none;
  dst = none;
  total = 0;
  bytes = 0;
  last_activity = now;
  source_connected = false;
  consumed = [];
  delivered = [];
}

abbrev with_source : IpAddr → ℕ → Splice → Splice
with_source peer now s = record s {
  writer = accepting_target;
  reader = reading;
  src = some peer;
  last_activity = now;
  source_connected = true;
}

-- A connection to the backup port.
abbrev pub on_source : List IpNet → IpAddr → ℕ → Splice → Splice
on_source allowed peer now s = if admits allowed peer then with_source peer now s else s

abbrev with_target : IpAddr → ℕ → Splice → Splice
with_target peer now s = record s { writer = receiving; dst = some peer; last_activity = now }

-- A connection to the restore port.
abbrev pub on_target : List IpNet → IpAddr → ℕ → Splice → Splice
on_target allowed peer now s = if admits allowed peer then with_target peer now s else s

-- The reader: `src.read`, and `tx.send`.
abbrev pub on_read : List ℕ → ℕ → Splice → Splice
on_read chunk now s = record s {
  reader = sending chunk;
  consumed = s.consumed ++ chunk;
  last_activity = now;
}

abbrev pub on_sent : List ℕ → Splice → Splice
on_sent chunk s = record s { reader = reading; queue = s.queue ++ chunk ∷ [] }

abbrev pub on_reader_end : Bool → Splice → Splice
on_reader_end well s = record s { reader = ended well }

-- The writer: `rx.recv`, `dst.write_all`, and its end.
abbrev pub on_received : List ℕ → List (List ℕ) → Splice → Splice
on_received chunk rest s = record s { writer = writing chunk; queue = rest }

abbrev pub on_written : List ℕ → ℕ → Splice → Splice
on_written chunk now s =
    let total = (s.total + length chunk) % 2 ^ 64 in
    record s {
      writer = receiving;
      delivered = s.delivered ++ chunk;
      total = total;
      bytes = total;
      last_activity = now;
    }

abbrev pub on_failure : List ℕ → Splice → Splice
on_failure part s = record s { writer = finished none; delivered = s.delivered ++ part }

-- A reader that failed fails the task, and so does an empty stream.
abbrev pub result_of : Bool → ℕ → Option ℕ
result_of false total = none
result_of true total = if total == 0 then none else some total

abbrev pub on_closed : Bool → Splice → Splice
on_closed well s = record s { writer = finished (result_of well s.total) }

-- The receiving half of the queue goes with the task.
abbrev pub is_open : Writer → Bool
is_open (finished _) = false
is_open _ = true

module _ (backup_peers restore_peers : List IpNet) where
  pub data Step (s : Splice) : Splice → Type 0 where
    source_comes :
        (peer : IpAddr) (now : ℕ)
        → s.writer ≡ accepting_source
        → Step s (on_source backup_peers peer now s)
    source_lost : s.writer ≡ accepting_source → Step s (on_failure [] s)
    target_comes :
        (peer : IpAddr) (now : ℕ)
        → s.writer ≡ accepting_target
        → Step s (on_target restore_peers peer now s)
    target_lost : s.writer ≡ accepting_target → Step s (on_failure [] s)
    reads :
        (chunk : List ℕ) (now : ℕ)
        → s.reader ≡ reading
        → 0 < length chunk
        → length chunk ≤ chunk_size
        → Step s (on_read chunk now s)
    reads_end : s.reader ≡ reading → Step s (on_reader_end true s)
    read_fails : s.reader ≡ reading → Step s (on_reader_end false s)
    sends :
        (chunk : List ℕ)
        → s.reader ≡ sending chunk
        → is_open s.writer ≡ true
        → length s.queue < buffer_chunks
        → Step s (on_sent chunk s)
    send_fails :
        (chunk : List ℕ)
        → s.reader ≡ sending chunk
        → is_open s.writer ≡ false
        → Step s (on_reader_end false s)
    receives :
        (chunk : List ℕ) (rest : List (List ℕ))
        → s.writer ≡ receiving
        → s.queue ≡ chunk ∷ rest
        → Step s (on_received chunk rest s)
    writes : (chunk : List ℕ) (now : ℕ) → s.writer ≡ writing chunk → Step s (on_written chunk now s)
    write_fails :
        (part rest : List ℕ) → s.writer ≡ writing (part ++ rest) → Step s (on_failure part s)
    closes :
        (well : Bool)
        → s.writer ≡ receiving
        → s.queue ≡ []
        → s.reader ≡ ended well
        → Step s (on_closed well s)
    aborts : s.writer ≡ finished none → Step s (on_reader_end false s)

  pub data Reachable : Splice → Type 0 where
    starts : (now : ℕ) → Reachable (spawned now)
    steps : {s t : Splice} → Reachable s → Step s t → Reachable t
