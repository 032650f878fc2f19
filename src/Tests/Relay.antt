-- ===== src/Tests/Relay.antt =====
-- A stream of two bytes from one host to another.
use zfs_evacuation_controlle.Base.{
  ◌+◌, ◌*◌, ◌≤◌, true, some, List, [], ◌∷◌, ◌≡◌, ◌⊎◌, refl, arith, length,
}
use mathlib.Core.Logic.{◌↔◌}
use zfs_evacuation_controlle.Effect.{IpAddr, v4, IpNet}
use zfs_evacuation_controlle.Relay.{admits, host, in_range}
use zfs_evacuation_controlle.Relay.Splice.{
  chunk_size, buffer_chunks, Splice, Step, Reachable, Writer, Reader, spawned, on_read, on_sent,
  on_reader_end, on_received, on_written, on_closed,
}
use zfs_evacuation_controlle.Relay.Stream.{pending, IsWhole}
use zfs_evacuation_controlle.Relay.Pipe.{Moves, pipe_of, Step-Moves, whole_or_failed}
use zfs_evacuation_controlle.Relay.Peers.{IsAdmitted, only-IsAdmitted}
use zfs_evacuation_controlle.Relay.Buffer.{pending_bound}
use zfs_evacuation_controlle.Relay.Ranges.{HasPrefixOf, in_range_iff}

abbrev sender : IpAddr
sender = v4 167772161

abbrev receiver : IpAddr
receiver = v4 167772162

abbrev from : List IpNet
from = host sender ∷ []

abbrev to : List IpNet
to = host receiver ∷ []

abbrev connected : Splice
connected =
    let s = spawned 0 in
    record s {
      writer = Writer.accepting_target;
      reader = Reader.reading;
      src = some sender;
      last_activity = 1;
      source_connected = true;
    }

abbrev queued : Splice
queued = on_sent (7 ∷ 8 ∷ []) (on_read (7 ∷ 8 ∷ []) 2 connected)

abbrev both_there : Splice
both_there =
    let s = queued in record s { writer = Writer.receiving; dst = some receiver; last_activity = 3 }

abbrev in_transit : Splice
in_transit = on_received (7 ∷ 8 ∷ []) [] both_there

abbrev all_read : Splice
all_read = on_reader_end true (on_written (7 ∷ 8 ∷ []) 4 in_transit)

source-Step : Step from to (spawned 0) connected
unfolding admits host
source-Step = Step.source_comes sender 1 refl

target-Step : Step from to queued both_there
unfolding admits host
target-Step = Step.target_comes receiver 3 refl

in_transit-Reachable : Reachable from to in_transit
in_transit-Reachable =
    Reachable.steps
      (Reachable.steps
        (Reachable.steps
          (Reachable.steps (Reachable.steps (Reachable.starts 0) source-Step)
            (Step.reads (7 ∷ 8 ∷ []) 2 refl (omega arith) (omega arith)))
          (Step.sends (7 ∷ 8 ∷ []) refl refl (omega arith)))
        target-Step)
      (Step.receives (7 ∷ 8 ∷ []) [] refl refl)

closed-Reachable : Reachable from to (on_closed true all_read)
closed-Reachable =
    Reachable.steps
      (Reachable.steps (Reachable.steps in_transit-Reachable (Step.writes (7 ∷ 8 ∷ []) 4 refl))
        (Step.reads_end refl))
      (Step.closes true refl refl refl)

Step-Moves_example : Moves (pipe_of in_transit) (pipe_of (on_written (7 ∷ 8 ∷ []) 4 in_transit))
Step-Moves_example = Step-Moves from to in_transit-Reachable (Step.writes (7 ∷ 8 ∷ []) 4 refl)

whole_or_failed_example : IsWhole 2 (on_closed true all_read)
whole_or_failed_example =
    whole_or_failed from to (on_closed true all_read) (some 2) closed-Reachable refl

pending_bound_example :
    (length in_transit.queue ≤ buffer_chunks)
    × (length (pending in_transit.writer in_transit.queue in_transit.reader)
        ≤ (buffer_chunks + 2) * chunk_size)
pending_bound_example = pending_bound from to in_transit in_transit-Reachable

only-IsAdmitted_example :
    ((in_transit.consumed ≡ []) ⊎ IsAdmitted from in_transit.src)
    × ((in_transit.delivered ≡ []) ⊎ IsAdmitted to in_transit.dst)
only-IsAdmitted_example = only-IsAdmitted from to in_transit in_transit-Reachable

abbrev subnet : IpNet
subnet = record { addr = v4 167772160; prefix = 24 }

in_range_iff_example : (in_range subnet sender ≡ true) ↔ HasPrefixOf subnet sender
in_range_iff_example = in_range_iff subnet sender (omega arith) (omega arith) (omega arith)
