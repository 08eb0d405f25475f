-- ===== src/Transfer/Tests.antt =====
-- Instances of the theorems about vllm_rlt/pd/transport.py.
use vllm_rlt.Common.{
  ℕ, Result, ◌+◌, ◌≤◌, ◌<◌, ◌≡◌, ◌≢◌, refl, ◌⊎◌, true, false, not, List, [], ◌∷◌, map, ok, err,
  value_error, All, arith, ◌==◌, if◌then◌else◌,
}
use vllm_rlt.Transfer.Segments.{Segment, Chunk, partition_segments}
use vllm_rlt.Config.{PdConfig, Seconds}
use vllm_rlt.Scheduler.State.{pos}
use vllm_rlt.Transfer.Partition.{Fits, total_bytes, chunk_bytes}
use vllm_rlt.Transfer.Partition.Sent.{bytes_of, carried, local_side, remote_side}
use vllm_rlt.Transfer.Partition.Delivered.{partition_segments-Carried}
use vllm_rlt.Transfer.Inflight.{
  Connector, Status, Submitted, submit, poll, busy, pending_bytes, IsAccounted, submit-IsAccounted,
  Transfer,
}
use vllm_rlt.Transfer.Polled.{Polled, poll-Polled}

abbrev source : List Segment
source =
    record { address = 100; amount = 6; device = 0 }
    ∷ record { address = 300; amount = 5; device = 0 }
    ∷ []

abbrev target : List Segment
target =
    record { address = 900; amount = 6; device = 1 }
    ∷ record { address = 700; amount = 5; device = 1 }
    ∷ []

partition_segments-Carried_example :
    ((partition_segments source target 4 8 ≡ err value_error)
      × (map (λ s. s.amount) source ≢ map (λ s. s.amount) target))
    ⊎ ((chunks : List Chunk) × (partition_segments source target 4 8 ≡ ok chunks)
        × (map (λ s. s.amount) source ≡ map (λ s. s.amount) target)
        × All (Fits 4 8) chunks
        × (chunk_bytes chunks ≡ total_bytes source)
        × (carried local_side chunks ≡ bytes_of source)
        × (carried remote_side chunks ≡ bytes_of target))
partition_segments-Carried_example =
    partition_segments-Carried source target 4 8 (omega arith) (omega arith)

abbrev sizes : Result (List Chunk) → List ℕ
sizes (err raised) = []
sizes (ok chunks) = map (λ c. c.size) chunks

partition_segments_test : sizes (partition_segments source target 4 8) ≡ 4 ∷ 4 ∷ 3 ∷ []
unfolding partition_segments
partition_segments_test = refl

abbrev deployment : PdConfig
deployment = record {
  prefill_devices = 0 ∷ [];
  decode_devices = 1 ∷ [];
  max_pending_requests = 256;
  transfer_chunk_bytes = 4;
  max_inflight_bytes = 16;
  max_transfer_descriptors = 8;
  max_control_messages = 32;
  startup_timeout = Seconds.finite (pos 300);
  request_timeout = Seconds.finite (pos 300);
  shutdown_timeout = Seconds.finite (pos 30);
  backend = "UCX";
}

abbrev resting : Connector
resting = record {
  transfer_chunk_bytes = 4;
  max_inflight_bytes = 16;
  pending = [];
  inflight_bytes = 0;
  bytes_sent = 0;
  transfers = 0;
}

abbrev pieces : List Chunk
pieces = elim (partition_segments source target 4 8) [ err raised ↦ [] | ok chunks ↦ chunks ]

abbrev connector : Connector
connector = record {
  transfer_chunk_bytes = 8;
  max_inflight_bytes = 16;
  pending = record { handle = 0; transfer_id = "a"; sequence = 0; size = 8 } ∷ [];
  inflight_bytes = 8;
  bytes_sent = 0;
  transfers = 0;
}

connector-IsAccounted : IsAccounted connector
unfolding pending_bytes
connector-IsAccounted = record { counted = refl; within = omega arith }

submit-IsAccounted_example :
    ((submit "b" 0 8 1 true connector ≡ err value_error) × (8 < 8))
    ⊎ (((submit "b" 0 8 1 true connector ≡ ok (Submitted.full, false, connector)) × (16 < 8 + 8))
        ⊎ ((c' : Connector) × (submit "b" 0 8 1 true connector
              ≡ ok (Submitted.queued, not true, c'))
            × (8 ≤ 8)
            × (8 + 8 ≤ 16)
            × IsAccounted c'
            × (pending_bytes c'.pending ≡ pending_bytes connector.pending + 8)
            × (busy "b" c' ≡ true)))
submit-IsAccounted_example = submit-IsAccounted "b" 0 8 1 true connector connector-IsAccounted

-- One write has finished, and one runs.
abbrev two_writes : Connector
two_writes = record connector {
  pending =
      record { handle = 0; transfer_id = "a"; sequence = 0; size = 8 }
      ∷ record { handle = 1; transfer_id = "b"; sequence = 0; size = 4 }
      ∷ [];
  inflight_bytes = 12;
}

two_writes-IsAccounted : IsAccounted two_writes
unfolding pending_bytes
two_writes-IsAccounted = record { counted = refl; within = omega arith }

abbrev first_done : Transfer → Status
first_done t = if t.handle == 0 then Status.done else Status.running

poll-Polled_example :
    Polled first_done two_writes.pending
      (record two_writes { pending = [] })
      (poll first_done two_writes)
poll-Polled_example = poll-Polled first_done two_writes two_writes-IsAccounted
