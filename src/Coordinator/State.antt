-- ===== src/Coordinator/State.antt =====
-- The coordinator's data in vllm_rlt/pd/engine.py: `PDModelInfo`, `Peer`, `Pending` and the fields of
-- `PDEngine`, and the messages of the control channels. A clock value is a number of ticks.
use vllm_rlt.Common.{
  ℕ, ◌+◌, ◌*◌, ◌-◌, ◌/◌, Bool, true, false, List, [], ◌∷◌, ◌++◌, Option, none, some, String, Dict,
  lookup, total, Result, ok, err, key_error,
}
use vllm_rlt.Scheduler.State.{SamplingParams, Request, RequestOutput, Order}

pub record PdModelInfo : Type 0 where
  pub vocab_size : ℕ
  pub total_ut_steps : ℕ
  pub max_position_embeddings : ℕ

pub data Role : Type 0 where
  prefill decode : Role

abbrev pub same_role : Role → Role → Bool
same_role prefill prefill = true
same_role decode decode = true
same_role prefill decode = false
same_role decode prefill = false

-- What a worker reports when it is ready.
pub record Info : Type 0 where
  pub agent : String
  pub block_size : ℕ
  pub depths : ℕ
  pub num_blocks : ℕ
  pub watermark_blocks : ℕ
  pub max_seqs : ℕ
  pub active_limit : ℕ

-- A worker; its name is its key in `peers`. `info` is read only after the worker has reported it.
pub record Peer : Type 0 where
  pub role : Role
  pub info : Info
  pub blocks : ℕ
  pub slots : ℕ
  pub compute_slots : ℕ
  pub ready : Bool
  pub connected : Bool
  pub stopped : Bool

pub data Phase : Type 0 where
  waiting reserving prefill decode : Phase

abbrev pub is_waiting : Phase → Bool
is_waiting waiting = true
is_waiting reserving = false
is_waiting prefill = false
is_waiting decode = false

pub record Pending : Type 0 where
  pub request : Request
  pub tid : String
  pub trace_id : Option String
  pub created : ℕ
  pub p : Option String
  pub d : Option String
  pub phase : Phase
  pub p_blocks : ℕ
  pub d_blocks : ℕ
  pub cancelled : Bool
  pub p_released : Bool
  pub p_compute_released : Bool
  pub d_released : Bool
  pub finished : Bool
  pub timings : Dict ℕ

-- What the coordinator sends to a worker.
pub data Command : Type 0 where
  reserve :
      (tid : String) (tokens : List ℕ) (params : SamplingParams) (trace_id : Option String)
      (peer : String)
      → Command
  prefill_request :
      (tid : String) (tokens : List ℕ) (params : SamplingParams) (trace_id : Option String)
      (peer : String) (tables : List (List ℕ)) (slot cached_tokens : ℕ)
      → Command
  commit : (tid : String) (count : ℕ) → Command
  ack cancel cancel_safe : (tid : String) → Command
  stop : Command

-- What a worker sends about one transfer.
pub data Event : Type 0 where
  reserved : (tables : List (List ℕ)) (slot cached_tokens : ℕ) → Event
  prefill_started prefill_complete activated released rejected unknown : Event
  committed : (count : ℕ) → Event
  output : (delivered : RequestOutput) → Event

-- `reply` is the error of a profile reply, if it has one.
pub data Message : Type 0 where
  profile_reply : (control_id session_id : String) (reply : Option String) → Message
  fatal : Message
  ready : (info : Info) → Message
  connected stopped : Message
  transfer : (tid : String) (event : Event) → Message

pub record Metric : Type 0 where
  pub request_id : String
  pub transfer_id : String
  pub cancelled : Bool
  pub timings : Dict ℕ

-- `requests` maps an id to the identity of the request object, which is its transfer's id: every
-- request object is held by one transfer. `sent` lists what was sent, the oldest first.
pub record Coordinator : Type 0 where
  pub model_info : PdModelInfo
  pub max_pending_requests : ℕ
  pub max_control_messages : ℕ
  pub request_timeout : ℕ
  pub scheduling_policy : Order
  pub traces : Option (Dict (List ℕ))
  pub peers : Dict Peer
  pub requests : Dict String
  pub transfers : Dict Pending
  pub outputs : List RequestOutput
  pub metrics : List Metric
  pub profile_session : Option String
  pub profile_replies : Dict (Dict (Option String))
  pub num_used_blocks : ℕ
  pub closed : Bool
  pub failure : Bool
  pub sent : List (String × Command)

-- `_blocks`.
unfoldable pub blocks_for : Peer → ℕ → ℕ
blocks_for peer tokens =
    (tokens + peer.info.block_size - 1) / peer.info.block_size * peer.info.depths

-- `self.peers[name]`, for a name that may be None.
unfoldable pub get_peer : Option String → Coordinator → Result Peer
get_peer none c = err key_error
get_peer (some name) c = elim (lookup name c.peers) [ none ↦ err key_error | some peer ↦ ok peer ]

-- `_send`.
unfoldable pub send : Option String → Command → Coordinator → Result Coordinator
send none command c = err key_error
send (some name) command c = elim (lookup name c.peers) [
  | none ↦ err key_error
  | some peer ↦ ok (record c { sent = c.sent ++ (name, command) ∷ [] })
]

-- `self.cache_manager.num_used_blocks = sum(p.blocks for p in self.peers.values())`.
unfoldable pub count_blocks : Coordinator → Coordinator
count_blocks c = record c { num_used_blocks = total (λ peer. peer.blocks) c.peers }
