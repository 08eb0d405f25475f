-- ===== src/Engine/Tokens/Delivered.antt =====
-- `_deliver_coda` and `_collect_coda` of vllm_rlt/engine/llm_engine.py keep every request
-- within the tokens it asked for.
use vllm_rlt.Common.{
  ℕ, ◌-◌, ◌≡◌, subst, inl, inr, Bool, false, not, ◌||◌, List, [], ◌∷◌, ◌++◌, none, some, lookup, ok,
  raise_if, runtime_error, length, if◌then◌else◌, arith, Option-cases, if-cases, Ensures,
  bind-Ensures, Ensures-ok, All, All-append, All-lookup, ◌==◌,
}
use vllm_rlt.Scheduler.State.{Stage, Request, RequestOutput, from_request}
use vllm_rlt.Scheduler.Queues.{enqueue}
use vllm_rlt.Scheduler.Batches.{ScheduledItem}
use vllm_rlt.Engine.State.{Ticket, Engine, Runner, registered, enqueue_request}
use vllm_rlt.Engine.Tokens.{
  emit_token, queue_in, after_coda, update_coda, deliver_one, deliver_items, deliver_coda,
  collect_tickets, collect_coda,
}
use vllm_rlt.Engine.Tokens.Productive.{
  IsProductive, emit_token-Emitted, AllProductive, IsPaired, Kept, finish_or-Kept,
  enqueue-Productive,
}

pub registered-Productive :
    (q r : Request) (e : Engine)
    → AllProductive e
    → registered q e.world.scheduler ≡ some r
    → IsProductive r
unfolding registered
registered-Productive q r e all h =
    elim (Option-cases (lookup q.request_id e.world.scheduler.requests)) [
      | inl none_at ↦ absurd (let g = rw (none_at, registered) at h in ground arith)
      | inr at ↦
          let g : (if at.0.ident == q.ident then some at.0 else none) ≡ some r =
            rw (at.1, registered) at h in
          let same : at.0 ≡ r = ground arith in
          subst IsProductive same
            (All-lookup IsProductive q.request_id at.0 e.world.scheduler.requests all at.1)
    ]

queue_in-Productive :
    (stage : Stage) (r : Request) (e : Engine)
    → IsProductive r
    → AllProductive e
    → Ensures (λ done. IsPaired (from_request done.0) × AllProductive done.1) (queue_in stage r e)
unfolding queue_in enqueue_request enqueue from_request
queue_in-Productive stage r e productive all =
    (productive.0, enqueue-Productive r.request_id stage e all)

pub update_coda-Kept :
    (runner : Runner) (token : ℕ) (r : Request) (e : Engine)
    → IsProductive r
    → AllProductive e
    → Ensures Kept (update_coda runner token r e)
unfolding update_coda emit_token
update_coda-Kept runner token r e productive all =
    finish_or-Kept runner (queue_in (after_coda e.config)) _ _ e all
      (emit_token-Emitted e.config token r.loops_done r productive)
      (λ f p h.
        queue_in-Productive (after_coda e.config) (emit_token e.config token r.loops_done r).0 f p
          h)

deliver_one-Kept :
    (runner : Runner) (index token depth : ℕ) (r : Request) (e : Engine)
    → IsProductive r
    → AllProductive e
    → Ensures Kept (deliver_one runner index token depth r e)
unfolding deliver_one emit_token from_request
deliver_one-Kept runner index token depth r e productive all =
    let r' = record r { num_output_placeholders = r.num_output_placeholders - 1 } in
    bind-Ensures Kept (raise_if (not (index == length r.generated_token_ids)) runtime_error) _
      (λ a ea.
        bind-Ensures Kept (raise_if (not (r.num_output_placeholders == 1)) runtime_error) _ (λ b eb.
          finish_or-Kept runner (λ s f. ok (s, f)) _ _ e all
            (emit_token-Emitted e.config token depth r' productive) (λ f p h. (p.0, h))))

deliver_items-Kept :
    (runner : Runner) (items : List ScheduledItem) (indices depths tokens : List ℕ) (e : Engine)
    → AllProductive e
    → Ensures Kept (deliver_items runner items indices depths tokens e)
unfolding deliver_items
deliver_items-Kept runner [] indices depths tokens e all = (tt, all)
deliver_items-Kept runner (item ∷ items) [] depths tokens e all = tt
deliver_items-Kept runner (item ∷ items) (index ∷ indices) [] tokens e all = tt
deliver_items-Kept runner (item ∷ items) (index ∷ indices) (depth ∷ depths) [] e all = tt
deliver_items-Kept runner (item ∷ items) (index ∷ indices) (depth ∷ depths) (token ∷ tokens) e all =
    elim (Option-cases (registered item.request e.world.scheduler)) [
      | inl h ↦ rw (h, deliver_items) (deliver_items-Kept runner items indices depths tokens e all)
      | inr h ↦
          rw (h.1, deliver_items)
            (bind-Ensures Kept (deliver_one runner index token depth h.0 e) _ (λ once g.
              let first = Ensures-ok Kept (deliver_one runner index token depth h.0 e) g (
                deliver_one-Kept runner index token depth h.0 e
                  (registered-Productive item.request h.0 e all h.1) all) in
              bind-Ensures Kept (deliver_items runner items indices depths tokens once.1) _
                (λ rest k.
                  let later =
                    Ensures-ok Kept (deliver_items runner items indices depths tokens once.1) k
                      (deliver_items-Kept runner items indices depths tokens once.1 first.1) in
                  let both : All IsPaired (once.0 ++ rest.0) × AllProductive rest.1 =
                    (All-append IsPaired once.0 rest.0 first.0 later.0, later.1) in
                  both)))
    ]

abbrev KeptTickets : List RequestOutput × List Ticket × Engine → Type 0
KeptTickets (outputs, pending, e) = All IsPaired outputs × AllProductive e

collect_tickets-Kept :
    (runner : Runner) (wait : Bool) (tickets : List Ticket) (e : Engine)
    → AllProductive e
    → Ensures KeptTickets (collect_tickets runner wait tickets e)
unfolding collect_tickets deliver_coda
collect_tickets-Kept runner wait [] e all = (tt, all)
collect_tickets-Kept runner wait (t ∷ tickets) e all =
    if-cases (Ensures KeptTickets) (t.is_ready || wait)
      (λ due. bind-Ensures KeptTickets (deliver_coda runner t e) _ (λ once g.
        let first =
          Ensures-ok Kept (deliver_coda runner t e) g
            (deliver_items-Kept runner t.items t.output_indices t.depths t.tokens e all) in
        bind-Ensures KeptTickets (collect_tickets runner false tickets once.1) _ (λ rest k.
          let later =
            Ensures-ok KeptTickets (collect_tickets runner false tickets once.1) k
              (collect_tickets-Kept runner false tickets once.1 first.1) in
          let both : All IsPaired (once.0 ++ rest.0) × AllProductive rest.2 =
            (All-append IsPaired once.0 rest.0 first.0 later.0, later.1) in
          both)))
      (λ not_due. bind-Ensures KeptTickets (collect_tickets runner wait tickets e) _ (λ rest k.
        let later =
          Ensures-ok KeptTickets (collect_tickets runner wait tickets e) k
            (collect_tickets-Kept runner wait tickets e all) in
        let both : All IsPaired rest.0 × AllProductive rest.2 = (later.0, later.1) in both))

-- Collecting the outputs that are due keeps every registered request below the tokens it asked for,
-- with an exit depth for each token, and so do the outputs that it returns.
pub collect_coda-Kept :
    (runner : Runner) (wait : Bool) (e : Engine)
    → AllProductive e
    → Ensures Kept (collect_coda runner wait e)
unfolding collect_coda
collect_coda-Kept runner wait e all =
    bind-Ensures Kept (collect_tickets runner wait e.pending_coda e) _ (λ done k.
      let kept =
        Ensures-ok KeptTickets (collect_tickets runner wait e.pending_coda e) k
          (collect_tickets-Kept runner wait e.pending_coda e all) in
      let both : All IsPaired done.0 × AllProductive done.2 = (kept.0, kept.1) in both)
