-- ===== src/Preemption/Victims.antt =====
-- The victim of vllm_rlt/engine/preemption.py is a safe one, and the greatest.
use vllm_rlt.Common.{
  ◌≡◌, refl, sym, ◌∙◌, subst, ◌⊎◌, inl, inr, Bool, true, false, List, [], ◌∷◌, Option, none, some,
  String, Dict, ok, arith, All, Ensures, bind-Ensures, Ensures-mono, ◌||◌, not, ◌>>=◌, >>=-eq-ok,
  str_eq, ◌==◌, Bool-cases, if◌then◌else◌,
}
use vllm_rlt.KvCache.State.{Cache, has_transfer_lease}
use vllm_rlt.KvCache.Pages.{has_text}
use vllm_rlt.Scheduler.State.{le_int, Stage, same_stage, Request, World}
use vllm_rlt.Scheduler.Queues.Sorted.{le_int_trans}
use vllm_rlt.Preemption.{
  is_preemption_candidate, Key, lt_key, victim_key, better, greatest, select_preemption_victim,
}

-- No greater key: the relation of `max`.
lt_key_trans : (a b c : Key) → lt_key a b ≡ false → lt_key b c ≡ false → lt_key a c ≡ false
lt_key_trans (p, m) (q, n) (r, k) h l = ground (
  arith,
  le_int_trans r q p,
  le_int_trans p q r,
  le_int_trans p r q,
  le_int_trans q r p,
  le_int_trans q p r,
  le_int_trans r p q,
)

lt_key-asym : (a b : Key) → lt_key a b ≡ true → lt_key b a ≡ false
lt_key-asym (p, m) (q, n) h = ground arith

lt_key_irrefl : (a : Key) → lt_key a a ≡ false
lt_key_irrefl (p, m) = ground arith

-- What makes a request a safe victim.
pub record IsSafe (requester : Request) (priority_only : Bool) (excluded : List String) (c : Cache)
    (r : Request) : Type 0 where
  pub another : str_eq r.request_id requester.request_id ≡ false
  pub admitted : (same_stage r.stage Stage.waiting || same_stage r.stage Stage.receiving) ≡ false
  pub settled : r.num_output_placeholders ≡ 0
  pub free_to_go : has_text r.request_id excluded ≡ false
  pub unleased : has_transfer_lease r.request_id c ≡ ok false
  pub lower :
      priority_only ≡ true
      → le_int r.sampling_params.priority requester.sampling_params.priority ≡ false

lease_free :
    (held allowed : Bool)
    → (if held then false else allowed) ≡ true
    → (held ≡ false) × (allowed ≡ true)
lease_free true allowed h = absurd (cc)
lease_free false allowed h = (refl, h)

if_false : {A : Type 0} (b : Bool) (x y : A) → b ≡ false → (if b then x else y) ≡ y
if_false true x y h = absurd (cc)
if_false false x y h = refl

lower_of : (only le : Bool) → (not only || not le) ≡ true → only ≡ true → le ≡ false
lower_of only true h k = absurd (ground arith)
lower_of only false h k = refl

is_preemption_candidate-IsSafe :
    (requester : Request) (priority_only : Bool) (excluded : List String) (c : Cache) (r : Request)
    → is_preemption_candidate r requester priority_only excluded c ≡ ok true
    → IsSafe requester priority_only excluded c r
unfolding is_preemption_candidate
is_preemption_candidate-IsSafe requester priority_only excluded c r e =
    let test =
      str_eq r.request_id requester.request_id
      || (same_stage r.stage Stage.waiting || same_stage r.stage Stage.receiving)
      || (not (r.num_output_placeholders == 0) || has_text r.request_id excluded) in
    elim (Bool-cases test) [
      | inl bad ↦ absurd (ground arith)
      | inr clear ↦
          let e' : (do
            leased ← has_transfer_lease r.request_id c
            ok (
                if leased
                then false
                else not priority_only
                  || not (le_int r.sampling_params.priority requester.sampling_params.priority)))
              ≡ ok true =
            sym (if_false test (ok false) _ clear) ∙ e in
          let (held, e₁, e₂) = >>=-eq-ok (has_transfer_lease r.request_id c) _ e' in
          let (free_, low) =
            lease_free held
              (not priority_only
                || not (le_int r.sampling_params.priority requester.sampling_params.priority))
              (cc e₂) in
          record {
            another = ground arith;
            admitted = ground arith;
            settled = ground arith;
            free_to_go = ground arith;
            unleased = cc (e₁, free_);
            lower =
                lower_of priority_only
                  (le_int r.sampling_params.priority requester.sampling_params.priority) low;
          }
    ]

module _ (requester : Request) (priority_only : Bool) (excluded : List String) (c : Cache) where
  abbrev pub Safe : Request → Type 0
  Safe r = is_preemption_candidate r requester priority_only excluded c ≡ ok true

  -- No safe request with a greater key.
  abbrev pub Bounds : Key → String × Request → Type 0
  Bounds best e = Safe e.1 → (k : Key) → victim_key e.1 c ≡ ok k → lt_key best k ≡ false

  abbrev Chosen : Option (Request × Key) → Dict Request → Option (Request × Key) → Type 0
  Chosen best requests none =
      (best ≡ none)
      × All (λ e. is_preemption_candidate e.1 requester priority_only excluded c ≡ ok false)
          requests
  Chosen best requests (some b) =
      ((best ≡ some b) ⊎ (Safe b.0 × (victim_key b.0 c ≡ ok b.1)))
      × ((b₀ : Request × Key) → best ≡ some b₀ → lt_key b.1 b₀.1 ≡ false)
      × All (Bounds b.1) requests

  passed :
      (best : Option (Request × Key)) (rid : String) (r : Request) (requests : Dict Request)
      → is_preemption_candidate r requester priority_only excluded c ≡ ok false
      → (res : Option (Request × Key)) → Chosen best requests res
      → Chosen best ((rid, r) ∷ requests) res
  passed best rid r requests unsafe none (e, all) = (e, (unsafe, all))
  passed best rid r requests unsafe (some b) (from, above, all) =
      (from, above, ((λ safe k e. absurd (cc (safe, unsafe))), all))

  moved :
      (r : Request) (key : Key) (b : Request × Key)
      → Safe r
      → victim_key r c ≡ ok key
      → (r, key) ≡ b
      → Safe b.0 × (victim_key b.0 c ≡ ok b.1)
  moved r key b safe e same = subst (λ x. Safe x.0 × (victim_key x.0 c ≡ ok x.1)) same (safe, e)

  at_key :
      (top key k : Key) (r : Request)
      → victim_key r c ≡ ok key
      → victim_key r c ≡ ok k
      → lt_key top key ≡ false
      → lt_key top k ≡ false
  at_key top key k r e e' h =
      let same : key ≡ k = cc (e, e') in subst (λ x. lt_key top x ≡ false) same h

  replaced :
      (b₁ : Request × Key) (rid : String) (r : Request) (key : Key) (requests : Dict Request)
      → Safe r
      → victim_key r c ≡ ok key
      → lt_key b₁.1 key ≡ true
      → (res : Option (Request × Key)) → Chosen (some (r, key)) requests res
      → Chosen (some b₁) ((rid, r) ∷ requests) res
  replaced b₁ rid r key requests safe e up none (bad, all) = cc
  replaced b₁ rid r key requests safe e up (some b) (from, above, all) = (
    elim from [ inl same ↦ inr (moved r key b safe e (cc same)) | inr other ↦ inr other ],
    (λ b₀ e₀.
        let same : b₁ ≡ b₀ = cc e₀ in
        subst (λ x. lt_key b.1 x.1 ≡ false) same
          (lt_key_trans b.1 key b₁.1 (above (r, key) refl) (lt_key-asym b₁.1 key up))),
    ((λ safe' k e'. at_key b.1 key k r e e' (above (r, key) refl)), all),
  )

  kept :
      (b₁ : Request × Key) (rid : String) (r : Request) (key : Key) (requests : Dict Request)
      → victim_key r c ≡ ok key
      → lt_key b₁.1 key ≡ false
      → (res : Option (Request × Key)) → Chosen (some b₁) requests res
      → Chosen (some b₁) ((rid, r) ∷ requests) res
  kept b₁ rid r key requests e down none (bad, all) = cc
  kept b₁ rid r key requests e down (some b) (from, above, all) = (
    from,
    above,
    ((λ safe' k e'. at_key b.1 key k r e e' (lt_key_trans b.1 b₁.1 key (above b₁ refl) down)), all),
  )

  raised :
      (best : Option (Request × Key)) (rid : String) (r : Request) (key : Key)
      (requests : Dict Request)
      → Safe r
      → victim_key r c ≡ ok key
      → (res : Option (Request × Key))
      → Chosen (if better best key then some (r, key) else best) requests res
      → Chosen best ((rid, r) ∷ requests) res
  raised none rid r key requests safe e none (bad, all) = cc
  raised none rid r key requests safe e (some b) (from, above, all) = (
    elim from [ inl same ↦ inr (moved r key b safe e (cc same)) | inr other ↦ inr other ],
    (λ b₀ absent. absurd (cc absent)),
    ((λ safe' k e'. at_key b.1 key k r e e' (above (r, key) refl)), all),
  )
  raised (some b₁) rid r key requests safe e res h = elim (Bool-cases (lt_key b₁.1 key)) [
    | inl up ↦
        replaced b₁ rid r key requests safe e up res
          (subst (λ t. Chosen (if t then some (r, key) else some b₁) requests res) up h)
    | inr down ↦
        kept b₁ rid r key requests e down res
          (subst (λ t. Chosen (if t then some (r, key) else some b₁) requests res) down h)
  ]

  greatest-Chosen :
      (requests : Dict Request) (best : Option (Request × Key))
      → Ensures (Chosen best requests) (greatest requester priority_only excluded c requests best)
  unfolding greatest
  greatest-Chosen [] none = (refl, tt)
  greatest-Chosen [] (some b) = (
    inl refl,
    (λ b₀ e. subst (λ x. lt_key b.1 x.1 ≡ false) {x = b} {y = b₀} (cc e) (lt_key_irrefl b.1)),
    tt,
  )
  greatest-Chosen ((rid, r) ∷ requests) best =
      bind-Ensures (Chosen best ((rid, r) ∷ requests))
        (is_preemption_candidate r requester priority_only excluded c) _
        (λ v e. elim (Bool-cases v) [
          | inr unsafe ↦ rw unsafe (
              Ensures-mono (Chosen best requests) (Chosen best ((rid, r) ∷ requests))
                (greatest requester priority_only excluded c requests best)
                (passed best rid r requests (cc (e, unsafe))) (greatest-Chosen requests best))
          | inl safe ↦ rw safe (
              bind-Ensures (Chosen best ((rid, r) ∷ requests)) (victim_key r c) _ (λ key k.
                let next = if better best key then some (r, key) else best in
                Ensures-mono (Chosen next requests) (Chosen best ((rid, r) ∷ requests))
                  (greatest requester priority_only excluded c requests next)
                  (raised best rid r key requests (cc (e, safe)) k)
                  (greatest-Chosen requests next)))
        ])

  -- What `_select_preemption_victim` returns.
  abbrev pub Selected : Dict Request → Option (Request × Key) → Type 0
  Selected requests none =
      All (λ e. is_preemption_candidate e.1 requester priority_only excluded c ≡ ok false) requests
  Selected requests (some b) =
      IsSafe requester priority_only excluded c b.0
      × (victim_key b.0 c ≡ ok b.1)
      × All (Bounds b.1) requests

  selected :
      (requests : Dict Request) (res : Option (Request × Key))
      → Chosen none requests res
      → Selected requests res
  selected requests none (e, all) = all
  selected requests (some b) (inl bad, above, all) = cc
  selected requests (some b) (inr (safe, e), above, all) =
      (is_preemption_candidate-IsSafe requester priority_only excluded c b.0 safe, e, all)

-- The victim that is selected is a candidate: not the requester, active, with no output pending, no
-- transfer lease, not excluded, and for `priority_only` of a lower priority than the requester. No
-- candidate has a greater key, which is the priority value and then the blocks of its position. No
-- victim is returned only if no request is a candidate.
pub select_preemption_victim-Selected :
    (requester : Request) (priority_only : Bool) (excluded : List String) (w : World)
    → Ensures
        (Selected requester priority_only excluded w.cache w.scheduler.requests)
        (select_preemption_victim requester priority_only excluded w)
unfolding select_preemption_victim
select_preemption_victim-Selected requester priority_only excluded w =
    Ensures-mono (Chosen requester priority_only excluded w.cache none w.scheduler.requests)
      (Selected requester priority_only excluded w.cache w.scheduler.requests)
      (greatest requester priority_only excluded w.cache w.scheduler.requests none)
      (selected requester priority_only excluded w.cache w.scheduler.requests)
      (greatest-Chosen requester priority_only excluded w.cache w.scheduler.requests none)
