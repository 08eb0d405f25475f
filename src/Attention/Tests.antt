-- ===== src/Attention/Tests.antt =====
-- A run and an instance of the theorem about vllm_rlt/attention/metadata.py.
use vllm_rlt.Common.{true, List, [], ◌∷◌, Ensures}
use vllm_rlt.Attention.{Row, plan_attention_metadata}
use vllm_rlt.Attention.Packed.{Shaped, plan_attention_metadata-Shaped}

abbrev rows : List Row
rows =
    record { block_table = 4 ∷ 5 ∷ []; position = 1; key = (0, 0) }
    ∷ record { block_table = 4 ∷ 5 ∷ []; position = 2; key = (0, 0) }
    ∷ record { block_table = 7 ∷ []; position = 0; key = (1, 0) }
    ∷ []

plan_attention_metadata-Shaped_example : Ensures (Shaped 3) (plan_attention_metadata rows 2 true)
plan_attention_metadata-Shaped_example = plan_attention_metadata-Shaped rows 2 true
