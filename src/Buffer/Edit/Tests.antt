-- ===== src/Buffer/Edit/Tests.antt =====
-- The theorems on changes of buffers at a concrete buffer.
use libhpack.Common.{ℕ, ◌+◌, ◌-◌, ◌^◌, ◌≡◌, ◌≤◌, ◌↔◌, ◌⊎◌, refl, arith, [], ◌∷◌, true, length}
use libhpack.Buffer.{Buffer}
use libhpack.Buffer.Edit.{to_lowcase, insert, remove_chunk, trim}
use libhpack.Common.{take, drop}
use libhpack.Buffer.Edit.Trim.{AreEnds, trim-AreEnds}
use libhpack.Buffer.Edit.Chunk.{remove_chunk_left}

abbrev host : Buffer
host = record { bytes = 72 ∷ 111 ∷ 115 ∷ 84 ∷ []; has_memory = true }

to_lowcase_run : (to_lowcase host).bytes ≡ 104 ∷ 111 ∷ 115 ∷ 116 ∷ []
unfolding to_lowcase
to_lowcase_run = refl

-- A chunk that reaches beyond the end leaves a length below zero.
remove_chunk_run : (remove_chunk host 1 9).len ≡ 2 ^ 32 - 5
unfolding remove_chunk
remove_chunk_run = refl

remove_chunk_left_example :
    ((remove_chunk host 1 9).memory.bytes ≡ 72 ∷ [])
    × (((remove_chunk host 1 9).len ≡ length (remove_chunk host 1 9).memory.bytes)
        ↔ ((1 + 9 ≤ 4) ⊎ (◌≡◌ {A = ℕ} 1 0)))
remove_chunk_left_example = remove_chunk_left host 1 9 (omega arith) (omega arith) (omega arith)

insert_run : (insert host (49 ∷ 50 ∷ []) 9999).bytes ≡ 72 ∷ 111 ∷ 115 ∷ 84 ∷ 49 ∷ 50 ∷ []
unfolding insert
insert_run = refl

abbrev spaced : Buffer
spaced = record { bytes = 32 ∷ 9 ∷ 97 ∷ 32 ∷ 98 ∷ 13 ∷ 10 ∷ []; has_memory = true }

trim_run : (trim spaced).bytes ≡ 97 ∷ 32 ∷ 98 ∷ []
unfolding trim
trim_run = refl

trim-AreEnds_example :
    (start : ℕ) × (last : ℕ) × AreEnds spaced.bytes start last
    × ((trim spaced).bytes ≡ take (last - start) (drop start spaced.bytes))
trim-AreEnds_example = trim-AreEnds spaced
