-- ===== src/Worker/Pipeline/Submit.antt =====
-- Submitting the pending chunks of a pipeline for copying.
use ucl_mpcomm.Common.{word, ℕ, ◌+◌, ◌≤◌, ◌<◌, ◌≡◌, List, [], ◌∷◌, ◌++◌}
use ucl_mpcomm.Chunks.{ChunkTable, get_chunk}
use ucl_mpcomm.Pxn.ProxyBuffer.{ProxyBuffer, align_256}
use ucl_mpcomm.Pxn.ProxyBuffer.Invariant.{Block, Inv}
use ucl_mpcomm.Worker.{CopyingChunk}
use ucl_mpcomm.Worker.Pipeline.{Copies}

-- Chunks are copied into these blocks: each in turn is held on top of those before.
abbrev pub Placed : ℕ → List CopyingChunk → List Block → List Block → Type 0
Placed base [] before after = after ≡ before
Placed base (chunk ∷ chunks) before after =
    (block : Block) × (chunk.proxy_addr ≡ base + block.offset)
    × (chunk.length ≡ block.len)
    × Placed base chunks (block ∷ before) after

abbrev pub indices : List CopyingChunk → List ℕ
indices [] = []
indices (chunk ∷ chunks) = chunk.chunk_idx ∷ indices chunks

-- A chunk that is not empty and whose length, rounded up to 256 bytes, is at most that of the buffer.
abbrev pub Fits : ChunkTable → ℕ → ℕ → Type 0
Fits table size ci =
    let len = (get_chunk table ci).length in (0 < len) × (align_256 len ≤ size) × (len + 255 < word)

pub record Submitted (c : Copies) (held : List Block) (c' : Copies) : Type 0 where
  pub new : List CopyingChunk
  pub held_now : List Block
  pub appended : c'.copying ≡ c.copying ++ new
  pub taken : indices new ++ c'.pending ≡ c.pending
  pub placed : Placed c.buffer.buffer new held held_now
  pub kept : Inv c'.buffer held_now
