-- ===== src/WebSocket/Mask.antt =====
-- `_unmask` of src/veloce/websocket.py. The exclusive or of two integers made from the bytes of
-- equally long runs is that of the runs, byte by byte.
pub mod Laws
use Prim.Native.Nat.{bit_xor}
use veloce.Prelude.{
  ℕ, zero, suc, ◌+◌, ◌-◌, ◌*◌, ◌/◌, List, [], ◌∷◌, ◌++◌, leb, length, take, drop, if◌then◌else◌,
}

-- `_UNMASK_BLOCK`, in masks of 4 bytes
abbrev block_masks : ℕ
block_masks = 4096

-- mask * count
unfoldable pub repeat : ℕ → List ℕ → List ℕ
repeat zero mask = []
repeat (suc count) mask = mask ++ repeat count mask

-- (mask * ((length + 3) // 4))[:length]
unfoldable pub tiled : List ℕ → ℕ → List ℕ
unfolding repeat
tiled mask n = take n (repeat ((n + 3) / 4) mask)

unfoldable pub xor : List ℕ → List ℕ → List ℕ
xor [] ms = []
xor (b ∷ bs) [] = b ∷ bs
xor (b ∷ bs) (m ∷ ms) = bit_xor b m ∷ xor bs ms

module _ (masks : ℕ) (mask : List ℕ) where
  -- The loop over blocks of 4 * masks bytes, from `pos` on; what it writes follows what is there.
  unfoldable pub unmask_blocks : ℕ → List ℕ → List ℕ
  unfolding xor tiled repeat
  unmask_blocks zero view = []
  unmask_blocks (suc fuel) view =
      let rest = unmask_blocks fuel (drop (4 * masks) view) in
      if leb (length view) (4 * masks)
      then xor view (tiled mask (length view))
      else xor (take (4 * masks) view) (repeat masks mask) ++ rest

unfoldable pub unmask : List ℕ → List ℕ → List ℕ
unfolding unmask_blocks
unmask payload mask =
    if leb (length payload) (4 * block_masks)
    then xor payload (tiled mask (length payload))
    else unmask_blocks block_masks mask (length payload) payload
