-- ===== src/Server/Wrap/Split.antt =====
-- What the two pieces of a payload that runs round the end of its memory are.

use remote_debug_for_intel_f.Prelude.{ℕ, ◌+◌, ◌^◌, ◌≤◌, ◌<◌, ◌≡◌, ◌⊎◌, arith, sub64}
use remote_debug_for_intel_f.Server.Wrap.{buff_len_to_wrap_boundary}

-- For a buffer inside a memory of `sz` bytes at `sa`, which ends at or below 2^32, and a payload
-- that is no longer than the memory: either the answer is 0 and the payload ends inside the memory;
-- or the answer is the length of a nonempty first piece that ends exactly at the end of the memory,
-- and the second piece has the rest of the bytes and, placed at `sa`, ends at or before the start
-- of the buffer.
pub buff_len_to_wrap_boundary_lem :
    (sa sz buff n : ℕ)
    → sa + sz ≤ 2 ^ 32
    → sa ≤ buff
    → buff < sa + sz
    → n ≤ sz
    → ((buff_len_to_wrap_boundary sa sz buff n ≡ 0) × (buff + n ≤ sa + sz))
      ⊎ ((0 < buff_len_to_wrap_boundary sa sz buff n)
          × (buff + buff_len_to_wrap_boundary sa sz buff n ≡ sa + sz)
          × (buff_len_to_wrap_boundary sa sz buff n
                + sub64 n (buff_len_to_wrap_boundary sa sz buff n)
              ≡ n)
          × (sa + sub64 n (buff_len_to_wrap_boundary sa sz buff n) ≤ buff))
unfolding buff_len_to_wrap_boundary
buff_len_to_wrap_boundary_lem sa sz buff n top low high fits = ground arith
