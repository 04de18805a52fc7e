-- ===== src/Frame/Memory.antt =====
-- What a copy into a buffer leaves there.
use cdroid_demo.Common.{
  ℕ, ◌+◌, ◌≤◌, ◌≡◌, List, ◌++◌, take, drop, length, arith, length-append, length-take, length-drop,
  take-append_length,
}
use cdroid_demo.Frame.{copy_to}

-- A copy that fits keeps the buffer's size.
pub length-copy_to :
    (buf : List ℕ) (at : ℕ) (src : List ℕ)
    → at + length src ≤ length buf
    → length (copy_to buf at src) ≡ length buf
unfolding copy_to
length-copy_to buf at src h = omega (
  arith,
  length-append (take at buf) (src ++ drop (at + length src) buf),
  length-append src (drop (at + length src) buf),
  length-take at buf,
  length-drop (at + length src) buf,
)

-- A copy to the front is read back.
pub take-copy_to : (buf src : List ℕ) → take (length src) (copy_to buf 0 src) ≡ src
unfolding copy_to
take-copy_to buf src = take-append_length src _
