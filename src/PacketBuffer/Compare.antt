-- ===== src/PacketBuffer/Compare.antt =====
-- When two frames count as the same.
use cdroid_demo.Common.{
  ℕ, zero, suc, ◌+◌, ◌≤◌, ◌<◌, ◌≡◌, refl, ◌↔◌, true, false, List, [], ◌∷◌, take, length, arith,
}
use cdroid_demo.Frame.{BuffData, bt_mcu, byte_at}
use cdroid_demo.PacketBuffer.{compare, same_bytes, type_code}

-- A key is reported in bytes 6 to 9.
abbrev pub HasKey : List ℕ → Type 0
HasKey c = 0 < byte_at c 6 + byte_at c 7 + byte_at c 8 + byte_at c 9

same_bytes_iff :
    (n : ℕ) (xs ys : List ℕ)
    → n ≤ length xs
    → n ≤ length ys
    → (same_bytes xs ys n ≡ true) ↔ (take n xs ≡ take n ys)
unfolding same_bytes
same_bytes_iff zero xs ys h k = (λ e. refl, λ e. refl)
same_bytes_iff (suc n) [] ys h k = absurd (omega arith)
same_bytes_iff (suc n) (x ∷ xs) [] h k = absurd (omega arith)
same_bytes_iff (suc n) (x ∷ xs) (y ∷ ys) h k =
    ground (arith, same_bytes_iff n xs ys (omega arith) (omega arith))

-- Two frames of the main board are the same exactly when the buffers have one type, the bytes in
-- use are the same, and no key is reported.
pub compare_iff :
    (src dst : BuffData)
    → src.len ≤ length src.buf
    → src.len ≤ length dst.buf
    → (compare bt_mcu src dst ≡ true) ↔ (
        (type_code src.type ≡ type_code dst.type)
        × (src.len ≡ dst.len)
        × (take src.len src.buf ≡ take src.len dst.buf)
        × ¬ HasKey src.buf)
unfolding compare
compare_iff src dst h k = ground (arith, same_bytes_iff src.len src.buf dst.buf h k)

pub compare_key : (src dst : BuffData) → HasKey src.buf → compare bt_mcu src dst ≡ false
unfolding compare
compare_key src dst key = ground arith
