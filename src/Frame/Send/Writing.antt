-- ===== src/Frame/Send/Writing.antt =====
-- Bytes that `setData` writes into a frame.
use cdroid_demo.Common.{ℕ, ◌<◌, ◌≡◌, ◌≢◌, refl, length, length-set, get_or-set_self, get_or-set_ne}
use cdroid_demo.Frame.{BuffData, byte_at}
use cdroid_demo.Frame.Send.{set_data}

pub set_data-len :
    (bf : BuffData) (i v : ℕ)
    → ((set_data bf i v).len ≡ bf.len) × (length (set_data bf i v).buf ≡ length bf.buf)
unfolding set_data
set_data-len bf i v = (refl, length-set bf.buf i v)

pub set_data_same :
    (bf : BuffData) (i v : ℕ) → i < length bf.buf → byte_at (set_data bf i v).buf i ≡ v
unfolding set_data
set_data_same bf i v h = get_or-set_self bf.buf i v 0 h

pub set_data_other :
    (bf : BuffData) (i j v : ℕ) → i ≢ j → byte_at (set_data bf i v).buf j ≡ byte_at bf.buf j
unfolding set_data
set_data_other bf i j v h = get_or-set_ne bf.buf i j v 0 h
