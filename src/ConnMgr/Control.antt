-- ===== src/ConnMgr/Control.antt =====
-- The frame that the control bytes make.
use native.Mathlib.Decide.{dec_lt}
use cdroid_demo.Common.{
  ℕ, zero, suc, ◌+◌, ◌-◌, ◌≤◌, ◌<◌, ◌≡◌, ◌≢◌, refl, sym, ap, ◌∙◌, List, take, length, arith,
  get_or-take,
}
use cdroid_demo.Crc.{crc16_modbus}
use cdroid_demo.Frame.{BuffData, byte_at}
use cdroid_demo.Frame.Send.{parse_mcu, set_data, checkcode_mcu}
use cdroid_demo.Frame.Send.Closing.{checkcode_mcu_lem, length-checkcode_mcu, parse_mcu_new}
use cdroid_demo.Frame.Send.Writing.{set_data-len, set_data_same, set_data_other}
use cdroid_demo.ConnMgr.{copy_control, control_frame}

-- What the main board reads in a frame: the control bytes `snd` from 3 to 12, and 100 as the life
-- of both filters.
pub record Carries (snd bytes : List ℕ) : Type 0 where
  pub head : byte_at bytes 0 ≡ 0x02
  pub control : (i : ℕ) → 3 ≤ i → i < 13 → byte_at bytes i ≡ byte_at snd i
  pub lives : (byte_at bytes 13 ≡ 100) × (byte_at bytes 14 ≡ 100)

-- The first 30 bytes decide it.
pub Carries-take : (snd xs ys : List ℕ) → take 30 xs ≡ take 30 ys → Carries snd ys → Carries snd xs
Carries-take snd xs ys e c = record {
  head = byte 0 (omega arith) ∙ c.head;
  control = λ i h k. byte i (omega arith) ∙ c.control i h k;
  lives = (byte 13 (omega arith) ∙ c.lives.0, byte 14 (omega arith) ∙ c.lives.1);
}
  where
    byte : (i : ℕ) → i < 30 → byte_at xs i ≡ byte_at ys i
    byte i h = sym (get_or-take 30 xs i 0 h) ∙ ap (λ l. byte_at l i) e ∙ get_or-take 30 ys i 0 h

copy_control-len :
    (n i : ℕ) (snd : List ℕ) (bf : BuffData)
    → ((copy_control n i snd bf).len ≡ bf.len)
      × (length (copy_control n i snd bf).buf ≡ length bf.buf)
unfolding copy_control
copy_control-len zero i snd bf = (refl, refl)
copy_control-len (suc n) i snd bf = omega (
  arith,
  copy_control-len n (i + 1) snd (set_data bf i (byte_at snd i)),
  set_data-len bf i (byte_at snd i),
)

copy_control_before :
    (n i : ℕ) (snd : List ℕ) (bf : BuffData) (j : ℕ)
    → j < i
    → byte_at (copy_control n i snd bf).buf j ≡ byte_at bf.buf j
unfolding copy_control
copy_control_before zero i snd bf j h = refl
copy_control_before (suc n) i snd bf j h =
    copy_control_before n (i + 1) snd (set_data bf i (byte_at snd i)) j (omega arith)
    ∙ set_data_other bf i j (byte_at snd i) (omega arith)

copy_control_copied :
    (n i : ℕ) (snd : List ℕ) (bf : BuffData) (j : ℕ)
    → i ≤ j
    → j < i + n
    → j < length bf.buf
    → byte_at (copy_control n i snd bf).buf j ≡ byte_at snd j
unfolding copy_control
copy_control_copied zero i snd bf j h k l = absurd (omega arith)
copy_control_copied (suc n) i snd bf j h k l = elim (dec_lt i j) [
  | yes later ↦
      copy_control_copied n (i + 1) snd (set_data bf i (byte_at snd i)) j (omega arith)
        (omega arith) (omega (arith, set_data-len bf i (byte_at snd i)))
  | no now ↦
      let same : i ≡ j = omega arith in
      copy_control_before n (i + 1) snd (set_data bf i (byte_at snd i)) j (omega arith)
      ∙ ap (λ k. byte_at (set_data bf i (byte_at snd i)).buf k) (sym same)
      ∙ set_data_same bf i (byte_at snd i) (omega arith)
      ∙ ap (byte_at snd) same
]

-- An empty buffer of 32 bytes becomes a full frame that carries the control bytes.
pub control_frame-Carries :
    (snd : List ℕ) (bd : BuffData)
    → bd.len ≡ 0
    → length bd.buf ≡ 32
    → ((control_frame snd bd).len ≡ 32)
      × (length (control_frame snd bd).buf ≡ 32)
      × Carries snd (control_frame snd bd).buf
unfolding control_frame
control_frame-Carries snd bd empty size = (
  omega (arith, closed.1, lens),
  omega (arith, length-checkcode_mcu written, lens),
  Carries-take snd (checkcode_mcu written).buf written.buf
      (ap (λ n. take n (checkcode_mcu written).buf) thirty
        ∙ closed.2
        ∙ ap (λ n. take n written.buf) (sym thirty))
      (record {
        head =
            other 0 (omega arith) (omega arith) (omega arith)
            ∙ copy_control_before 12 3 snd (parse_mcu bd) 0 (omega arith)
            ∙ parsed.2;
        control = control;
        lives = (
          set_data_other second 12 13 v12 (omega arith)
              ∙ set_data_other first 14 13 100 (omega arith)
              ∙ set_data_same copied 13 100 (omega (arith, lens)),
          set_data_other second 12 14 v12 (omega arith)
              ∙ set_data_same first 14 100 (omega (arith, lens)),
        );
      }),
)
  where
    v12 : ℕ
    v12 = byte_at snd 12

    copied : BuffData
    copied = copy_control 12 3 snd (parse_mcu bd)

    first : BuffData
    first = set_data copied 13 100

    second : BuffData
    second = set_data first 14 100

    written : BuffData
    written = set_data second 12 v12

    parsed :
        ((parse_mcu bd).len ≡ 32)
        × (length (parse_mcu bd).buf ≡ length bd.buf)
        × (byte_at (parse_mcu bd).buf 0 ≡ 0x02)
    parsed = parse_mcu_new bd empty (omega (arith, size))

    lens :
        (length copied.buf ≡ 32)
        × (length first.buf ≡ 32)
        × (length second.buf ≡ 32)
        × (length written.buf ≡ 32)
        × (written.len ≡ 32)
    lens = ground (
      arith,
      parsed,
      size,
      copy_control-len 12 3 snd (parse_mcu bd),
      set_data-len copied 13 100,
      set_data-len first 14 100,
      set_data-len second 12 v12,
    )

    closed :
        (crc16_modbus (take written.len (checkcode_mcu written).buf) ≡ 0)
        × ((checkcode_mcu written).len ≡ written.len)
        × (take (written.len - 2) (checkcode_mcu written).buf ≡ take (written.len - 2) written.buf)
        × (checkcode_mcu (checkcode_mcu written) ≡ checkcode_mcu written)
    closed = checkcode_mcu_lem written (omega (arith, lens)) (omega (arith, lens))

    thirty : 30 ≡ written.len - 2
    thirty = omega (arith, lens)

    other : (j : ℕ) → 12 ≢ j → 13 ≢ j → 14 ≢ j → byte_at written.buf j ≡ byte_at copied.buf j
    other j a b c =
        set_data_other second 12 j v12 a
        ∙ set_data_other first 14 j 100 c
        ∙ set_data_other copied 13 j 100 b

    control : (i : ℕ) → 3 ≤ i → i < 13 → byte_at written.buf i ≡ byte_at snd i
    control i h k = elim (dec_lt i 12) [
      | yes below ↦
          other i (omega arith) (omega arith) (omega arith)
          ∙ copy_control_copied 12 3 snd (parse_mcu bd) i h (omega arith)
              (omega (arith, parsed, size))
      | no at ↦
          let twelve : i ≡ 12 = omega arith in
          ap (byte_at written.buf) twelve
          ∙ set_data_same second 12 v12 (omega (arith, lens))
          ∙ ap (byte_at snd) (sym twelve)
    ]
