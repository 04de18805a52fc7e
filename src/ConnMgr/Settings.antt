-- ===== src/ConnMgr/Settings.antt =====
-- What the main board reads of a setting in the next frame.
use cdroid_demo.Common.{
  ℕ, ◌+◌, ◌*◌, ◌/◌, ◌%◌, ◌≤◌, ◌<◌, ◌≡◌, ◌≢◌, sym, ◌∙◌, List, set, length, length-set,
  get_or-set_self, get_or-set_ne, arith, true,
}
use cdroid_demo.Frame.{byte_at}
use cdroid_demo.ConnMgr.{ConnMgr, run_command, set_water_yield, set_reset_status}
use cdroid_demo.ConnMgr.Control.{Carries}

-- An amount of water below 65536 comes back from bytes 5 and 6 of every frame that carries the
-- control bytes after the setting, and the other control bytes are as before.
pub set_water_yield_read :
    (c : ConnMgr) (value : ℕ) (bytes : List ℕ) (i : ℕ)
    → length c.snd_data ≡ 32
    → value < 65536
    → Carries (run_command c (set_water_yield value)).snd_data bytes
    → 3 ≤ i
    → i < 13
    → i ≢ 5
    → i ≢ 6
    → (byte_at bytes 5 * 256 + byte_at bytes 6 ≡ value) × (byte_at bytes i ≡ byte_at c.snd_data i)
unfolding run_command
set_water_yield_read c value bytes i size h carries lo hi a b = (
  omega (arith, high, low),
  carries.control i lo hi
      ∙ get_or-set_ne first 6 i (value % 256) 0 (λ e. b (sym e))
      ∙ get_or-set_ne c.snd_data 5 i (value / 256 % 256) 0 (λ e. a (sym e)),
)
  where
    first : List ℕ
    first = set c.snd_data 5 (value / 256 % 256)

    high : byte_at bytes 5 ≡ value / 256 % 256
    high =
        carries.control 5 (omega arith) (omega arith)
        ∙ get_or-set_ne first 6 5 (value % 256) 0 (omega arith)
        ∙ get_or-set_self c.snd_data 5 (value / 256 % 256) 0 (omega (arith, size))

    low : byte_at bytes 6 ≡ value % 256
    low =
        carries.control 6 (omega arith) (omega arith)
        ∙ get_or-set_self first 6 (value % 256) 0
            (omega (arith, size, length-set c.snd_data 5 (value / 256 % 256)))

-- After a reset the frame tells the main board to give no water, to cool nothing and to give no
-- ice; the other control bytes are as before.
pub set_reset_status_read :
    (c : ConnMgr) (bytes : List ℕ) (i : ℕ)
    → length c.snd_data ≡ 32
    → Carries (run_command c (set_reset_status true)).snd_data bytes
    → 3 ≤ i
    → i < 13
    → i ≢ 3
    → i ≢ 7
    → i ≢ 8
    → (byte_at bytes 3 ≡ 0)
      × (byte_at bytes 7 ≡ 0)
      × (byte_at bytes 8 ≡ 0)
      × (byte_at bytes i ≡ byte_at c.snd_data i)
unfolding run_command
set_reset_status_read c bytes i size carries lo hi a b d = (
  carries.control 3 (omega arith) (omega arith)
      ∙ get_or-set_ne second 8 3 0 0 (omega arith)
      ∙ get_or-set_ne first 7 3 0 0 (omega arith)
      ∙ get_or-set_self c.snd_data 3 0 0 (omega (arith, size)),
  carries.control 7 (omega arith) (omega arith)
      ∙ get_or-set_ne second 8 7 0 0 (omega arith)
      ∙ get_or-set_self first 7 0 0 (omega (arith, size, length-set c.snd_data 3 0)),
  carries.control 8 (omega arith) (omega arith)
      ∙ get_or-set_self second 8 0 0
          (omega (arith, size, length-set c.snd_data 3 0, length-set first 7 0)),
  carries.control i lo hi
      ∙ get_or-set_ne second 8 i 0 0 (λ e. d (sym e))
      ∙ get_or-set_ne first 7 i 0 0 (λ e. b (sym e))
      ∙ get_or-set_ne c.snd_data 3 i 0 0 (λ e. a (sym e)),
)
  where
    first : List ℕ
    first = set c.snd_data 3 0

    second : List ℕ
    second = set first 7 0
