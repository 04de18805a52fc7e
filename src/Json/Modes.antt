-- ===== src/Json/Modes.antt =====
-- CConfMgr::init of src/data/conf_mgr.cc with its file: the modes that were saved are read again. The
-- positions and the flag for deletion are numbers that are not negative, as everywhere in the list.
use cdroid_demo.Common.{
  ℕ, ◌≤◌, ◌≡◌, refl, ap, ap₂, Bool, true, false, List, [], ◌∷◌, Option, none, some, map, length,
  take, if◌then◌else◌, ℤ, pos, pos_part, arith,
}
use Prim.Native.String.{String}
use cdroid_demo.ConfMgr.{ConfMgr, ModeData, codes, std_to_string_int, init}
use cdroid_demo.Pages.{int_max}
use cdroid_demo.Pages.Numerals.{IsInt}
use cdroid_demo.Json.{
  Node, missing, file, directory, load_local_json, save_local_json, Access, get_json_int,
  get_json_string, json_to_string,
}
use cdroid_demo.Json.Files.{load-taken}
use cdroid_demo.Json.Numbers.{get_json_int-std_to_string_int}

-- The body of the loop, with the defaults of getJsonInt and getJsonString.
unfoldable pub read_mode : {Value : Type 0} → Access Value → Value → ModeData
read_mode access entry = record {
  data_pos = pos_part (get_json_int access entry (codes "dataPos") (pos 0));
  data_type = get_json_string access entry (codes "dataType") [];
  image_dir = get_json_string access entry (codes "imageDir") [];
  mode_name = get_json_string access entry (codes "modeName") [];
  temperature = get_json_string access entry (codes "temperature") [];
  chu_shui_liang = get_json_int access entry (codes "chuShuiLiang") (pos 0);
  can_delete = pos_part (get_json_int access entry (codes "canDelete") (pos 0));
}

-- std::ofstream makes an empty file.
unfoldable pub created : Node → Node
created missing = file []
created (file content) = file []
created directory = directory

-- `data`, and what is at the path then: the value of the file, or else `local`, that of
-- __modeDataLocalJson__, which is saved where the file can be made.
unfoldable pub load_data :
    {Value : Type 0}
    → (List ℕ → Option Value)
    → (Value → List ℕ)
    → (reads writes : Bool) → ℕ
    → Value
    → Node
    → Value × Node
unfolding created
load_data parse write reads writes room local node = elim (load_local_json parse reads node) [
  | some data_value ↦ (data_value, node)
  | none ↦
      (local, if writes then (save_local_json write true room (created node) local).0 else node)
]

-- `entries` gives the entries of an array, and none of another value.
unfoldable pub conf_init : {Value : Type 0} → Access Value → (Value → List Value) → Value → ConfMgr
unfolding read_mode
conf_init access entries data_value = init (map (read_mode access) (entries data_value))

-- A member that is a text.
abbrev pub IsText : {Value : Type 0} → Access Value → Value → String → List ℕ → Type 0
IsText {Value} access entry key text =
    (value : Value) × (access.member entry (codes key) ≡ some value)
    × (access.as_int value ≡ none)
    × (access.as_string value ≡ some text)

-- The entry has the members that ModeData::toString writes.
abbrev pub Holds : {Value : Type 0} → Access Value → Value → ModeData → Type 0
Holds access entry m =
    IsText access entry "dataPos" (std_to_string_int (pos m.data_pos))
    × IsText access entry "chuShuiLiang" (std_to_string_int m.chu_shui_liang)
    × IsText access entry "canDelete" (std_to_string_int (pos m.can_delete))
    × IsText access entry "dataType" m.data_type
    × IsText access entry "imageDir" m.image_dir
    × IsText access entry "modeName" m.mode_name
    × IsText access entry "temperature" m.temperature

-- Its numbers are in the range of an int.
abbrev pub HasInts : ModeData → Type 0
HasInts m = (m.data_pos ≤ int_max) × IsInt m.chu_shui_liang × (m.can_delete ≤ int_max)

abbrev pub HoldsAll : {Value : Type 0} → Access Value → List Value → List ModeData → Type 0
HoldsAll access [] [] = Unit
HoldsAll access [] (m ∷ ms) = true ≡ false
HoldsAll access (e ∷ es) [] = true ≡ false
HoldsAll access (e ∷ es) (m ∷ ms) = Holds access e m × HasInts m × HoldsAll access es ms

int_member :
    {Value : Type 0} (access : Access Value) (entry : Value) (key : String) (z : ℤ)
    → IsText access entry key (std_to_string_int z)
    → IsInt z
    → get_json_int access entry (codes key) (pos 0) ≡ z
int_member access entry key z (value, m, i, t) h =
    get_json_int-std_to_string_int access entry value (codes key) z (pos 0) m i t h

text_member :
    {Value : Type 0} (access : Access Value) (entry : Value) (key : String) (text : List ℕ)
    → IsText access entry key text
    → get_json_string access entry (codes key) [] ≡ text
unfolding get_json_string json_to_string
text_member access entry key text (value, m, i, t) = rw (get_json_string, m, json_to_string, t) refl

read_mode-Holds :
    {Value : Type 0} (access : Access Value) (entry : Value) (m : ModeData)
    → Holds access entry m
    → HasInts m
    → read_mode access entry ≡ m
unfolding read_mode
read_mode-Holds access entry m (p, c, d, t, i, n, w) k =
    rw
      (
        int_member access entry "dataPos" (pos m.data_pos) p k.0,
        int_member access entry "chuShuiLiang" m.chu_shui_liang c k.1,
        int_member access entry "canDelete" (pos m.can_delete) d k.2,
        text_member access entry "dataType" m.data_type t,
        text_member access entry "imageDir" m.image_dir i,
        text_member access entry "modeName" m.mode_name n,
        text_member access entry "temperature" m.temperature w,
      )
      refl

read_modes-Holds :
    {Value : Type 0} (access : Access Value) (es : List Value) (ms : List ModeData)
    → HoldsAll access es ms
    → map (read_mode access) es ≡ ms
read_modes-Holds access [] [] h = refl
read_modes-Holds access [] (m ∷ ms) h = absurd (ground (arith, h))
read_modes-Holds access (e ∷ es) [] h = absurd (ground (arith, h))
read_modes-Holds access (e ∷ es) (m ∷ ms) h =
    ap₂ (λ (n : ModeData) ns. n ∷ ns) (read_mode-Holds access e m h.0 h.1)
      (read_modes-Holds access es ms h.2)

load_data-taken :
    {Value : Type 0} (parse : List ℕ → Option Value) (write : Value → List ℕ) (writes : Bool)
    (room later : ℕ) (root local : Value)
    → parse (write root) ≡ some root
    → length (write root) ≤ room
    → load_data parse write true writes later local (file (take room (write root)))
      ≡ (root, file (take room (write root)))
unfolding load_data
load_data-taken parse write writes room later root local law fits =
    rw (load_data, load-taken parse write room root law fits) refl

-- Where the parser reads what the printer wrote of this value, there is room for all of it, the value's
-- entries have the texts that ModeData::toString writes of some modes, and the numbers of these are in
-- the range of an int: after saveLocalJson has saved it, init has these modes, in the order of their
-- positions, and leaves the file as it is.
pub conf_init-save_local_json :
    {Value : Type 0} (access : Access Value) (entries : Value → List Value)
    (parse : List ℕ → Option Value) (write : Value → List ℕ) (writes : Bool) (room later : ℕ)
    (root local : Value) (ms : List ModeData) (opens : Bool) (node : Node)
    → parse (write root) ≡ some root
    → length (write root) ≤ room
    → HoldsAll access (entries root) ms
    → (save_local_json write opens room node root).1 ≡ true
    → let saved = (save_local_json write opens room node root).0 in
      let (data_value, left) = load_data parse write true writes later local saved in
      (conf_init access entries data_value ≡ init ms) × (left ≡ saved)
unfolding conf_init save_local_json
conf_init-save_local_json access entries parse write writes room later root local ms true missing
      law fits h e =
    rw (load_data-taken parse write writes room later root local law fits)
      (ap init (read_modes-Holds access (entries root) ms h), refl)
conf_init-save_local_json access entries parse write writes room later root local ms true
      (file content) law fits h e =
    rw (load_data-taken parse write writes room later root local law fits)
      (ap init (read_modes-Holds access (entries root) ms h), refl)
conf_init-save_local_json access entries parse write writes room later root local ms false missing
      law fits h e =
    absurd (ground (arith, e))
conf_init-save_local_json access entries parse write writes room later root local ms false
      (file content) law fits h e =
    absurd (ground (arith, e))
conf_init-save_local_json access entries parse write writes room later root local ms opens directory
      law fits h e =
    absurd (ground (arith, e))
