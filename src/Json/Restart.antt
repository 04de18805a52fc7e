-- ===== src/Json/Restart.antt =====
-- The end of the methods of src/data/conf_mgr.cc that change the list, where its text becomes the file, and
-- the next start of the program, which reads it.
use cdroid_demo.Common.{
  ℕ, ◌≤◌, ◌≡◌, ◌∙◌, ap, sym, refl, Bool, true, List, Option, none, some, length,
}
use cdroid_demo.ConfMgr.{ConfMgr, ModeData, mode_data_json_array}
use cdroid_demo.ConfMgr.Numbering.{IsNumbered, init-IsNumbered}
use cdroid_demo.Json.{Node, Access, save_local_json}
use cdroid_demo.Json.Modes.{load_data, conf_init, HoldsAll, conf_init-save_local_json}

-- jsoncpp for the list: its values, its parser and printer, the entries of an array, the value that a parse
-- leaves where it fails, and that of __modeDataLocalJson__.
pub record Store (Value : Type 0) : Type 0 where
  pub access : Access Value
  pub entries : Value → List Value
  pub parse_text : List ℕ → Option Value
  pub write_text : Value → List ℕ
  pub left_over : Value
  pub local : Value

module _ {Value : Type 0} (store : Store Value) where
  -- convertStringToJson, whose answer nobody looks at, and saveLocalJson.
  unfoldable pub save_text : Bool → ℕ → Node → List ℕ → Node × Bool
  save_text opens room node text =
      save_local_json store.write_text opens room node
        (elim (store.parse_text text) [ some root ↦ root | none ↦ store.left_over ])

  -- What the file is after the method that made `c`; nothing is saved where no text was made.
  unfoldable pub save_conf : Bool → ℕ → Node → ConfMgr → Node × Bool
  unfolding save_text
  save_conf opens room node c = elim c.text_to_save [
    | none ↦ (node, true)
    | some text ↦ save_text opens room node text
  ]

  -- The list that the next start reads from what is at the path.
  unfoldable pub restart : Bool → ℕ → Node → ConfMgr
  unfolding conf_init load_data
  restart writes room node =
      conf_init store.access store.entries
        (load_data store.parse_text store.write_text true writes room store.local node).0

  -- jsoncpp reads the text of these modes as the value `root`, whose entries have their texts, their numbers
  -- are in the range of an int, and it reads what
  -- it prints of it as `root` again; there is room for that.
  pub record IsStored (ms : List ModeData) (root : Value) (room : ℕ) : Type 0 where
    pub text : store.parse_text (mode_data_json_array ms) ≡ some root
    pub printed : store.parse_text (store.write_text root) ≡ some root
    pub fits : length (store.write_text root) ≤ room
    pub holds : HoldsAll store.access (store.entries root) ms

  -- What was saved, with a numbered list, is read at the next start.
  pub restart-save_conf :
      (c : ConfMgr) (root : Value) (opens writes : Bool) (room later : ℕ) (node : Node)
      → IsNumbered c
      → c.text_to_save ≡ some (mode_data_json_array c.mode_data_list)
      → IsStored c.mode_data_list root room
      → (save_conf opens room node c).1 ≡ true
      → (restart writes later (save_conf opens room node c).0).mode_data_list ≡ c.mode_data_list
  unfolding save_conf save_text restart
  restart-save_conf c root opens writes room later node v t h e =
      ap (λ (x : Node × Bool). (restart writes later x.0).mode_data_list) file
      ∙ ap (λ (d : ConfMgr). d.mode_data_list)
          (conf_init-save_local_json store.access store.entries store.parse_text store.write_text
            writes room later root store.local c.mode_data_list opens node h.printed h.fits h.holds
            (ap (λ (x : Node × Bool). x.1) (sym file) ∙ e)).0
      ∙ init-IsNumbered c v
    where
      file : save_conf opens room node c ≡ save_local_json store.write_text opens room node root
      file = rw (save_conf, t, save_text, h.text) refl
