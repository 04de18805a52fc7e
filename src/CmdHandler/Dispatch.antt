-- ===== src/CmdHandler/Dispatch.antt =====
-- Who is called: what adding and removing a handler means for the dispatch of answers.
use cdroid_demo.Common.{
  ℕ, ◌+◌, ◌≤◌, ◌≡◌, refl, ap, ◌∙◌, ◌⊎◌, inl, inr, true, false, ◌&&◌, not, List, [], ◌∷◌, ◌++◌,
  arith, ◌==◌, if◌then◌else◌, ◌↔◌,
}
use cdroid_demo.CmdHandler.{
  HandlerManager, contains, push_handler, add_handler, remove_handler, on_command, on_tick,
}
use cdroid_demo.CmdHandler.Table.{
  recipients, without, IsTable, recipients-push, push-IsTable, recipients-remove, remove-IsTable,
  contains-without,
}

-- What `onCommand` calls for a type, whatever the time.
abbrev pub called_for : HandlerManager → ℕ → List ℕ
called_for m type = (on_command m type 0).1

called_for-recipients :
    (m : HandlerManager) (type : ℕ) → called_for m type ≡ recipients m.handlers type
unfolding on_command recipients
called_for-recipients m type = refl

add_handler-cases :
    (m : HandlerManager) (cmd hd : ℕ)
    → ((add_handler m cmd hd ≡ (m, false)) × (contains hd (recipients m.handlers cmd) ≡ true))
      ⊎ (add_handler m cmd hd ≡ (record m { handlers = push_handler cmd hd m.handlers }, true))
        × (contains hd (recipients m.handlers cmd) ≡ false)
unfolding add_handler recipients contains
add_handler-cases m cmd hd = ground arith

-- A handler that a type does not call yet is called for it last from then on, and `addHandler`
-- says so; one that it calls already is not added again. No other type calls anyone else, and the
-- table stays well formed.
pub add_handler_lem :
    (m : HandlerManager) (cmd hd type : ℕ)
    → IsTable m.handlers
    → let r = add_handler m cmd hd in
      IsTable r.0.handlers
      × (r.1 ≡ not (contains hd (called_for m cmd)))
      × (called_for r.0 type
          ≡ (if r.1 && (type == cmd) then called_for m type ++ hd ∷ [] else called_for m type))
unfolding on_command recipients
add_handler_lem m cmd hd type v = elim (add_handler-cases m cmd hd) [
  | inl known ↦ rw (known.0, known.1) (v, refl, refl)
  | inr fresh ↦
      rw (fresh.0, fresh.1)
        (push-IsTable cmd hd m.handlers fresh.1 v, refl, recipients-push cmd hd type m.handlers)
]

-- A handler that has been removed is called for no type; the others are called as before, in the
-- same order, and the table stays well formed.
pub remove_handler_lem :
    (m : HandlerManager) (hd type : ℕ)
    → IsTable m.handlers
    → IsTable (remove_handler m hd).handlers
      × (called_for (remove_handler m hd) type ≡ without hd (called_for m type))
      × (contains hd (called_for (remove_handler m hd) type) ≡ false)
unfolding remove_handler on_command recipients
remove_handler_lem m hd type v =
    let left = recipients-remove hd type m.handlers v in
    (
      remove-IsTable hd m.handlers v,
      left,
      ap (contains hd) left ∙ contains-without hd hd (recipients m.handlers type) ∙ ground arith,
    )

-- The timeout is counted once: where it has been counted, or no answer has come for three seconds,
-- the count is 1 after the tick, and else 0; a tick changes nothing else, and an answer resets it.
pub on_tick_once :
    (m : HandlerManager) (now : ℕ)
    → m.recv_timeout ≤ 1
    → ((on_tick m now).recv_timeout ≤ 1)
      × (((on_tick m now).recv_timeout ≡ 1)
          ↔ ((m.recv_timeout ≡ 1) ⊎ (m.last_recv_time + 3000 ≤ now)))
      × ((on_tick m now).handlers ≡ m.handlers)
      × ((on_tick m now).last_recv_time ≡ m.last_recv_time)
      × ((type : ℕ) → (on_command (on_tick m now) type now).0.recv_timeout ≡ 0)
unfolding on_tick on_command
on_tick_once m now h = ground arith
