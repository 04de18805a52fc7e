-- ===== src/CmdHandler/Examples.antt =====
-- The handlers of src/protocol/cmd_handler.cc at a concrete table, and the properties there.
use cdroid_demo.Common.{◌≡◌, refl, false, ◌&&◌, not, [], ◌∷◌, ◌++◌, ◌==◌, if◌then◌else◌}
use cdroid_demo.CmdHandler.{HandlerManager, find_handlers, contains, add_handler, remove_handler}
use cdroid_demo.CmdHandler.Table.{IsTable, without}
use cdroid_demo.CmdHandler.Dispatch.{called_for, add_handler_lem, remove_handler_lem}

-- The handlers 7 and 8 for the type 1, and 7 for the type 2.
abbrev manager : HandlerManager
manager = record {
  last_recv_time = 100;
  recv_timeout = 0;
  handlers = (1, 7 ∷ 8 ∷ []) ∷ (2, 7 ∷ []) ∷ [];
}

manager-IsTable : IsTable manager.handlers
unfolding find_handlers contains
manager-IsTable = (refl, refl, (refl, (refl, tt)), (refl, refl, (refl, tt), tt))

add_handler_lem_example :
    IsTable (add_handler manager 2 8).0.handlers
    × ((add_handler manager 2 8).1 ≡ not (contains 8 (called_for manager 2)))
    × (called_for (add_handler manager 2 8).0 2 ≡ (
        if (add_handler manager 2 8).1 && (2 == 2)
        then called_for manager 2 ++ 8 ∷ []
        else called_for manager 2))
add_handler_lem_example = add_handler_lem manager 2 8 2 manager-IsTable

remove_handler_lem_example :
    IsTable (remove_handler manager 7).handlers
    × (called_for (remove_handler manager 7) 1 ≡ without 7 (called_for manager 1))
    × (contains 7 (called_for (remove_handler manager 7) 1) ≡ false)
remove_handler_lem_example = remove_handler_lem manager 7 1 manager-IsTable
