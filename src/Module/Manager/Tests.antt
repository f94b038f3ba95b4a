-- ===== src/Module/Manager/Tests.antt =====
-- module/base: a process with three modules.
use mqant.Prelude.{true, ◌&&◌, none, some, List, [], ◌∷◌, ◌++◌, Bytes, Dict, ◌≡◌, refl}
use mqant.Module.Manager.{
  ModuleSettings, ModuleAgent, ModuleManager, check_settings, check_types, check_module_settings,
  select_mods, init, destroy,
}
use mqant.Module.Manager.Order.{all_started, all_ready, all_ended, init_order, initialised}
use mqant.Module.Manager.Settings.{
  distinct, all_ids, processes_distinct, check_module_settings-distinct,
}
use mqant.Module.Manager.{run_all}

-- One module of the type 1 and one of the type 2, each in the process 9.
abbrev conf : Dict (List ModuleSettings)
conf =
    (1 ∷ [], record { id = 11 ∷ []; process_id = 9 ∷ [] } ∷ [])
    ∷ (2 ∷ [], record { id = 12 ∷ []; process_id = 9 ∷ [] } ∷ [])
    ∷ []

abbrev an_agent : Bytes → ModuleAgent
an_agent type' = record { mi = 0; get_type = type'; settings = none }

abbrev manager : ModuleManager
manager = record {
  mods = an_agent (1 ∷ []) ∷ an_agent (2 ∷ []) ∷ [];
  run_mods = an_agent (3 ∷ []) ∷ [];
}

conf_passes : check_module_settings conf ≡ true
unfolding check_module_settings check_types check_settings
conf_passes = refl

init_order_example :
    (init true conf conf (9 ∷ []) manager
      ≡ some (
        initialised (9 ∷ []) conf manager,
        all_started true manager.run_mods (all_ready true (select_mods (9 ∷ []) conf manager.mods))
            ++ run_all (select_mods (9 ∷ []) conf manager.mods),
      ))
    × (destroy (initialised (9 ∷ []) conf manager)
        ≡ all_ended (manager.run_mods ++ select_mods (9 ∷ []) conf manager.mods))
init_order_example = init_order true conf conf (9 ∷ []) manager conf_passes

check_module_settings-distinct_example :
    check_module_settings conf ≡ (distinct (all_ids conf) && processes_distinct conf)
check_module_settings-distinct_example = check_module_settings-distinct conf
