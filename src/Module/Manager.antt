-- ===== src/Module/Manager.antt =====
-- module/base/module_manager.go and module_agent.go: the modules of a process, from the settings to
-- their end. A module is a number; what it does is a list of events. The application's settings are
-- the pairs of a map in the order of one `range`. The goroutine that runs a module and the wait for it
-- are events of their own; a module that panics is not modelled.
pub mod Settings
pub mod Order
mod Tests
use mqant.Prelude.{
  ℕ, zero, suc, ◌+◌, ltb, Bool, true, false, if◌then◌else◌, Option, none, some, List, [], ◌∷◌, ◌++◌,
  Bytes, same, Dict, find, put, length, get_elem?, drop,
}

-- `conf.ModuleSettings`
pub record ModuleSettings : Type 0 where
  pub id : Bytes
  pub process_id : Bytes

-- `ModuleAgent`: the module, what its `GetType` says, and its settings.
pub record ModuleAgent : Type 0 where
  pub mi : ℕ
  pub get_type : Bytes
  pub settings : Option ModuleSettings

pub record ModuleManager : Type 0 where
  pub mods : List ModuleAgent
  pub run_mods : List ModuleAgent

pub new_module_manager : ModuleManager
new_module_manager = record { mods = []; run_mods = [] }

-- `Register`
pub register : ℕ → Bytes → ModuleManager → ModuleManager
register mi type' mer = record mer {
  mods = mer.mods ++ record { mi = mi; get_type = type'; settings = none } ∷ [];
}

-- `RegisterRunMod`
pub register_run_mod : ℕ → Bytes → ModuleManager → ModuleManager
register_run_mod mi type' mer = record mer {
  run_mods = mer.run_mods ++ record { mi = mi; get_type = type'; settings = none } ∷ [];
}

-- The inner loop of `CheckModuleSettings`: `gid` has the type of an id, `pid` the id of a process;
-- `none` is a panic.
unfoldable pub check_settings :
    Bytes → List ModuleSettings → Dict Bytes → Dict Bytes → Option (Dict Bytes)
check_settings type' [] gid pid = some gid
check_settings type' (setting ∷ settings) gid pid =
    let rest =
      check_settings type' settings (put setting.id type' gid)
        (put setting.process_id setting.id pid) in
    elim (find setting.id gid) [
      | some stype ↦ none
      | none ↦ elim (find setting.process_id pid) [ some id ↦ none | none ↦ rest ]
    ]

-- The outer loop of `CheckModuleSettings`.
unfoldable pub check_types : Dict (List ModuleSettings) → Dict Bytes → Option (Dict Bytes)
check_types [] gid = some gid
check_types ((type', settings) ∷ m) gid = elim (check_settings type' settings gid []) [
  | none ↦ none
  | some gid' ↦ check_types m gid'
]

-- `CheckModuleSettings`: whether it returns.
unfoldable pub check_module_settings : Dict (List ModuleSettings) → Bool
check_module_settings m = elim (check_types m []) [ none ↦ false | some gid ↦ true ]

-- The loop over the settings of the type: the modules to run, and the settings of the module after it.
-- The agents that are appended are one agent, so they have its last settings.
abbrev pub match_settings :
    Bytes → List ModuleSettings → ℕ → Option ModuleSettings → ℕ × Option ModuleSettings
match_settings process_id [] n last = (n, last)
match_settings process_id (setting ∷ settings) n last =
    if same process_id setting.process_id
    then match_settings process_id settings (suc n) (some setting)
    else match_settings process_id settings n last

-- The loop over the types, which stops at the type of the module.
abbrev pub match_type : Bytes → Bytes → Dict (List ModuleSettings) → ℕ × Option ModuleSettings
match_type process_id type' [] = (0, none)
match_type process_id type' ((t, settings) ∷ m) =
    if same type' t
    then match_settings process_id settings 0 none
    else match_type process_id type' m

abbrev pub repeated : ℕ → ModuleAgent → List ModuleAgent
repeated zero m = []
repeated (suc n) m = m ∷ repeated n m

-- The loop over the modules: those that run in the process.
unfoldable pub select_mods :
    Bytes → Dict (List ModuleSettings) → List ModuleAgent → List ModuleAgent
select_mods process_id settings [] = []
select_mods process_id settings (m ∷ mods) =
    let (n, last) = match_type process_id m.get_type settings in
    repeated n (record m { settings = last }) ++ select_mods process_id settings mods

-- What the loop writes into the agents themselves: the settings of the last match.
unfoldable pub set_settings :
    Bytes → Dict (List ModuleSettings) → List ModuleAgent → List ModuleAgent
set_settings process_id settings [] = []
set_settings process_id settings (m ∷ mods) =
    let rest = set_settings process_id settings mods in
    elim (match_type process_id m.get_type settings).1 [
      | none ↦ m ∷ rest
      | some setting ↦ record m { settings = some setting } ∷ rest
    ]

-- What happens to a module.
pub data Event : Type 0 where
  on_init : ModuleAgent → Event
  inited : ModuleAgent → Event
  on_ready : ModuleAgent → Event
  run : ModuleAgent → Event
  close_sig : ModuleAgent → Event
  waited : ModuleAgent → Event
  on_destroy : ModuleAgent → Event

-- The loop that initialises; `i` counts, and `has_inited` says whether the application has a hook.
unfoldable pub init_loop : Bool → ℕ → ℕ → List ModuleAgent → List Event
init_loop has_inited bootstrap_count i [] = []
init_loop has_inited bootstrap_count i (m ∷ mods) =
    on_init m ∷ (if has_inited then inited m ∷ [] else [])
    ++ on_ready m ∷ (if ltb i bootstrap_count then run m ∷ [] else [])
    ++ init_loop has_inited bootstrap_count (suc i) mods

abbrev pub run_all : List ModuleAgent → List Event
run_all [] = []
run_all (m ∷ mods) = run m ∷ run_all mods

-- `Init`: `none` is the panic of the check, which reads the settings `conf` of the process.
unfoldable pub init :
    Bool
    → Dict (List ModuleSettings)
    → Dict (List ModuleSettings)
    → Bytes
    → ModuleManager
    → Option (ModuleManager × List Event)
unfolding check_module_settings select_mods init_loop
init has_inited conf settings process_id mer =
    let bootstrap_count = length mer.run_mods in
    let run_mods = mer.run_mods ++ select_mods process_id settings mer.mods in
    if check_module_settings conf
    then some (
      record mer { mods = set_settings process_id settings mer.mods; run_mods = run_mods },
      init_loop has_inited bootstrap_count 0 run_mods ++ run_all (drop bootstrap_count run_mods),
    )
    else none

-- The loop of `Destroy`, down from the index i.
unfoldable pub destroy_loop : List ModuleAgent → ℕ → List Event
destroy_loop run_mods zero = []
destroy_loop run_mods (suc i) = elim (get_elem? run_mods i) [
  | none ↦ []
  | some m ↦ close_sig m ∷ waited m ∷ on_destroy m ∷ destroy_loop run_mods i
]

-- `Destroy`
unfoldable pub destroy : ModuleManager → List Event
unfolding destroy_loop
destroy mer = destroy_loop mer.run_mods (length mer.run_mods)
