-- ===== src/Module/Manager/Order.antt =====
-- module/base/module_manager.go: the order in which the modules start and end.
use mqant.Prelude.{
  ℕ, zero, suc, ◌+◌, ◌≤◌, ◌<◌, le→ltb, lt→ltb, Bool, true, if◌then◌else◌, some, List, [], ◌∷◌, ◌++◌,
  Bytes, Dict, length, get_elem?, take, drop-length_append, ◌≡◌, refl, sym, ap, ◌∙◌, arith,
}
use mqant.Module.Manager.{
  ModuleSettings, ModuleAgent, ModuleManager, check_module_settings, select_mods, set_settings,
  Event, on_init, inited, on_ready, run, close_sig, waited, on_destroy, init_loop, run_all, init,
  destroy_loop, destroy,
}

-- A module is initialised and is ready, before the rest.
abbrev pub ready : Bool → ModuleAgent → List Event → List Event
ready has_inited m es = on_init m ∷ (if has_inited then inited m ∷ [] else []) ++ on_ready m ∷ es

-- The modules one after another.
abbrev pub all_ready : Bool → List ModuleAgent → List Event
all_ready has_inited [] = []
all_ready has_inited (m ∷ mods) = ready has_inited m (all_ready has_inited mods)

-- Each module runs as soon as it is ready.
abbrev pub all_started : Bool → List ModuleAgent → List Event → List Event
all_started has_inited [] es = es
all_started has_inited (m ∷ mods) es = ready has_inited m (run m ∷ all_started has_inited mods es)

-- The last module is told to close, waited for and destroyed, and so on to the first.
abbrev pub all_ended : List ModuleAgent → List Event
all_ended [] = []
all_ended (m ∷ mods) = all_ended mods ++ close_sig m ∷ waited m ∷ on_destroy m ∷ []

init_loop-rest :
    (b : Bool) (n i : ℕ) (mods : List ModuleAgent) → n ≤ i → init_loop b n i mods ≡ all_ready b mods
unfolding init_loop
init_loop-rest b n i [] h = refl
init_loop-rest b n i (m ∷ mods) h = ground (arith, init_loop-rest b n (suc i) mods, le→ltb i n h)

init_loop-bootstrap :
    (b : Bool) (n i : ℕ) (boot mods : List ModuleAgent)
    → i + length boot ≡ n
    → init_loop b n i (boot ++ mods) ≡ all_started b boot (all_ready b mods)
unfolding init_loop
init_loop-bootstrap b n i [] mods e = init_loop-rest b n i mods (omega arith)
init_loop-bootstrap b n i (m ∷ boot) mods e =
    ground
      (arith, init_loop-bootstrap b n (suc i) boot mods (omega arith), lt→ltb i n (omega arith))

take-suc :
    {A : Type 0} (xs : List A) (i : ℕ) (x : A)
    → get_elem? xs i ≡ some x
    → take (suc i) xs ≡ take i xs ++ x ∷ []
take-suc [] i x e = absurd cc
take-suc (y ∷ xs) zero x e = ground (arith, e)
take-suc (y ∷ xs) (suc i) x e = ap (λ l. y ∷ l) (take-suc xs i x e)

get_elem?-some :
    {A : Type 0} (xs : List A) (i : ℕ) → i < length xs → (x : A) × (get_elem? xs i ≡ some x)
get_elem?-some [] i h = absurd (omega arith)
get_elem?-some (x ∷ xs) zero h = (x, refl)
get_elem?-some (x ∷ xs) (suc i) h = get_elem?-some xs i (omega arith)

take-length : {A : Type 0} (xs : List A) → take (length xs) xs ≡ xs
take-length [] = refl
take-length (x ∷ xs) = ap (λ l. x ∷ l) (take-length xs)

all_ended-append :
    (mods : List ModuleAgent) (m : ModuleAgent)
    → all_ended (mods ++ m ∷ []) ≡ close_sig m ∷ waited m ∷ on_destroy m ∷ all_ended mods
all_ended-append [] m = refl
all_ended-append (m' ∷ mods) m =
    ap (λ l. l ++ close_sig m' ∷ waited m' ∷ on_destroy m' ∷ []) (all_ended-append mods m)

destroy_loop-take :
    (mods : List ModuleAgent) (i : ℕ)
    → i ≤ length mods
    → destroy_loop mods i ≡ all_ended (take i mods)
unfolding destroy_loop
destroy_loop-take mods zero h = refl
destroy_loop-take mods (suc i) h =
    let (m, e) = get_elem?-some mods i (omega arith) in
    ground (arith, e, destroy_loop-take mods i (omega arith))
    ∙ sym (all_ended-append (take i mods) m)
    ∙ ap all_ended (sym (take-suc mods i m e))

destroy_order : (mer : ModuleManager) → destroy mer ≡ all_ended mer.run_mods
unfolding destroy
destroy_order mer =
    destroy_loop-take mer.run_mods (length mer.run_mods) (omega arith)
    ∙ ap all_ended (take-length mer.run_mods)

-- The manager after `Init`.
abbrev pub initialised : Bytes → Dict (List ModuleSettings) → ModuleManager → ModuleManager
initialised process_id settings mer = record {
  mods = set_settings process_id settings mer.mods;
  run_mods = mer.run_mods ++ select_mods process_id settings mer.mods;
}

-- If the check of the settings passes, the modules that were registered to run are initialised, are
-- ready and run, one after another; then the modules that are selected for the process are initialised
-- and ready, one after another, and none of them runs before all are ready. `Destroy` then ends all of
-- these modules, the last first: each is told to close, waited for and destroyed before the next.
pub init_order :
    (b : Bool) (conf settings : Dict (List ModuleSettings)) (process_id : Bytes)
    (mer : ModuleManager)
    → check_module_settings conf ≡ true
    → (init b conf settings process_id mer
        ≡ some (
          initialised process_id settings mer,
          all_started b mer.run_mods (all_ready b (select_mods process_id settings mer.mods))
              ++ run_all (select_mods process_id settings mer.mods),
        ))
      × (destroy (initialised process_id settings mer)
          ≡ all_ended (mer.run_mods ++ select_mods process_id settings mer.mods))
unfolding init
init_order b conf settings process_id mer e = (
  ground (
    arith,
    e,
    init_loop-bootstrap b (length mer.run_mods) 0 mer.run_mods
        (select_mods process_id settings mer.mods) (omega arith),
    drop-length_append mer.run_mods (select_mods process_id settings mer.mods),
  ),
  destroy_order (initialised process_id settings mer),
)
