-- ===== src/Lifecycle/Shutdown.antt =====
-- The shutdown sequence: which components are shut down, in which order, and what is reported.
use authentication_v.Base.{
  ℕ, ◌≡◌, refl, ◌↔◌, Bool, true, false, String, List, [], ◌∷◌, ◌++◌, arith, map, Bool-cases, inl,
  inr, ◌⊎◌, if◌then◌else◌,
}
use authentication_v.Lifecycle.Machine.{LifecycleState}
use authentication_v.Lifecycle.Coordinator.{
  Component, Coordinator, ComponentResult, ShutdownConfig, Race, finished, rejected, timed_out,
  shutdown_loop, failed_names, shutdown_all, result_of, prepare_all, handle_state_change,
}

abbrev pub HasFinished : Component → Type 0
HasFinished c = (d : ℕ) × (c.race ≡ finished d)

abbrev pub component_names : List Component → List String
component_names cs = map (λ c. c.name) cs

abbrev pub result_names : List ComponentResult → List String
result_names rs = map (λ r. r.name) rs

-- The answer of the race, as a test.
abbrev pub succeeds : Component → Bool
succeeds c = elim c.race [ finished d ↦ true | rejected d m ↦ false | timed_out d ↦ false ]

result-fields :
    (c : Component)
    → ((result_of c c.race).name ≡ c.name) × ((result_of c c.race).success ≡ succeeds c)
unfolding result_of
result-fields c = by_race c c.race refl
  where
    by_race :
        (c : Component) (r : Race)
        → c.race ≡ r
        → ((result_of c c.race).name ≡ c.name) × ((result_of c c.race).success ≡ succeeds c)
    by_race c (finished d) e = rw e (refl, refl)
    by_race c (rejected d m) e = rw e (refl, refl)
    by_race c (timed_out d) e = rw e (refl, refl)

-- With `continueOnError` every component is tried once, in the order of the list.
loop_continues :
    (config : ShutdownConfig) (cs : List Component)
    → config.continue_on_error ≡ true
    → result_names (shutdown_loop config cs) ≡ component_names cs
unfolding shutdown_loop
loop_continues config [] on = refl
loop_continues config (c ∷ cs) on = ground (arith, result-fields c, loop_continues config cs on)

abbrev pub failing_names : List Component → List String
failing_names [] = []
failing_names (c ∷ cs) = if succeeds c then failing_names cs else c.name ∷ failing_names cs

loop_fails :
    (config : ShutdownConfig) (cs : List Component)
    → config.continue_on_error ≡ true
    → failed_names (shutdown_loop config cs) ≡ failing_names cs
unfolding shutdown_loop failed_names
loop_fails config [] on = refl
loop_fails config (c ∷ cs) on = ground (arith, result-fields c, loop_fails config cs on)

-- The first shutdown of a coordinator that continues on errors tries every component once, in the
-- order in which they are listed, reports as failed exactly those whose shutdown was rejected or
-- timed out, and succeeds exactly if there are none.
pub shutdown_all-continues :
    (config : ShutdownConfig) (elapsed : ℕ) (c : Coordinator)
    → c.shutting_down ≡ false
    → config.continue_on_error ≡ true
    → let r = (shutdown_all config elapsed c).1 in
      (result_names r.components ≡ component_names c.components)
      × (r.failed_components ≡ failing_names c.components)
      × ((r.success ≡ true) ↔ (failing_names c.components ≡ []))
unfolding shutdown_all
shutdown_all-continues config elapsed c idle on = rw idle (
  loop_continues config c.components on,
  loop_fails config c.components on,
  rw (loop_fails config c.components on) (λ h. ground arith, λ h. ground arith),
)

-- Where it stops at the first failure: the results before the end are successes.
loop_stops :
    (config : ShutdownConfig) (cs : List Component)
    → config.continue_on_error ≡ false
    → (rest : List Component) × (result_names (shutdown_loop config cs) ++ component_names rest
        ≡ component_names cs)
      × ((failed_names (shutdown_loop config cs) ≡ []) × (rest ≡ [])
          ⊎ ((name : String) × (failed_names (shutdown_loop config cs) ≡ name ∷ [])))
unfolding shutdown_loop failed_names
loop_stops config [] off = ([], refl, inl (refl, refl))
loop_stops config (c ∷ cs) off =
    let (named, fate) = result-fields c in
    elim (Bool-cases (succeeds c)) [
      | inl good ↦
          let (rest, split, last) = loop_stops config cs off in (rest, ground arith, ground arith)
      | inr bad ↦ (cs, ground arith, inr (c.name, ground arith))
    ]

-- The first shutdown of a coordinator that does not continue on errors tries the components in the
-- order in which they are listed, up to and including the first that fails: what it leaves untried
-- is the rest of the list, it leaves nothing untried unless one failed, and at most one failed.
pub shutdown_all-stops :
    (config : ShutdownConfig) (elapsed : ℕ) (c : Coordinator)
    → c.shutting_down ≡ false
    → config.continue_on_error ≡ false
    → let r = (shutdown_all config elapsed c).1 in
      (rest : List Component) × (result_names r.components ++ component_names rest
        ≡ component_names c.components)
      × ((r.failed_components ≡ []) × (rest ≡ [])
          ⊎ ((name : String) × (r.failed_components ≡ name ∷ [])))
unfolding shutdown_all
shutdown_all-stops config elapsed c idle off = rw idle (loop_stops config c.components off)

-- After a shutdown every further one touches no component, changes nothing and reports no success,
-- until the coordinator is reset.
pub shutdown_all_once :
    (config config' : ShutdownConfig) (elapsed elapsed' : ℕ) (c : Coordinator)
    → let c' = (shutdown_all config elapsed c).0 in
      ((shutdown_all config' elapsed' c').0 ≡ c')
      × ((shutdown_all config' elapsed' c').1.components ≡ [])
      × ((shutdown_all config' elapsed' c').1.success ≡ false)
unfolding shutdown_all
shutdown_all_once config config' elapsed elapsed' c = (ground arith, ground arith, ground arith)

-- However often the components are prepared, by the state machine or by hand, each is prepared at
-- most once: after the first time no component is called.
pub prepare_all_once :
    (from to : LifecycleState) (c : Coordinator)
    → let c' = (prepare_all c).0 in
      ((prepare_all c').1 ≡ [])
      × ((prepare_all c').0 ≡ c')
      × ((handle_state_change from to c').1 ≡ [])
      × ((handle_state_change from to c').0 ≡ c')
unfolding prepare_all handle_state_change
prepare_all_once from to c = (ground arith, ground arith, ground arith, ground arith)
