-- ===== src/Examples/Remote.antt =====
-- Runs of the map states and the mappings.
use lateral_root.Prelude.{ℕ, ◌≡◌, true, false, Option, some, List, [], ◌∷◌, ◌++◌}
use lateral_root.RemoteMapState.{RemoteMapState, unknown, up, down, construct_full}
use lateral_root.RemoteMapState.Laws.{AreApart, construct_full-AreApart}
use lateral_root.Mapping.{SchedulerMethods, CommandMapping, construct_mapping}
use lateral_root.Mapping.Edges.{
  History, press_history, hold_history, rising_edges, both_edges, press_history-rising_edges,
  hold_history-both_edges,
}

-- A mapping of two keys with one neg key, and a state in which its keys are held.
abbrev forward : RemoteMapState
forward = construct_full unknown up (0 ∷ 4 ∷ []) (1 ∷ []) false false

abbrev held : RemoteMapState
held = construct_full down up (0 ∷ 4 ∷ []) [] true false

abbrev idle : RemoteMapState
idle = construct_full down up [] [] false false

construct_full-AreApart_example :
    AreApart (construct_full unknown up (0 ∷ 1 ∷ []) (1 ∷ []) false false)
construct_full-AreApart_example =
    construct_full-AreApart unknown up (0 ∷ 1 ∷ []) (1 ∷ []) false false

data Call : Type 0 where
  added removed : Option ℕ → Call

-- A scheduler that writes down what is asked of it.
abbrev recorder : SchedulerMethods (List Call)
recorder = record {
  add_command = λ c t. t ++ added c ∷ [];
  remove_command = λ c b t. t ++ removed c ∷ [];
  is_command_scheduled = λ c t. false;
}

abbrev mapping : CommandMapping
mapping = construct_mapping (some 1 ∷ some 2 ∷ []) forward

abbrev history : History (List Call)
history = (held, λ t. t) ∷ (held, λ t. t) ∷ (idle, λ t. t) ∷ (held, λ t. t) ∷ []

press_history-rising_edges_example :
    (press_history recorder history (record { mapping = mapping; pressed = false }, [])).1
    ≡ rising_edges recorder mapping false history []
press_history-rising_edges_example =
    press_history-rising_edges recorder history (record { mapping = mapping; pressed = false }) []

hold_history-both_edges_example :
    (hold_history recorder history (record { mapping = mapping; command_scheduled = false }, [])).1
    ≡ both_edges recorder mapping false history []
hold_history-both_edges_example =
    hold_history-both_edges recorder history
      (record { mapping = mapping; command_scheduled = false }) []
