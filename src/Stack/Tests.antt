-- ===== src/Stack/Tests.antt =====
-- Runs of `detect_cycle` of env_common/src/logic/api_stack.rs, and its theorems at concrete graphs.
use infraweave.Prelude.{◌≡◌, refl, [], ◌∷◌}
use infraweave.Stack.Graph.{Graph}
use infraweave.Stack.Cycle.{done, found, detect_cycle}
use infraweave.Stack.Acyclic.{Decides, detect_cycle-Decides}

-- a → b → c → b, and d → a
abbrev cyclic : Graph
cyclic = ("d", "a" ∷ []) ∷ ("a", "b" ∷ []) ∷ ("b", "c" ∷ []) ∷ ("c", "x" ∷ "b" ∷ []) ∷ []

abbrev acyclic : Graph
acyclic = ("d", "a" ∷ "b" ∷ []) ∷ ("a", "b" ∷ []) ∷ ("b", "x" ∷ []) ∷ []

detect_cyclic : detect_cycle cyclic ≡ found ("b" ∷ "c" ∷ [])
unfolding detect_cycle
detect_cyclic = refl

detect_acyclic :
    detect_cycle acyclic
    ≡ done (record { visited = "x" ∷ "b" ∷ "a" ∷ "d" ∷ []; stack = []; path = [] })
unfolding detect_cycle
detect_acyclic = refl

detect_cycle-Decides_example : Decides acyclic (detect_cycle acyclic)
detect_cycle-Decides_example = detect_cycle-Decides acyclic
