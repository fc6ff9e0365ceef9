-- ===== src/Tui/Search.antt =====
-- cli/src/tui/state/search_state.rs: the search box. A query is the list of its characters.
use infraweave.Prelude.{
  ◌≡◌, refl, ap, Bool, true, false, not, ◌&&◌, Char, List, [], ◌∷◌, ◌++◌, is_empty,
}

pub record SearchState : Type 0 where
  pub search_mode : Bool
  pub search_query : List Char

-- `String::pop`
abbrev pub pop : List Char → List Char
pop [] = []
pop (c ∷ []) = []
pop (c ∷ d ∷ cs) = c ∷ pop (d ∷ cs)

unfoldable pub new : SearchState
new = record { search_mode = false; search_query = [] }

unfoldable pub enter_search_mode : SearchState → SearchState
enter_search_mode s = record s { search_mode = true; search_query = [] }

unfoldable pub exit_search_mode : SearchState → SearchState
exit_search_mode s = record s { search_mode = false; search_query = [] }

unfoldable pub input : Char → SearchState → SearchState
input c s = record s { search_query = s.search_query ++ (c ∷ []) }

unfoldable pub backspace : SearchState → SearchState
backspace s = record s { search_query = pop s.search_query }

unfoldable pub is_active : SearchState → Bool
is_active s = s.search_mode && not (is_empty s.search_query)

-- The operations on the characters typed, one after the other
unfoldable pub input_all : List Char → SearchState → SearchState
input_all [] s = s
input_all (c ∷ cs) s = input_all cs (input c s)

unfoldable pub backspace_all : List Char → SearchState → SearchState
backspace_all [] s = s
backspace_all (c ∷ cs) s = backspace (backspace_all cs s)

pop-append : (cs : List Char) (c : Char) → pop (cs ++ (c ∷ [])) ≡ cs
pop-append [] c = refl
pop-append (x ∷ []) c = refl
pop-append (x ∷ y ∷ cs) c = ap (λ l. x ∷ l) (pop-append (y ∷ cs) c)

backspace-input : (c : Char) (s : SearchState) → backspace (input c s) ≡ s
unfolding backspace input
backspace-input c s = ap (λ q. record s { search_query = q }) (pop-append s.search_query c)

-- One backspace for each character typed brings back the search box as it was.
pub backspace_all-input_all :
    (cs : List Char) (s : SearchState) → backspace_all cs (input_all cs s) ≡ s
unfolding backspace_all input_all
backspace_all-input_all [] s = refl
backspace_all-input_all (c ∷ cs) s =
    rw (backspace_all-input_all cs (input c s), backspace-input c s)
