-- ===== src/Tui/DetailValid.antt =====
-- An invariant of cli/src/tui/state/detail_state.rs over every sequence of operations.
use infraweave.Prelude.{
  ◌-◌, ◌≤◌, ◌<◌, ◌≡◌, refl, ℕ, zero, suc, ◌⊎◌, inl, inr, Option, none, some, String, List, [], ◌∷◌,
  length, arith,
}
use infraweave.Tui.Detail
use infraweave.Tui.Detail.{DetailState, get_max_scroll}

-- The operations, as the event handlers call them.
pub data Operation (M D N : Type 0) : Type 0 where
  close scroll_up scroll_down scroll_page_up scroll_page_down : Operation M D N
  browser_up browser_down toggle_wrap focus_left focus_right : Operation M D N
  show_module show_stack : M → List N → String → Operation M D N
  show_deployment : D → List N → String → Operation M D N
  show_message show_error : String → Operation M D N

module _ {M D N : Type 0} where
  unfoldable pub apply : Operation M D N → DetailState M D N → DetailState M D N
  apply close s = Detail.close s
  apply scroll_up s = Detail.scroll_up s
  apply scroll_down s = Detail.scroll_down s
  apply scroll_page_up s = Detail.scroll_page_up s
  apply scroll_page_down s = Detail.scroll_page_down s
  apply browser_up s = Detail.browser_up s
  apply browser_down s = Detail.browser_down s
  apply toggle_wrap s = Detail.toggle_wrap s
  apply focus_left s = Detail.focus_left s
  apply focus_right s = Detail.focus_right s
  apply (show_module m items content) s = Detail.show_module m items content s
  apply (show_stack m items content) s = Detail.show_stack m items content s
  apply (show_deployment d items content) s = Detail.show_deployment d items content s
  apply (show_message message) s = Detail.show_message message s
  apply (show_error error) s = Detail.show_error error s

  unfoldable pub run_detail : List (Operation M D N) → DetailState M D N → DetailState M D N
  run_detail [] s = s
  run_detail (op ∷ ops) s = run_detail ops (apply op s)

-- At most one of a module, a stack and a deployment.
abbrev pub IsOneSubject : {M D : Type 0} → Option M → Option M → Option D → Type 0
IsOneSubject none none d = Unit
IsOneSubject none (some s) none = Unit
IsOneSubject none (some s) (some d) = ⊥
IsOneSubject (some m) none none = Unit
IsOneSubject (some m) none (some d) = ⊥
IsOneSubject (some m) (some s) d = ⊥

-- The selected item is the first, or one of those shown, where `show_message`, `close` and `new` show none;
-- the scroll lies in its range, and there is one subject at most.
pub record IsValid {M D N : Type 0} (s : DetailState M D N) : Type 0 where
  pub item : (s.detail_browser_index ≡ 0) ⊎ (s.detail_browser_index < length s.detail_nav_items)
  pub scroll : s.detail_scroll ≤ get_max_scroll s
  pub subject : IsOneSubject s.detail_module s.detail_stack s.detail_deployment

first_or_shown : (i n : ℕ) → i ≤ n - 1 → (i ≡ 0) ⊎ (i < n)
first_or_shown zero n h = inl refl
first_or_shown (suc i) n h = inr (omega arith)

module _ {M D N : Type 0} where
  valid :
      {s : DetailState M D N}
      → s.detail_browser_index ≤ length s.detail_nav_items - 1
      → s.detail_scroll ≤ get_max_scroll s
      → IsOneSubject s.detail_module s.detail_stack s.detail_deployment
      → IsValid s
  valid i r o = record { item = first_or_shown _ _ i; scroll = r; subject = o }

  IsValid-apply : (op : Operation M D N) (s : DetailState M D N) → IsValid s → IsValid (apply op s)
  unfolding apply get_max_scroll Detail.close Detail.scroll_up Detail.scroll_down
      Detail.scroll_page_up Detail.scroll_page_down Detail.browser_up Detail.browser_down
      Detail.toggle_wrap Detail.focus_left Detail.focus_right Detail.show_module Detail.show_stack
      Detail.show_deployment Detail.show_message Detail.show_error
  IsValid-apply close s h = valid (ground arith) (ground arith) tt
  IsValid-apply scroll_up s h = valid (ground arith) (ground arith) h.subject
  IsValid-apply scroll_down s h = valid (ground arith) (ground arith) h.subject
  IsValid-apply scroll_page_up s h = valid (ground arith) (ground arith) h.subject
  IsValid-apply scroll_page_down s h = valid (ground arith) (ground arith) h.subject
  IsValid-apply toggle_wrap s h = valid (ground arith) (ground arith) h.subject
  IsValid-apply browser_up s h = valid (ground arith) (ground arith) (ground arith)
  IsValid-apply browser_down s h = valid (ground arith) (ground arith) (ground arith)
  IsValid-apply focus_left s h = valid (ground arith) (ground arith) h.subject
  IsValid-apply focus_right s h = valid (ground arith) (ground arith) h.subject
  IsValid-apply (show_module m items content) s h = valid (ground arith) (ground arith) tt
  IsValid-apply (show_stack m items content) s h = valid (ground arith) (ground arith) tt
  IsValid-apply (show_deployment d items content) s h = valid (ground arith) (ground arith) tt
  IsValid-apply (show_message message) s h = valid (ground arith) (ground arith) tt
  IsValid-apply (show_error error) s h = valid (ground arith) (ground arith) tt

  -- Whatever operations run from a state where this holds, the selected item is the first or one of those
  -- shown, the scroll lies in its range, and at most one of a module, a stack and a deployment is shown.
  pub run_detail-IsValid :
      (ops : List (Operation M D N)) (s : DetailState M D N)
      → IsValid s
      → IsValid (run_detail ops s)
  unfolding run_detail
  run_detail-IsValid [] s h = h
  run_detail-IsValid (op ∷ ops) s h = run_detail-IsValid ops (apply op s) (IsValid-apply op s h)
