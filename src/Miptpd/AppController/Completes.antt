-- ===== src/Miptpd/AppController/Completes.antt =====
-- miptpd/src/lib/miptp_app_controller.c: `MIPTPAppController_handle_completes`, which removes nodes of
-- the list that it walks. The list is that of commons/src/list.c on its heap.
use network_course_uio.Prelude.{
  ℕ, zero, suc, ◌+◌, Bool, true, false, ◌||◌, none, some, List, [], ◌∷◌, ◌++◌, ◌==◌, length,
}
use network_course_uio.Commons.LinkedList.{
  Ptr, null, ListNode, LinkedList, Cmd, ◌>>=◌, pure, load, remove,
}
use network_course_uio.Commons.LinkedList.Chain.{Cells, Chain}
use network_course_uio.Miptpd.AppConnection.{AppConnection, is_complete}
use network_course_uio.Miptpd.AppConnection
use network_course_uio.Miptpd.AppController.{World, send_client_package}

-- The response to the application of a complete connection, whose failure is passed over
unfoldable pub respond : World → (i : ℕ) → AppConnection → Cmd (List (List ℕ))
respond world i connection h = elim (AppConnection.result connection) [
  | none ↦ none
  | some result ↦ elim (send_client_package world i result) [
    | none ↦ none
    | some none ↦ some ([], h)
    | some (some bytes) ↦ some (bytes ∷ [], h)
  ]
]

module _ (world : World) (connection_at : Ptr → AppConnection) where
  -- The body of the loop at the node `cur`; the rest of the loop is `go_on`.
  unfoldable pub visit :
      (go_on : ℕ → LinkedList → Ptr → Cmd (List (List ℕ) × LinkedList))
      → (i : ℕ) → LinkedList
      → (cur : Ptr) → ListNode
      → Cmd (List (List ℕ) × LinkedList)
  visit go_on i list cur n = elim (is_complete (connection_at n.value)) [
    | true ↦ do
      sent ← respond world i (connection_at n.value)
      removed ← remove list cur
      m ← load cur
      later ← go_on (i + length sent) (removed.1) m.next
      pure (sent ++ later.0, later.1)
    | false ↦ go_on i list n.next
  ]

  -- The loop from the node `cur` on, with fuel for its rounds: what it sends, and the list
  unfoldable pub complete_from :
      ℕ → (i : ℕ) → LinkedList → (cur : Ptr) → Cmd (List (List ℕ) × LinkedList)
  complete_from zero i list cur = λ h. none
  complete_from (suc fuel) i list cur = elim (cur == null) [
    | true ↦ pure ([], list)
    | false ↦ do n ← load cur; visit (complete_from fuel) i list cur n
  ]

  -- `MIPTPAppController_handle_completes`; the connections are behind the pointers of the list.
  unfoldable pub handle_completes : (fuel : ℕ) → LinkedList → Cmd (List (List ℕ) × LinkedList)
  handle_completes fuel list = complete_from fuel 0 list list.first

  abbrev pub any_complete : Cells → Bool
  any_complete [] = false
  any_complete ((_, v) ∷ cells) = is_complete (connection_at v) || any_complete cells
