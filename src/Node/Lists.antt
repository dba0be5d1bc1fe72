-- ===== src/Node/Lists.antt =====
-- Slices of node pointers. Nodes are shared and mutated, so a `Nodes` holds pointers into a heap.
use k8s_cluster.Base.{
  ℕ, suc, Bool, List, [], ◌∷◌, Option, none, some, ◌==◌, if◌then◌else◌, Text, text_eq, text_lt,
  filter_b,
}
use k8s_cluster.Base.Sort.{sort}
use k8s_cluster.Node.Defs.{Node}

abbrev pub Ptr : Type 0
Ptr = ℕ

abbrev pub Nodes : Type 0
Nodes = List Ptr

-- What each pointer points to.
abbrev pub Heap : Type 0
Heap = Ptr → Node

-- An assignment through a pointer.
unfoldable pub write : Heap → Ptr → Node → Heap
write h p n q = if p == q then n else h q

module _ (h : Heap) where
  -- `GetNodesByFunc`: `none` is the error that no node was found.
  unfoldable pub get_nodes_by_func : (Node → Bool) → Nodes → Option Nodes
  get_nodes_by_func f nodes = elim (filter_b (λ p. f (h p)) nodes) [
    | [] ↦ none
    | p ∷ ps ↦ some (p ∷ ps)
  ]

  unfoldable pub filter_by_func : (Node → Bool) → Nodes → Nodes
  filter_by_func f nodes = filter_b (λ p. f (h p)) nodes

  unfoldable pub get_node_by_id : Text → Nodes → Option Ptr
  get_node_by_id id [] = none
  get_node_by_id id (p ∷ nodes) = if text_eq (h p).id id then some p else get_node_by_id id nodes

  unfoldable pub count_by_func : (Node → Bool) → Nodes → ℕ
  count_by_func f [] = 0
  count_by_func f (p ∷ nodes) =
      if f (h p) then suc (count_by_func f nodes) else count_by_func f nodes

  unfoldable pub sort_by_func : (Node → Node → Bool) → Nodes → Nodes
  unfolding sort
  sort_by_func less nodes = sort (λ p q. less (h p) (h q)) nodes

  unfoldable pub sort_nodes : Nodes → Nodes
  unfolding sort_by_func text_lt
  sort_nodes nodes = sort_by_func (λ a b. text_lt a.id b.id) nodes

unfoldable pub less_by_id : Node → Node → Bool
unfolding text_lt
less_by_id n1 n2 = text_lt n1.id n2.id

unfoldable pub more_by_id : Node → Node → Bool
unfolding text_lt
more_by_id n1 n2 = text_lt n2.id n1.id
