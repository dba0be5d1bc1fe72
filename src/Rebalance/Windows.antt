-- ===== src/Rebalance/Windows.antt =====
-- The window of the main loop of RebalancedCluster: its ends, its sum, and when it is settled.
use mathlib.Core.Path.{ap₂}
use k8s_cluster.Base.{
  All, All-append, Bool, [], ap, arith, elem, false, if◌then◌else◌, refl, true, ◌++◌, ◌==◌, ◌||◌,
  ◌∙◌, ◌∷◌, ◌≡◌,
}
use k8s_cluster.Base.Int.{pos, ◌+ℤ◌, int_laws}
use k8s_cluster.Node.{Ptr, Nodes, Heap}
use k8s_cluster.Rebalance.Balance.{total_balance}
use k8s_cluster.Rebalance.Loop.{Ended, returned, panicked, out_of_fuel, is_zero, shrink, init_last}
use k8s_cluster.Rebalance.Lower.{Unique}

pub init_last-append :
    (p : Ptr) (nodes : Nodes) → (init_last p nodes).0 ++ (init_last p nodes).1 ∷ [] ≡ p ∷ nodes
init_last-append p [] = refl
init_last-append p (q ∷ nodes) = ap (λ l. p ∷ l) (init_last-append q nodes)

pub elem_snoc :
    (q : Ptr) (nodes : Nodes) (src : Ptr) → elem q (nodes ++ src ∷ []) ≡ (elem q nodes || src == q)
elem_snoc q [] src = ground arith
elem_snoc q (p ∷ nodes) src = ground (arith, elem_snoc q nodes src)

pub Unique-init :
    (nodes : Nodes) (src : Ptr)
    → Unique (nodes ++ src ∷ [])
    → Unique nodes × (elem src nodes ≡ false)
Unique-init [] src u = (tt, refl)
Unique-init (p ∷ nodes) src u =
    let k = elem_snoc p nodes src in
    let (a, b) = Unique-init nodes src u.1 in ((ground arith, a), ground arith)

pub total_snoc :
    (h : Heap) (nodes : Nodes) (src : Ptr)
    → total_balance h (nodes ++ src ∷ []) ≡ total_balance h nodes +ℤ (h src).balance
unfolding total_balance
total_snoc h [] src = omega int_laws
total_snoc h (p ∷ nodes) src = rw (total_snoc h nodes src) (omega int_laws)

-- How the loop over `window` ends: not for want of fuel; masters outside keep their balance; and
-- without an error every balance of the window is zero.
abbrev pub Settled : Nodes → Heap → Ended → Type 0
Settled window h out_of_fuel = ⊥
Settled window h panicked = Unit {0}
Settled window h (returned run) =
    ((q : Ptr) → elem q window ≡ false → (run.heap q).balance ≡ (h q).balance)
    × (run.fine ≡ true → All (λ p. (run.heap p).balance ≡ pos 0) window)

pub Settled-heap :
    (w : Nodes) (h h' : Heap) (r : Ended)
    → ((q : Ptr) → elem q w ≡ false → (h' q).balance ≡ (h q).balance)
    → Settled w h' r
    → Settled w h r
Settled-heap w h h' out_of_fuel s k = k
Settled-heap w h h' panicked s k = k
Settled-heap w h h' (returned run) s k = ((λ q e. k.0 q e ∙ s q e), k.1)

-- A settled master may be added in front or behind.
pub Settled-cons :
    (p : Ptr) (w : Nodes) (h : Heap) (r : Ended)
    → elem p w ≡ false
    → (h p).balance ≡ pos 0
    → Settled w h r
    → Settled (p ∷ w) h r
Settled-cons p w h out_of_fuel u z k = k
Settled-cons p w h panicked u z k = k
Settled-cons p w h (returned run) u z k = ((λ q e. k.0 q (ground arith)), λ f. (k.0 p u ∙ z, k.1 f))

All-snoc : (P : Ptr → Type 0) (w : Nodes) (p : Ptr) → All P w → P p → All P (w ++ p ∷ [])
All-snoc P w p a b = All-append P w (p ∷ []) a (b, tt)

pub Settled-snoc :
    (w : Nodes) (p : Ptr) (h : Heap) (r : Ended)
    → elem p w ≡ false
    → (h p).balance ≡ pos 0
    → Settled w h r
    → Settled (w ++ p ∷ []) h r
Settled-snoc w p h out_of_fuel u z k = k
Settled-snoc w p h panicked u z k = k
Settled-snoc w p h (returned run) u z k = (
  (λ q e. let s = elem_snoc q w p in k.0 q (ground arith)),
  λ f. All-snoc (λ p. (run.heap p).balance ≡ pos 0) w p (k.1 f) (k.0 p u ∙ z),
)

pub shrink-by :
    (h : Heap) (dst : Ptr) (mid : Nodes) (src : Ptr) (d s : Bool)
    → is_zero (h dst).balance ≡ d
    → is_zero (h src).balance ≡ s
    → shrink h dst mid src ≡ (
        if d
        then (if s then mid else mid ++ src ∷ [])
        else dst ∷ (if s then mid else mid ++ src ∷ []))
shrink-by h dst mid src d s e f =
    ap₂
      (λ x y.
        if x
        then (if y then mid else mid ++ src ∷ [])
        else dst ∷ (if y then mid else mid ++ src ∷ []))
      e f

pub total-same :
    (h h' : Heap) (nodes : Nodes)
    → All (λ p. (h' p).balance ≡ (h p).balance) nodes
    → total_balance h' nodes ≡ total_balance h nodes
unfolding total_balance
total-same h h' [] a = refl
total-same h h' (p ∷ nodes) a = ap₂ ◌+ℤ◌ a.0 (total-same h h' nodes a.1)
