-- ===== src/Inject/Reuse.antt =====
-- inject.go: an instance that is reused shows nothing of what it held before.
use pecs.Prelude.{Option}
use pecs.Relation.{World}
use pecs.Inject.{Instance, Heap, Resolver, Injection, injected, refused, faulted}

module _ (w : World) (heap : Heap) (manager : Option Resolver) where
  -- Two injections end alike, and two instances that are injected agree as `P` says.
  abbrev pub Ends : (Instance → Instance → Type 0) → Injection → Injection → Type 0
  Ends P (injected i) (injected j) = P i j
  Ends P (refused i) (refused j) = Unit
  Ends P (faulted i) (faulted j) = Unit
  Ends P _ _ = ⊥
