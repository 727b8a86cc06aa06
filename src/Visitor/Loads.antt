-- ===== src/Visitor/Loads.antt =====
-- A node that was loaded is what the reference refers to.
use object_introspection.Prelude.{
  ◌⊎◌, inl, inr, Error, refl, ◌≡◌, ap, Option, none, some, ok, err, dangling, of_option, ◌>>=◌,
  ok-injective,
}
use object_introspection.Types.{
  Ref, Class, Container, Node, incomplete, class_node, container, primitive, enum_node, array,
  typedef, pointer, reference, dummy, dummy_allocator, capture_keys,
}
use object_introspection.Store.{TypeGraph, deref}
use object_introspection.Visitor.{load_class, load_container}

pub of_option-eq_ok : (o : Option Node) (k : Node) → of_option dangling o ≡ ok k → o ≡ some k
of_option-eq_ok none k h = cc
of_option-eq_ok (some n) k h = ap some (ok-injective h)

class_at :
    (o : Option Node) (c : Class)
    → (of_option dangling o >>= λ n. elim n [ class_node d ↦ ok d | _ ↦ err dangling ]) ≡ ok c
    → o ≡ some (class_node c)
class_at none c h = cc
class_at (some (incomplete t)) c h = cc
class_at (some (class_node t)) c h = ap (λ d. some (class_node d)) (ok-injective h)
class_at (some (container t)) c h = cc
class_at (some (primitive t)) c h = cc
class_at (some (enum_node t)) c h = cc
class_at (some (array t)) c h = cc
class_at (some (typedef t)) c h = cc
class_at (some (pointer t)) c h = cc
class_at (some (reference t)) c h = cc
class_at (some (dummy t)) c h = cc
class_at (some (dummy_allocator t)) c h = cc
class_at (some (capture_keys t)) c h = cc

pub load_class-eq_ok :
    (g : TypeGraph) (r : Ref) (c : Class) → load_class g r ≡ ok c → deref g r ≡ some (class_node c)
load_class-eq_ok g r c h = class_at (deref g r) c h

container_at :
    (o : Option Node) (c : Container)
    → (of_option dangling o >>= λ n. elim n [ container d ↦ ok d | _ ↦ err dangling ]) ≡ ok c
    → o ≡ some (container c)
container_at none c h = cc
container_at (some (incomplete t)) c h = cc
container_at (some (class_node t)) c h = cc
container_at (some (container t)) c h = ap (λ d. some (container d)) (ok-injective h)
container_at (some (primitive t)) c h = cc
container_at (some (enum_node t)) c h = cc
container_at (some (array t)) c h = cc
container_at (some (typedef t)) c h = cc
container_at (some (pointer t)) c h = cc
container_at (some (reference t)) c h = cc
container_at (some (dummy t)) c h = cc
container_at (some (dummy_allocator t)) c h = cc
container_at (some (capture_keys t)) c h = cc

pub load_container-eq_ok :
    (g : TypeGraph) (r : Ref) (c : Container)
    → load_container g r ≡ ok c
    → deref g r ≡ some (container c)
load_container-eq_ok g r c h = container_at (deref g r) c h

-- A load gives a class or an error.
class_node_loaded :
    (o : Option Node)
    → ((c : Class) × ((of_option dangling o >>= λ n. elim n [
      | class_node c ↦ ok c
      | _ ↦ err dangling
    ])
          ≡ ok c))
      ⊎ ((e : Error) × ((of_option dangling o >>= λ n. elim n [
        | class_node c ↦ ok c
        | _ ↦ err dangling
      ])
            ≡ err e))
class_node_loaded none = inr (dangling, refl)
class_node_loaded (some (incomplete t)) = inr (dangling, refl)
class_node_loaded (some (class_node t)) = inl (t, refl)
class_node_loaded (some (container t)) = inr (dangling, refl)
class_node_loaded (some (primitive t)) = inr (dangling, refl)
class_node_loaded (some (enum_node t)) = inr (dangling, refl)
class_node_loaded (some (array t)) = inr (dangling, refl)
class_node_loaded (some (typedef t)) = inr (dangling, refl)
class_node_loaded (some (pointer t)) = inr (dangling, refl)
class_node_loaded (some (reference t)) = inr (dangling, refl)
class_node_loaded (some (dummy t)) = inr (dangling, refl)
class_node_loaded (some (dummy_allocator t)) = inr (dangling, refl)
class_node_loaded (some (capture_keys t)) = inr (dangling, refl)

pub load_class-cases :
    (g : TypeGraph) (r : Ref)
    → ((c : Class) × (load_class g r ≡ ok c)) ⊎ ((e : Error) × (load_class g r ≡ err e))
load_class-cases g r = class_node_loaded (deref g r)

-- A load gives a container or an error.
container_loaded :
    (o : Option Node)
    → ((c : Container) × ((of_option dangling o >>= λ n. elim n [
      | container c ↦ ok c
      | _ ↦ err dangling
    ])
          ≡ ok c))
      ⊎ ((e : Error) × ((of_option dangling o >>= λ n. elim n [
        | container c ↦ ok c
        | _ ↦ err dangling
      ])
            ≡ err e))
container_loaded none = inr (dangling, refl)
container_loaded (some (incomplete t)) = inr (dangling, refl)
container_loaded (some (class_node t)) = inr (dangling, refl)
container_loaded (some (container t)) = inl (t, refl)
container_loaded (some (primitive t)) = inr (dangling, refl)
container_loaded (some (enum_node t)) = inr (dangling, refl)
container_loaded (some (array t)) = inr (dangling, refl)
container_loaded (some (typedef t)) = inr (dangling, refl)
container_loaded (some (pointer t)) = inr (dangling, refl)
container_loaded (some (reference t)) = inr (dangling, refl)
container_loaded (some (dummy t)) = inr (dangling, refl)
container_loaded (some (dummy_allocator t)) = inr (dangling, refl)
container_loaded (some (capture_keys t)) = inr (dangling, refl)

pub load_container-cases :
    (g : TypeGraph) (r : Ref)
    → ((c : Container) × (load_container g r ≡ ok c)) ⊎ ((e : Error) × (load_container g r ≡ err e))
load_container-cases g r = container_loaded (deref g r)
